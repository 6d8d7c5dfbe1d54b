-- ===== src/Proxy/Wellformed.antt =====
-- The invariant of the gateway, and that every request is served under it.
use rust_api_gateway.Base.{
  ℕ, ◌≡◌, refl, sym, ap, ◌∙◌, inl, inr, Bool-cases, Option, none, some, [], ◌∷◌, Str, lookup,
  insert, lookup-insert, str_eq, str_eq_iff, arith, from_secs,
}
use rust_api_gateway.Config.{Result-cases, RouteConfig, RateLimitConfig}
use rust_api_gateway.Headers.{Http}
use rust_api_gateway.Router.{match_route}
use rust_api_gateway.Balancer.{Balancer}
use rust_api_gateway.Cache.{Iterates}
use rust_api_gateway.RateLimit.{RateDecision}
use rust_api_gateway.Auth.{authorize}
use rust_api_gateway.State.{RouteRuntime, GatewayState}
use rust_api_gateway.Proxy.{client_ip, rate_key}
use rust_api_gateway.Proxy.Instants.{
  IsTimely, KeepsTimes-refl, KeepsTimes-IsTimely, KeepsTimes, IsEarlyAt,
}
use rust_api_gateway.Proxy.Trail.{SameShape}
use rust_api_gateway.Proxy.Responses.{auth_rejection, Served, error, record_request}
use rust_api_gateway.Proxy.Handler.{Request, note, refuse}
use rust_api_gateway.Proxy.Gateway.{World, serve, reject, with_limit, with_auth}
use rust_api_gateway.Proxy.Served.{IsRuntime, IsServed, note-IsServed}
use rust_api_gateway.Proxy.Stages.{refuse-IsServed, with_cache-Serves}

-- Each route that the configuration can match has a runtime with its own configuration, and every
-- runtime is sound.
pub record IsWellformed {L : Type 0} (s : GatewayState L) : Type 0 where
  pub complete :
      (host : Option Str) (path : Str) (r : RouteConfig)
      (e : match_route s.config host path ≡ some r)
      → (rt : RouteRuntime) × (lookup r.name s.routes ≡ some rt) × (rt.config ≡ r)
  pub sound : (name : Str) (rt : RouteRuntime) (e : lookup name s.routes ≡ some rt) → IsRuntime rt

-- A gateway in which a route has served a request.
abbrev pub served_by : {L : Type 0} → GatewayState L → Str → RouteRuntime → L → GatewayState L
served_by s name rt limiter = record s { routes = insert name rt s.routes; limiter = limiter }

pub served_by-IsWellformed :
    {L : Type 0} (s : GatewayState L) (name : Str) (before after : RouteRuntime) (limiter : L)
    → IsWellformed s
    → lookup name s.routes ≡ some before
    → IsRuntime after
    → after.config ≡ before.config
    → IsWellformed (served_by s name after limiter)
served_by-IsWellformed s name before after limiter v at sound same = record {
  complete = λ host path r e.
      let (rt, there, own) = v.complete host path r e in
      elim (Bool-cases (str_eq name r.name)) [
        | inl mine ↦
            let one : rt ≡ before = ground (arith, str_eq_iff name r.name, there, at) in
            (
              after,
              ground (arith, lookup-insert name r.name after s.routes),
              same ∙ sym (ap (λ x. x.config) one) ∙ own,
            )
        | inr other ↦ (rt, ground (arith, lookup-insert name r.name after s.routes), own)
      ];
  sound = λ n rt e. elim (Bool-cases (str_eq name n)) [
    | inl mine ↦
        let one : after ≡ rt = ground (arith, lookup-insert name n after s.routes) in
        rw one at sound
    | inr other ↦ v.sound n rt (ground (arith, lookup-insert name n after s.routes))
  ];
}

-- Nothing that a runtime of the gateway adds to an instant is long: its breakers stay open, and its cache
-- keeps entries, for 2^62 seconds at most.
abbrev pub IsBriefState : {L : Type 0} → GatewayState L → Type 0
IsBriefState s = (name : Str) (rt : RouteRuntime) (e : lookup name s.routes ≡ some rt) → IsTimely rt

pub served_by-IsBriefState :
    {L : Type 0} (s : GatewayState L) (name : Str) (before after : RouteRuntime) (limiter : L)
    → IsBriefState s
    → lookup name s.routes ≡ some before
    → KeepsTimes before after
    → IsBriefState (served_by s name after limiter)
served_by-IsBriefState s name before after limiter t at k n rt e =
    elim (Bool-cases (str_eq name n)) [
      | inl mine ↦
          let one : after ≡ rt = ground (arith, lookup-insert name n after s.routes, e) in
          rw one at (KeepsTimes-IsTimely before after k (t name before at))
      | inr other ↦ t n rt (ground (arith, lookup-insert name n after s.routes, e))
    ]

-- What other tasks and the hash map do: the first keep the upstreams of a balancer, the second
-- iterates over its entries.
pub record IsOrderly {L : Type 0} (h : Http) (w : World h L) : Type 0 where
  pub quiet : (n : ℕ) (b : Balancer) → SameShape b (w.during n b)
  pub order : Iterates w.iter

module _ (h : Http) {L : Type 0} (w : World h L) (o : IsOrderly h w) (early : IsEarlyAt w.times)
    (req : Request h) where
  -- A stage that does not panic, and serves the request.
  abbrev pub Answers : Str → RouteRuntime → L × Option (Served h) → Type 0
  Answers name runtime result =
      (s : Served h) × (result.1 ≡ some s) × IsServed h name req.method runtime s

  serve-Answers :
      (s : GatewayState L) (name : Str) (runtime : RouteRuntime) (l : L)
      → IsRuntime runtime
      → IsTimely runtime
      → Answers name runtime (l, serve h w req s name runtime)
  unfolding serve
  serve-Answers s name runtime l v t =
      with_cache-Serves h w.iter o.order w.times w.during o.quiet early w.send
        s.config.server.default_timeout_ms s.config.server.max_body_bytes name req runtime v t

  reject-IsServed :
      (s : GatewayState L) (name : Str) (runtime : RouteRuntime) (d : RateDecision)
      → IsRuntime runtime
      → IsServed h name req.method runtime (reject h w req s name runtime d)
  unfolding reject refuse record_request error
  reject-IsServed s name runtime d v = record {
    sound = v;
    same_config = refl;
    counted = inl refl;
    no_connections = refl;
    same_times = KeepsTimes-refl runtime;
  }

  with_limit-Answers :
      (rl : Option RateLimitConfig) (s : GatewayState L) (name : Str) (runtime : RouteRuntime)
      → IsRuntime runtime
      → IsTimely runtime
      → Answers name runtime (with_limit h w req rl s name runtime)
  unfolding with_limit
  with_limit-Answers none s name runtime v t = serve-Answers s name runtime s.limiter v t
  with_limit-Answers (some rl) s name runtime v time =
      let key = rate_key h rl.scope name (client_ip h req.headers req.peer_ip) req.headers in
      let d = (w.check s.limiter key rl.limit (from_secs rl.window_secs)).1 in
      elim (Bool-cases (d.allowed)) [
        | inl allowed ↦
            let (t, runs, served) = serve-Answers s name runtime s.limiter v time in
            (t, rw allowed runs, served)
        | inr over ↦
            (reject h w req s name runtime d, rw over refl, reject-IsServed s name runtime d v)
      ]

  pub with_auth-Answers :
      (s : GatewayState L) (name : Str) (runtime : RouteRuntime)
      → IsRuntime runtime
      → IsTimely runtime
      → Answers name runtime (with_auth h w req s name runtime)
  unfolding with_auth
  with_auth-Answers s name runtime v time =
      elim (Result-cases (authorize h w.decode runtime.config.auth req.headers)) [
        | inl (u, granted) ↦
            let (t, runs, served) =
              with_limit-Answers runtime.config.rate_limit s name runtime v time in
            (t, rw (granted, with_auth) runs, served)
        | inr (reason, denied) ↦
            let refused =
              refuse h w.iter w.times w.during w.send s.config.server.default_timeout_ms
                s.config.server.max_body_bytes name req runtime 401 reason in
            (
              note h (auth_rejection name ∷ []) refused,
              rw (denied, with_auth) refl,
              note-IsServed h name req.method runtime (auth_rejection name ∷ []) refused refl refl (
                  refuse-IsServed h w.iter o.order w.times w.during o.quiet early w.send
                    s.config.server.default_timeout_ms s.config.server.max_body_bytes name req
                    runtime runtime 401 reason v refl (KeepsTimes-refl runtime)),
            )
      ]
