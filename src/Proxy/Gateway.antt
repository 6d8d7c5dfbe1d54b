-- ===== src/Proxy/Gateway.antt =====
-- `handle` and `route_and_proxy` of crates/gateway/src/proxy.rs, up to the stages that stand in
-- Proxy/Handler.antt.
use rust_api_gateway.Base.{
  ℕ, Option, none, some, List, [], ◌∷◌, ◌++◌, Str, str, HashMap, insert, from_secs, if◌then◌else◌,
}
use rust_api_gateway.Config.{ok, err, RateLimitConfig}
use rust_api_gateway.Headers.{Http}
use rust_api_gateway.Router.{match_route}
use rust_api_gateway.Balancer.{Balancer}
use rust_api_gateway.RateLimit.{RateDecision}
use rust_api_gateway.Cache.{CachedResponse}
use rust_api_gateway.Auth.{Claims, authorize}
use rust_api_gateway.State.{RouteRuntime, GatewayState, route}
use rust_api_gateway.Proxy.{client_ip, rate_key}
use rust_api_gateway.Proxy.Attempts.{Exchange}
use rust_api_gateway.Proxy.Responses.{
  Metric, connection_opened, connection_closed, request_counted, auth_rejection,
  rate_limit_rejection, Response, Answer, Served, error, add_ratelimit_headers,
}
use rust_api_gateway.Proxy.Handler.{
  Request, Forwarded, Times, host_of, correlation_of, note, refuse, with_cache,
}

-- The gateway: the shared state and the changes of the metrics so far.
pub record Gateway (L : Type 0) : Type 0 where
  pub state : GatewayState L
  pub metrics : List Metric

-- Everything around the gateway that a request meets.
pub record World (h : Http) (L : Type 0) : Type 0 where
  pub decode : Str → Str → Option Claims
  pub check : L → Str → ℕ → ℕ → L × RateDecision
  pub iter : HashMap CachedResponse → HashMap CachedResponse
  pub times : Times
  pub during : ℕ → Balancer → Balancer
  pub send : ℕ → Forwarded h → Exchange (Answer h)

module _ (h : Http) {L : Type 0} (w : World h L) (req : Request h) where
  -- The stages on the route that was matched.
  unfoldable pub serve : GatewayState L → Str → RouteRuntime → Option (Served h)
  serve s name runtime =
      with_cache h w.iter w.times w.during w.send s.config.server.default_timeout_ms
        s.config.server.max_body_bytes name req runtime

  -- The answer to a request over the limit.
  unfoldable pub reject : GatewayState L → Str → RouteRuntime → RateDecision → Served h
  reject s name runtime d =
      let refused =
        refuse h w.iter w.times w.during w.send s.config.server.default_timeout_ms
          s.config.server.max_body_bytes name req runtime 429 (str "rate limit exceeded") in
      note h (rate_limit_rejection name ∷ []) (record refused {
        response = record (refused.response) {
          headers = add_ratelimit_headers h refused.response.headers d.limit 0 d.reset_secs;
        };
      })

  -- The rate limit of the route, and what follows, with the limiter after it.
  unfoldable pub with_limit :
      Option RateLimitConfig → GatewayState L → Str → RouteRuntime → L × Option (Served h)
  with_limit none s name runtime = (s.limiter, serve s name runtime)
  with_limit (some rl) s name runtime =
      let key = rate_key h rl.scope name (client_ip h req.headers req.peer_ip) req.headers in
      let (limiter, d) = w.check s.limiter key rl.limit (from_secs rl.window_secs) in
      (limiter, if d.allowed then serve s name runtime else some (reject s name runtime d))

  -- The authentication, and what follows.
  unfoldable pub with_auth : GatewayState L → Str → RouteRuntime → L × Option (Served h)
  with_auth s name runtime = elim (authorize h w.decode runtime.config.auth req.headers) [
    | ok _ ↦ with_limit runtime.config.rate_limit s name runtime
    | err reason ↦ (
      s.limiter,
      some (
          note h (auth_rejection name ∷ []) (
            refuse h w.iter w.times w.during w.send s.config.server.default_timeout_ms
              s.config.server.max_body_bytes name req runtime 401 reason)),
    )
  ]

  -- The gateway once a route has served the request.
  abbrev pub commit : Gateway L → Str → L × Option (Served h) → Option (Gateway L × Response h)
  commit g name (limiter, none) = none
  commit g name (limiter, some s) = some (
    record {
      state = record (g.state) { routes = insert name s.runtime g.state.routes; limiter = limiter };
      metrics = g.metrics ++ s.metrics;
    },
    s.response,
  )

  unfoldable pub route_and_proxy : Gateway L → Option (Gateway L × Response h)
  route_and_proxy g = elim (match_route g.state.config (some (host_of h req)) req.path) [
    | none ↦ some (
      record g { metrics = g.metrics ++ (request_counted (str "none") req.method 404 ∷ []) },
      error h 404 (str "no matching route") (correlation_of h req),
    )
    | some r ↦ elim (route g.state r.name) [
      | none ↦ some (g, error h 500 (str "route runtime missing") (correlation_of h req))
      | some runtime ↦ commit g r.name (with_auth g.state r.name runtime)
    ]
  ]

  abbrev pub closed : Option (Gateway L × Response h) → Option (Gateway L × Response h)
  closed none = none
  closed (some (g, r)) = some (record g { metrics = g.metrics ++ (connection_closed ∷ []) }, r)

  unfoldable pub handle : Gateway L → Option (Gateway L × Response h)
  handle g = closed (route_and_proxy (record g { metrics = g.metrics ++ (connection_opened ∷ []) }))
