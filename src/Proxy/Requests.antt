-- ===== src/Proxy/Requests.antt =====
-- Every request is answered and counted.
use rust_api_gateway.Base.{
  ℕ, ◌≡◌, refl, ap, ◌∙◌, ◌⊎◌, inl, inr, true, false, Option, some, Option-cases, List, [], ◌∷◌,
  ◌++◌, Str, str,
}
use rust_api_gateway.Headers.{Http}
use rust_api_gateway.Router.{match_route}
use rust_api_gateway.State.{RouteRuntime, route}
use rust_api_gateway.Proxy.Responses.{
  Metric, connection_opened, connection_closed, request_counted, Response, Served, error,
}
use rust_api_gateway.Proxy.Instants.{IsEarlyAt}
use rust_api_gateway.Proxy.Handler.{Request, host_of, correlation_of}
use rust_api_gateway.Proxy.Gateway.{
  Gateway, World, with_auth, commit, route_and_proxy, closed, handle,
}
use rust_api_gateway.Proxy.Served.{counts, counts-append, connections, connections-append, IsServed}
use rust_api_gateway.Proxy.Wellformed.{
  IsWellformed, IsBriefState, IsOrderly, with_auth-Answers, served_by, served_by-IsWellformed,
  served_by-IsBriefState,
}

append_assoc : {A : Type 0} (xs ys zs : List A) → (xs ++ ys) ++ zs ≡ xs ++ (ys ++ zs)
append_assoc [] ys zs = refl
append_assoc (x ∷ xs) ys zs = ap (λ l. x ∷ l) (append_assoc xs ys zs)

append_empty : {A : Type 0} (xs : List A) → xs ++ [] ≡ xs
append_empty [] = refl
append_empty (x ∷ xs) = ap (λ l. x ∷ l) (append_empty xs)

module _ (h : Http) {L : Type 0} (w : World h L) (o : IsOrderly h w) (req : Request h) where
  -- One request is counted on top of those before: under a route's name and the method, with the
  -- status of the response, or with 200 where the response is a 502.
  pub record IsAnswered (before after : List Metric) (response : Response h) : Type 0 where
    pub route_name : Str
    pub status : ℕ
    pub counted : counts after ≡ counts before ++ ((route_name, req.method, status) ∷ [])
    pub reported : (status ≡ response.status) ⊎ ((status ≡ 200) × (response.status ≡ 502))

  -- A request that does not panic, and leaves a gateway that serves the next one.
  abbrev pub Handled : Gateway L → Option (Gateway L × Response h) → Type 0
  Handled g result =
      (g' : Gateway L) × (r : Response h) × (result ≡ some (g', r))
      × IsWellformed g'.state
      × IsBriefState g'.state
      × IsAnswered g.metrics g'.metrics r
      × (connections g'.metrics ≡ connections g.metrics)

  IsServed-IsAnswered :
      (name : Str) (before : RouteRuntime) (metrics : List Metric) (s : Served h)
      → IsServed h name req.method before s
      → IsAnswered metrics (metrics ++ s.metrics) s.response
  IsServed-IsAnswered name before metrics s v = elim (v.counted) [
    | inl c ↦ record {
      route_name = name;
      status = s.response.status;
      counted = counts-append metrics s.metrics ∙ ap (λ l. counts metrics ++ l) c;
      reported = inl refl;
    }
    | inr (c, failed) ↦ record {
      route_name = name;
      status = 200;
      counted = counts-append metrics s.metrics ∙ ap (λ l. counts metrics ++ l) c;
      reported = inr (refl, failed);
    }
  ]

  pub route_and_proxy-Handled :
      (g : Gateway L)
      → IsEarlyAt w.times
      → IsWellformed g.state
      → IsBriefState g.state
      → Handled g (route_and_proxy h w req g)
  unfolding route_and_proxy route error
  route_and_proxy-Handled g early v brief =
      elim (Option-cases (match_route g.state.config (some (host_of h req)) req.path)) [
        | inl unmatched ↦ (
          record g { metrics = g.metrics ++ (request_counted (str "none") req.method 404 ∷ []) },
          error h 404 (str "no matching route") (correlation_of h req),
          rw (unmatched, route_and_proxy) refl,
          v,
          brief,
          record {
            route_name = str "none";
            status = 404;
            counted = counts-append g.metrics (request_counted (str "none") req.method 404 ∷ []);
            reported = inl refl;
          },
          connections-append g.metrics (request_counted (str "none") req.method 404 ∷ [])
              ∙ append_empty (connections g.metrics),
        )
        | inr (r, matched) ↦
            let (rt, there, own) = v.complete (some (host_of h req)) req.path r matched in
            let (s, runs, served) =
              with_auth-Answers h w o early req g.state r.name rt (v.sound r.name rt there)
                (brief r.name rt there) in
            let limiter = (with_auth h w req g.state r.name rt).0 in
            (
              record {
                state = served_by g.state r.name s.runtime limiter;
                metrics = g.metrics ++ s.metrics;
              },
              s.response,
              rw (matched, route_and_proxy)
                  (rw there (ap (λ x. commit h w req g r.name (limiter, x)) runs)),
              served_by-IsWellformed g.state r.name rt s.runtime limiter v there served.sound
                  served.same_config,
              served_by-IsBriefState g.state r.name rt s.runtime limiter brief there
                  served.same_times,
              IsServed-IsAnswered r.name rt g.metrics s served,
              connections-append g.metrics s.metrics
                  ∙ ap (λ l. connections g.metrics ++ l) served.no_connections
                  ∙ append_empty (connections g.metrics),
            )
      ]

  pub handle-IsWellformed :
      (g : Gateway L)
      → IsEarlyAt w.times
      → IsWellformed g.state
      → IsBriefState g.state
      → (g' : Gateway L) × (r : Response h) × (handle h w req g ≡ some (g', r))
        × IsWellformed g'.state
        × IsBriefState g'.state
        × IsAnswered g.metrics g'.metrics r
        × (connections g'.metrics ≡ connections g.metrics ++ (true ∷ false ∷ []))
  unfolding handle
  handle-IsWellformed g early v brief =
      let opened : Gateway L = record g { metrics = g.metrics ++ (connection_opened ∷ []) } in
      let (g', r, runs, v', brief', a, quiet) = route_and_proxy-Handled opened early v brief in
      (
        record g' { metrics = g'.metrics ++ (connection_closed ∷ []) },
        r,
        ap (closed h w req) runs,
        v',
        brief',
        record {
          route_name = a.route_name;
          status = a.status;
          counted =
              counts-append g'.metrics (connection_closed ∷ [])
              ∙ append_empty (counts g'.metrics)
              ∙ a.counted
              ∙ ap (λ l. l ++ ((a.route_name, req.method, a.status) ∷ []))
                  (counts-append g.metrics (connection_opened ∷ [])
                    ∙ append_empty (counts g.metrics));
          reported = a.reported;
        },
        connections-append g'.metrics (connection_closed ∷ [])
            ∙ ap (λ l. l ++ (false ∷ []))
                (quiet ∙ connections-append g.metrics (connection_opened ∷ []))
            ∙ append_assoc (connections g.metrics) (true ∷ []) (false ∷ []),
      )
