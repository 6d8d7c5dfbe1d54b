-- ===== src/Interleaved/Alone/Handle.antt =====
-- The authentication, and `handle` of crates/gateway/src/proxy.rs, as the steps of a request that is
-- alone.
use rust_api_gateway.Base.{
  ℕ, ◌≡◌, refl, sym, ap, ◌∙◌, inl, inr, Option, some, Option-cases, List, [], ◌∷◌, ◌++◌, Str, str,
  lookup, arith,
}
use rust_api_gateway.Config.{Result-cases}
use rust_api_gateway.Headers.{Http}
use rust_api_gateway.Router.{match_route}
use rust_api_gateway.Balancer.{Balancer}
use rust_api_gateway.Auth.{authorize}
use rust_api_gateway.State.{RouteRuntime, route}
use rust_api_gateway.Proxy.Responses.{
  Metric, connection_opened, request_counted, auth_rejection, error, Response, Served,
}
use rust_api_gateway.Proxy.Handler.{Request, host_of, correlation_of, note}
use rust_api_gateway.Proxy.Gateway.{Gateway, World, with_limit, with_auth, route_and_proxy, handle}
use rust_api_gateway.Proxy.Wellformed.{IsOrderly}
use rust_api_gateway.Interleaved.{
  Point, entered, at_auth, at_limit, closing, answered, auth_stage, refused,
}
use rust_api_gateway.Interleaved.Loop.{stage, enter, advance}
use rust_api_gateway.Interleaved.Alone.{Runs, done, Runs-to, more, on, closing-Runs, closed_tag}
use rust_api_gateway.Interleaved.Alone.Report.{append_assoc, append_empty}
use rust_api_gateway.Interleaved.Alone.Limit.{limit-Serves}

module _ (h : Http) {L : Type 0} (w : World h L) (o : IsOrderly h w)
    (alone : (n : ℕ) (b : Balancer) → w.during n b ≡ b) (req : Request h) (g : Gateway L)
    (name : Str) where
  auth-Runs :
      (rt : RouteRuntime) (l : L) (sv : Served h)
      → lookup name g.state.routes ≡ some rt
      → with_auth h w req g.state name rt ≡ (l, some sv)
      → Runs h w req g
          (at_auth name)
          (on h w req g name sv.runtime l (g.metrics ++ (sv.metrics ++ closed_tag)))
          sv.response
  unfolding with_auth stage auth_stage advance
  auth-Runs rt l sv at e =
      let end : List Metric → Gateway L = λ t. on h w req g name sv.runtime l t in
      let last = end (g.metrics ++ (sv.metrics ++ closed_tag)) in
      elim (Result-cases (authorize h w.decode rt.config.auth req.headers)) [
        | inl (u, granted) ↦
            let limits : with_limit h w req rt.config.rate_limit g.state name rt ≡ (l, some sv) =
              ground (arith, e, granted) in
            let there = on h w req g name rt g.state.limiter (g.metrics ++ []) in
            let from : List Metric → Gateway L = λ t. end (t ++ (sv.metrics ++ closed_tag)) in
            more g there last (at_auth name) (at_limit name) sv.response
              (ground (arith, at, granted))
              (Runs-to h w req there (from (g.metrics ++ [])) last (at_limit name) sv.response
                (ap from (append_empty g.metrics))
                (limit-Serves h w o alone req g name rt l sv (g.metrics ++ []) limits))
        | inr (reason, denied) ↦
            let sv' =
              note h (auth_rejection name ∷ []) (refused h w req g.state name rt 401 reason) in
            let same : sv' ≡ sv = ground (arith, e, denied) in
            let limiter : g.state.limiter ≡ l = ground (arith, e, denied) in
            let there : Served h → L → Gateway L =
              λ s x. on h w req g name s.runtime x (g.metrics ++ s.metrics) in
            let turns_away : Served h → L → Option (Gateway L × Point h) =
              λ s x. some (there s x, closing s.response) in
            let runs : advance h w req g (at_auth name) ≡ turns_away sv' g.state.limiter =
              ground (arith, at, denied) in
            more g (there sv l) last (at_auth name) (closing sv.response) sv.response
              (runs ∙ ap (turns_away sv') limiter ∙ ap (λ s. turns_away s l) same)
              (Runs-to h w req (there sv l) (end ((g.metrics ++ sv.metrics) ++ closed_tag)) last
                (closing sv.response) sv.response
                (ap end (append_assoc g.metrics sv.metrics closed_tag))
                (closing-Runs h w req g name sv.runtime l (g.metrics ++ sv.metrics) sv.response))
      ]

module _ (h : Http) {L : Type 0} (w : World h L) (o : IsOrderly h w)
    (alone : (n : ℕ) (b : Balancer) → w.during n b ≡ b) (req : Request h) where
  abbrev opened : Gateway L → Gateway L
  opened g = record g { metrics = g.metrics ++ (connection_opened ∷ []) }

  -- A request that no route is there for.
  unrouted-Runs :
      (g there : Gateway L) (r : Response h)
      → enter h w req g ≡ (there, closing r)
      → Runs h w req g entered (record there { metrics = there.metrics ++ closed_tag }) r
  unfolding advance
  unrouted-Runs g there r e =
      let last = record there { metrics = there.metrics ++ closed_tag } in
      more g there last entered (closing r) r (ap some e)
        (more there last last (closing r) (answered r) r refl (done last r))

  ended_at :
      (g : Gateway L) (x y : Gateway L × Response h)
      → x ≡ y
      → Runs h w req g entered (x.0) (x.1)
      → Runs h w req g entered (y.0) (y.1)
  ended_at g x y e run = rw e at run

  -- A request on a route.
  routed-Runs :
      (g : Gateway L) (name : Str) (rt : RouteRuntime) (l : L) (sv : Served h)
      → enter h w req g ≡ (opened g, at_auth name)
      → lookup name g.state.routes ≡ some rt
      → with_auth h w req g.state name rt ≡ (l, some sv)
      → Runs h w req g entered
          (on h w req g name sv.runtime l (((opened g).metrics ++ sv.metrics) ++ closed_tag))
          sv.response
  unfolding advance
  routed-Runs g name rt l sv e at served =
      let end : List Metric → Gateway L = λ t. on h w req g name sv.runtime l t in
      let ms = (opened g).metrics in
      more g (opened g) (end ((ms ++ sv.metrics) ++ closed_tag)) entered (at_auth name) sv.response
        (ap some e)
        (Runs-to h w req (opened g) (end (ms ++ (sv.metrics ++ closed_tag)))
          (end ((ms ++ sv.metrics) ++ closed_tag)) (at_auth name) sv.response
          (ap end (sym (append_assoc ms sv.metrics closed_tag)))
          (auth-Runs h w o alone req (opened g) name rt l sv at served))

  pub handle-Runs_to :
      (g g' : Gateway L) (r : Response h)
      → handle h w req g ≡ some (g', r)
      → Runs h w req g entered g' r
  unfolding handle route_and_proxy enter route
  handle-Runs_to g g' r e =
      elim (Option-cases (match_route g.state.config (some (host_of h req)) req.path)) [
        | inl unmatched ↦
            let counted = record g {
              metrics = (opened g).metrics ++ (request_counted (str "none") req.method 404 ∷ []);
            } in
            let answer = error h 404 (str "no matching route") (correlation_of h req) in
            let last : Gateway L × Response h =
              (record counted { metrics = counted.metrics ++ closed_tag }, answer) in
            ended_at g last (g', r) (ground (arith, e, unmatched))
              (unrouted-Runs g counted answer (rw (enter, unmatched) refl))
        | inr (rc, matched) ↦ elim (Option-cases (route g.state rc.name)) [
          | inl missing ↦
              let answer = error h 500 (str "route runtime missing") (correlation_of h req) in
              let last : Gateway L × Response h =
                (record g { metrics = (opened g).metrics ++ closed_tag }, answer) in
              ended_at g last (g', r) (ground (arith, e, matched, missing))
                (unrouted-Runs g (opened g) answer (rw (enter, matched, missing) refl))
          | inr (rt, there) ↦
              let served = with_auth h w req g.state rc.name rt in
              elim (Option-cases (served.1)) [
                | inl panics ↦ absurd (ground (arith, e, matched, there, panics))
                | inr (sv, runs) ↦
                    let last : Gateway L × Response h = (
                      on h w req g rc.name sv.runtime served.0
                          (((opened g).metrics ++ sv.metrics) ++ closed_tag),
                      sv.response,
                    ) in
                    ended_at g last (g', r) (ground (arith, e, matched, there, runs))
                      (routed-Runs g rc.name rt served.0 sv (rw (enter, matched, there) refl) there
                        (ap (λ t. (served.0, t)) runs))
              ]
        ]
      ]
