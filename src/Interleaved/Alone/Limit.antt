-- ===== src/Interleaved/Alone/Limit.antt =====
-- The rate limit of `route_and_proxy` in crates/gateway/src/proxy.rs, for a request that is alone.
use rust_api_gateway.Base.{
  ℕ, ◌≡◌, refl, ap, ◌∙◌, inl, inr, Bool-cases, Option, some, Option-cases, List, [], ◌++◌, Str,
  from_secs, arith,
}
use rust_api_gateway.Headers.{Http}
use rust_api_gateway.Balancer.{Balancer}
use rust_api_gateway.State.{RouteRuntime}
use rust_api_gateway.Proxy.{client_ip, rate_key}
use rust_api_gateway.Proxy.Responses.{Metric, Served}
use rust_api_gateway.Proxy.Handler.{Request}
use rust_api_gateway.Proxy.Gateway.{Gateway, World, serve, reject, with_limit}
use rust_api_gateway.Proxy.Wellformed.{IsOrderly}
use rust_api_gateway.Interleaved.{Point, at_limit, at_cache, closing, limit_stage, Moved, route_of}
use rust_api_gateway.Interleaved.Loop.{stage}
use rust_api_gateway.Interleaved.Alone.{Runs, Runs-to, on, on-Runs, closing-Runs, closed_tag}
use rust_api_gateway.Interleaved.Alone.Report.{append_assoc, append_empty}
use rust_api_gateway.Interleaved.Alone.Stages.{from_cache, cache-Closes}

module _ (h : Http) {L : Type 0} (w : World h L) (o : IsOrderly h w)
    (alone : (n : ℕ) (b : Balancer) → w.during n b ≡ b) (req : Request h) (g : Gateway L)
    (name : Str) where
  -- The steps from a point on the route on serve the request, and leave the limiter.
  abbrev pub Serves : RouteRuntime → List Metric → Point h → L × Served h → Type 0
  Serves rt ms p (l, sv) =
      Runs h w req (on h w req g name rt g.state.limiter ms) p
        (on h w req g name sv.runtime l (ms ++ (sv.metrics ++ closed_tag))) sv.response

  limited-Serves :
      (rt : RouteRuntime) (l : L) (sv : Served h) (ms : List Metric)
      → stage h w req (on h w req g name rt g.state.limiter ms).state name rt (at_limit name)
        ≡ some (record { runtime = rt; limiter = l; metrics = []; next = at_cache name })
      → from_cache h w o alone req g name l rt ≡ some sv
      → Serves rt ms (at_limit name) (l, sv)
  limited-Serves rt l sv ms runs e =
      let m : Moved h L = record {
        runtime = rt;
        limiter = l;
        metrics = [];
        next = at_cache name;
      } in
      let end : List Metric → Gateway L =
        λ t. on h w req g name sv.runtime l (t ++ (sv.metrics ++ closed_tag)) in
      on-Runs h w req o g name rt g.state.limiter ms (at_limit name) m (end ms) sv.response refl
        runs
        (Runs-to h w req (on h w req g name rt l (ms ++ [])) (end (ms ++ [])) (end ms)
          (at_cache name) sv.response (ap end (append_empty ms))
          (cache-Closes h w o alone req g name l rt sv (ms ++ []) e))

  rejected-Serves :
      (rt : RouteRuntime) (l : L) (sv : Served h) (ms : List Metric) (p : Point h)
      → route_of h p ≡ some name
      → stage h w req (on h w req g name rt g.state.limiter ms).state name rt p
        ≡ some (record {
          runtime = sv.runtime;
          limiter = l;
          metrics = sv.metrics;
          next = closing sv.response;
        })
      → Serves rt ms p (l, sv)
  rejected-Serves rt l sv ms p at runs =
      let m : Moved h L = record {
        runtime = sv.runtime;
        limiter = l;
        metrics = sv.metrics;
        next = closing sv.response;
      } in
      let end : List Metric → Gateway L = λ t. on h w req g name sv.runtime l t in
      on-Runs h w req o g name rt g.state.limiter ms p m (end (ms ++ (sv.metrics ++ closed_tag)))
        sv.response at runs
        (Runs-to h w req (end (ms ++ sv.metrics)) (end ((ms ++ sv.metrics) ++ closed_tag))
          (end (ms ++ (sv.metrics ++ closed_tag))) (closing sv.response) sv.response
          (ap end (append_assoc ms sv.metrics closed_tag))
          (closing-Runs h w req g name sv.runtime l (ms ++ sv.metrics) sv.response))

  pub limit-Serves :
      (rt : RouteRuntime) (l : L) (sv : Served h) (ms : List Metric)
      → with_limit h w req rt.config.rate_limit g.state name rt ≡ (l, some sv)
      → Serves rt ms (at_limit name) (l, sv)
  unfolding with_limit serve reject stage limit_stage
  limit-Serves rt l sv ms e =
      let serves = from_cache h w o alone req g name l rt in
      let here = on h w req g name rt g.state.limiter ms in
      let go_on : L → Option (Moved h L) =
        λ x. some (record { runtime = rt; limiter = x; metrics = []; next = at_cache name }) in
      elim (Option-cases (rt.config.rate_limit)) [
        | inl unlimited ↦
            let limiter : g.state.limiter ≡ l = ground (arith, e, unlimited) in
            let served : serves ≡ some sv = ground (arith, e, unlimited) in
            let runs : stage h w req here.state name rt (at_limit name) ≡ go_on g.state.limiter =
              ground (arith, unlimited) in
            limited-Serves rt l sv ms (runs ∙ ap go_on limiter) served
        | inr (rl, limit) ↦
            let key = rate_key h rl.scope name (client_ip h req.headers req.peer_ip) req.headers in
            let checked = w.check g.state.limiter key rl.limit (from_secs rl.window_secs) in
            elim (Bool-cases (checked.1.allowed)) [
              | inl allowed ↦
                  let limiter : checked.0 ≡ l = ground (arith, e, limit, allowed) in
                  let served : serves ≡ some sv = ground (arith, e, limit, allowed) in
                  let runs : stage h w req here.state name rt (at_limit name) ≡ go_on checked.0 =
                    ground (arith, limit, allowed) in
                  limited-Serves rt l sv ms (runs ∙ ap go_on limiter) served
              | inr over ↦
                  let gone = reject h w req g.state name rt checked.1 in
                  let limiter : checked.0 ≡ l = ground (arith, e, limit, over) in
                  let same : gone ≡ sv = ground (arith, e, limit, over) in
                  let turns_away : L → Served h → Option (Moved h L) = λ x s. some (record {
                    runtime = s.runtime;
                    limiter = x;
                    metrics = s.metrics;
                    next = closing s.response;
                  }) in
                  let runs : stage h w req here.state name rt (at_limit name)
                      ≡ turns_away checked.0 gone =
                    ground (arith, limit, over) in
                  rejected-Serves rt l sv ms (at_limit name) refl
                    (runs ∙ ap (λ x. turns_away x gone) limiter ∙ ap (turns_away l) same)
            ]
      ]
