-- ===== src/Interleaved/Alone/Stages.antt =====
-- The cache and the body in `route_and_proxy` of crates/gateway/src/proxy.rs, for a request that is
-- alone.
use rust_api_gateway.Base.{
  ℕ, ◌≡◌, refl, inl, inr, Bool, true, false, Bool-cases, Option, some, Option-cases, List, [], ◌∷◌,
  ◌++◌, Str, str, arith,
}
use rust_api_gateway.Headers.{Http}
use rust_api_gateway.Balancer.{Balancer}
use rust_api_gateway.Cache
use rust_api_gateway.Cache.{ResponseCache}
use rust_api_gateway.State.{RouteRuntime}
use rust_api_gateway.Proxy.{max_attempts}
use rust_api_gateway.Proxy.Attempts.{retry_loop}
use rust_api_gateway.Proxy.Responses.{
  Metric, cache_hit, cache_miss, Served, record_request, cached_response, status_or_ok,
}
use rust_api_gateway.Proxy.Handler.{
  Request, correlation_of, note, key_of, uses_cache, with_body, conclude, looked_up, with_cache,
}
use rust_api_gateway.Proxy.Gateway.{Gateway, World}
use rust_api_gateway.Proxy.Wellformed.{IsOrderly}
use rust_api_gateway.Interleaved.{
  Point, at_cache, at_body, at_pick, body_stage, cache_stage, refused, Moved,
}
use rust_api_gateway.Interleaved.Loop.{stage}
use rust_api_gateway.Interleaved.Alone.{on}
use rust_api_gateway.Interleaved.Alone.Report.{Closes, Closes-same, step-Closes, respond-Closes}
use rust_api_gateway.Interleaved.Alone.Attempts.{
  round_of, ended_of, noted, exchange, attempts-Closes,
}

module _ (h : Http) {L : Type 0} (w : World h L) (o : IsOrderly h w)
    (alone : (n : ℕ) (b : Balancer) → w.during n b ≡ b) (req : Request h) (g : Gateway L)
    (name : Str) (l : L) where
  abbrev key : Str
  key =
      key_of h w.iter w.times w.during w.send g.state.config.server.default_timeout_ms
        g.state.config.server.max_body_bytes name req

  -- From the buffering of the body on.
  abbrev from_body : RouteRuntime → Bool → Option (Served h)
  from_body rt enabled =
      with_body h w.iter w.times w.during w.send g.state.config.server.default_timeout_ms
        g.state.config.server.max_body_bytes name req rt enabled key

  body-Closes :
      (rt : RouteRuntime) (enabled : Bool) (sv : Served h) (ms : List Metric)
      → from_body rt enabled ≡ some sv
      → Closes h w o req g name l rt ms (at_body name enabled) sv
  unfolding with_body retry_loop conclude stage body_stage
  body-Closes rt enabled sv ms e =
      let here : Point h = at_body name enabled in
      elim (Option-cases (req.body g.state.config.server.max_body_bytes)) [
        | inl over ↦
            let sv' = refused h w req g.state name rt 413 (str "request body too large") in
            let same : sv' ≡ sv = ground (arith, e, over) in
            Closes-same h w o req g name l rt ms here sv' sv same (
              respond-Closes h w o req g name l rt ms here sv' refl
                (rw (stage, body_stage, over) refl))
        | inr (body, read) ↦
            let tries = max_attempts rt.config.retries in
            let loop =
              retry_loop (exchange h w o alone req g name l rt enabled body) w.during w.times.picks
                w.times.failed_at req.method rt.config.retries rt.balancer in
            elim (Option-cases loop) [
              | inl panics ↦ absurd (ground (arith, e, read, panics))
              | inr (r, runs) ↦
                  let ended = ended_of h w o alone req g name l rt enabled body r in
                  let m : Moved h L = record {
                    runtime = rt;
                    limiter = l;
                    metrics = [];
                    next =
                        at_pick name (round_of h w o alone req g name l rt enabled body tries 0 []);
                  } in
                  elim (Option-cases ended) [
                    | inl breaks ↦ absurd (ground (arith, e, read, runs, breaks))
                    | inr (end, ends) ↦
                        let sv' = noted h w o alone req g name l rt enabled body r end in
                        let same : sv' ≡ sv = ground (arith, e, read, runs, ends) in
                        Closes-same h w o req g name l rt ms here sv' sv same (
                          step-Closes h w o req g name l rt ms here m sv' refl refl
                            (rw (stage, body_stage, read) refl)
                            (attempts-Closes h w o alone req g name l rt enabled body tries 0 []
                              rt.balancer r end (ms ++ []) runs ends))
                  ]
            ]
      ]

  -- From the lookup in the cache on.
  abbrev pub from_cache : RouteRuntime → Option (Served h)
  from_cache rt =
      with_cache h w.iter w.times w.during w.send g.state.config.server.default_timeout_ms
        g.state.config.server.max_body_bytes name req rt

  abbrev used : RouteRuntime → Bool
  used rt =
      uses_cache h w.iter w.times w.during w.send g.state.config.server.default_timeout_ms
        g.state.config.server.max_body_bytes name req rt

  -- A step that changes neither the limiter nor, but for the time of the entries, the runtime.
  to_body-Closes :
      (rt rt' : RouteRuntime) (enabled : Bool) (notes ms : List Metric) (sv : Served h)
      → stage h w req (on h w req g name rt l ms).state name rt (at_cache name)
        ≡ some (record { runtime = rt'; limiter = l; metrics = notes; next = at_body name enabled })
      → from_body rt' enabled ≡ some sv
      → Closes h w o req g name l rt ms (at_cache name) (note h notes sv)
  to_body-Closes rt rt' enabled notes ms sv runs e =
      let m : Moved h L = record {
        runtime = rt';
        limiter = l;
        metrics = notes;
        next = at_body name enabled;
      } in
      step-Closes h w o req g name l rt ms (at_cache name) m sv refl refl runs
        (body-Closes rt' enabled sv (ms ++ notes) e)

  pub cache-Closes :
      (rt : RouteRuntime) (sv : Served h) (ms : List Metric)
      → from_cache rt ≡ some sv
      → Closes h w o req g name l rt ms (at_cache name) sv
  unfolding with_cache looked_up stage cache_stage
  cache-Closes rt sv ms e = elim (Bool-cases (used rt)) [
    | inr unused ↦
        to_body-Closes rt rt false [] ms sv (rw (stage, cache_stage, unused) refl)
          (ground (arith, e, unused))
    | inl uses ↦ elim (Option-cases (rt.cache)) [
      | inl none_there ↦ absurd (ground (arith, uses, none_there))
      | inr (cache, there) ↦
          let found = Cache.get cache key w.times.looked_up in
          let rt' = record rt { cache = some found.0 } in
          elim (Option-cases (found.1)) [
            | inr (hit, known) ↦
                let sv' : Served h = record {
                  runtime = rt';
                  metrics =
                      cache_hit name ∷ record_request name req.method (status_or_ok hit.status);
                  response = cached_response h hit rt' (correlation_of h req);
                } in
                let same : sv' ≡ sv = ground (arith, e, uses, there, known) in
                Closes-same h w o req g name l rt ms (at_cache name) sv' sv same (
                  respond-Closes h w o req g name l rt ms (at_cache name) sv' refl
                    (rw (stage, cache_stage, uses, there, known) refl))
            | inl unknown ↦ elim (Option-cases (from_body rt' true)) [
              | inl panics ↦ absurd (ground (arith, e, uses, there, unknown, panics))
              | inr (q, runs) ↦
                  let same : note h (cache_miss name ∷ []) q ≡ sv =
                    ground (arith, e, uses, there, unknown, runs) in
                  Closes-same h w o req g name l rt ms (at_cache name)
                    (note h (cache_miss name ∷ []) q) sv same
                    (to_body-Closes rt rt' true (cache_miss name ∷ []) ms q
                      (rw (stage, cache_stage, uses, there, unknown) refl) runs)
            ]
          ]
    ]
  ]
