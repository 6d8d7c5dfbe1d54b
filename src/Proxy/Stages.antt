-- ===== src/Proxy/Stages.antt =====
-- Each stage of the pipeline serves the request.
use rust_api_gateway.Base.{
  ℕ, ◌≡◌, refl, sym, ap, ◌∙◌, inl, inr, Bool, true, false, Bool-cases, Option, some, Option-cases,
  [], ◌∷◌, map, Str, str, HashMap, arith, IsShort,
}
use rust_api_gateway.Headers.{Http}
use rust_api_gateway.Balancer.{Balancer}
use rust_api_gateway.Cache
use rust_api_gateway.Cache.{CachedResponse, ResponseCache, Iterates}
use rust_api_gateway.Cache.Capacity.{IsBounded, get-IsBounded}
use rust_api_gateway.State.{RouteRuntime}
use rust_api_gateway.Proxy.Attempts.{
  Exchange, Ran, Outcome, finishes, no_healthy_upstream, upstream_unavailable, all_attempts_failed,
}
use rust_api_gateway.Proxy.Instants.{
  IsTimely, ttl_of, KeepsTimes, KeepsTimes-refl, KeepsTimes-trans, IsEarlyAt,
  finish_response-returns,
}
use rust_api_gateway.Proxy.Trail.{SameShape, SameShape-IsBalancer, SameShape-IsBrief}
use rust_api_gateway.Proxy.Retries.{retry_loop-Trail}
use rust_api_gateway.Proxy.Responses.{
  in_loop, cache_hit, cache_miss, status_or_ok, Answer, Served, record_request, error,
  cached_response,
}
use rust_api_gateway.Proxy.Handler.{
  Request, Forwarded, Times, note, note_all, refuse, end_with, ended_with, correlation_of, conclude,
  concluded, forwarded, with_body, uses_cache, key_of, looked_up, with_cache,
}
use rust_api_gateway.Proxy.Served.{
  counts-notes, connections-notes, IsRuntime, IsServed, note-IsServed, finished_response-IsServed,
}

pub get-ttl : (c : ResponseCache) (k : Str) (now : ℕ) → (Cache.get c k now).0.ttl ≡ c.ttl
unfolding Cache.get
get-ttl c k now = ground arith

module _ (h : Http) (iter : HashMap CachedResponse → HashMap CachedResponse) (order : Iterates iter)
    (times : Times) (during : ℕ → Balancer → Balancer)
    (quiet : (n : ℕ) (b : Balancer) → SameShape b (during n b)) (early : IsEarlyAt times)
    (send : ℕ → Forwarded h → Exchange (Answer h)) (timeout limit : ℕ) (name : Str)
    (req : Request h) where
  abbrev refused : RouteRuntime → ℕ → Str → Served h
  refused = refuse h iter times during send timeout limit name req

  pub refuse-IsServed :
      (before after : RouteRuntime) (status : ℕ) (message : Str)
      → IsRuntime after
      → after.config ≡ before.config
      → KeepsTimes before after
      → IsServed h name req.method before (refused after status message)
  unfolding refuse record_request error
  refuse-IsServed before after status message v e k = record {
    sound = v;
    same_config = e;
    counted = inl refl;
    no_connections = refl;
    same_times = k;
  }

  ended_with-IsServed :
      (before after : RouteRuntime) (cache_enabled : Bool) (key : Str) (o : Outcome (Answer h))
      → IsRuntime after
      → after.config ≡ before.config
      → KeepsTimes before after
      → IsServed h name req.method before
          (ended_with h iter times during send timeout limit name req after cache_enabled key o)
  unfolding ended_with
  ended_with-IsServed before after cache_enabled key (finishes status answer) v e k =
      let s =
        finished_response-IsServed h iter order times.stored times.expiry_from after name req.method
          status answer cache_enabled key (correlation_of h req) v in
      record {
        sound = s.sound;
        same_config = s.same_config ∙ e;
        counted = s.counted;
        no_connections = s.no_connections;
        same_times = KeepsTimes-trans before after _ k s.same_times;
      }
  ended_with-IsServed before after cache_enabled key no_healthy_upstream v e k =
      refuse-IsServed before after 503 (str "no healthy upstream") v e k
  ended_with-IsServed before after cache_enabled key upstream_unavailable v e k =
      refuse-IsServed before after 502 (str "upstream unavailable") v e k
  ended_with-IsServed before after cache_enabled key all_attempts_failed v e k =
      refuse-IsServed before after 502 (str "all upstream attempts failed") v e k

  concluded-IsServed :
      (runtime : RouteRuntime) (cache_enabled : Bool) (key : Str) (r : Ran (Answer h))
      → IsRuntime runtime
      → SameShape runtime.balancer r.balancer
      → IsServed h name req.method runtime
          (concluded h iter times during send timeout limit name req runtime cache_enabled key r)
  unfolding concluded
  concluded-IsServed runtime cache_enabled key r v shape =
      let after : RouteRuntime = record runtime { balancer = r.balancer } in
      let sound : IsRuntime after = record {
        usable = SameShape-IsBalancer runtime.balancer r.balancer shape v.usable;
        bounded = v.bounded;
      } in
      note-IsServed h name req.method runtime (map (in_loop name) r.notes)
        (ended_with h iter times during send timeout limit name req after cache_enabled key
          r.outcome)
        (counts-notes name r.notes) (connections-notes name r.notes)
        (ended_with-IsServed runtime after cache_enabled key r.outcome sound refl
          (record { same_cooldowns = shape.same_cooldowns; same_ttl = refl }))

  -- The end of a request does not panic where nothing is added to an instant that is too long.
  end_with-returns :
      (runtime : RouteRuntime) (cache_enabled : Bool) (key : Str) (o : Outcome (Answer h))
      → IsTimely runtime
      → end_with h iter times during send timeout limit name req runtime cache_enabled key o
        ≡ some
            (ended_with h iter times during send timeout limit name req runtime cache_enabled key o)
  unfolding end_with ended_with
  end_with-returns runtime cache_enabled key (finishes status answer) t =
      finish_response-returns h iter times.stored times.expiry_from runtime name req.method status
        answer cache_enabled key (correlation_of h req) early.expiry t.cache
  end_with-returns runtime cache_enabled key no_healthy_upstream t = refl
  end_with-returns runtime cache_enabled key upstream_unavailable t = refl
  end_with-returns runtime cache_enabled key all_attempts_failed t = refl

  conclude-returns :
      (runtime : RouteRuntime) (cache_enabled : Bool) (key : Str) (r : Ran (Answer h))
      → IsTimely runtime
      → SameShape runtime.balancer r.balancer
      → conclude h iter times during send timeout limit name req runtime cache_enabled key r
        ≡ some
            (concluded h iter times during send timeout limit name req runtime cache_enabled key r)
  unfolding conclude concluded
  conclude-returns runtime cache_enabled key r t shape =
      let after : RouteRuntime = record runtime { balancer = r.balancer } in
      ap (note_all h (map (in_loop name) r.notes)) (
        end_with-returns after cache_enabled key r.outcome (record {
          balancer = SameShape-IsBrief runtime.balancer r.balancer shape t.balancer;
          cache = t.cache;
        }))

  -- A stage that does not panic, and serves the request.
  abbrev pub Serves : RouteRuntime → Option (Served h) → Type 0
  Serves runtime result = (s : Served h) × (result ≡ some s) × IsServed h name req.method runtime s

  with_body-Serves :
      (runtime : RouteRuntime) (cache_enabled : Bool) (key : Str)
      → IsRuntime runtime
      → IsTimely runtime
      → Serves runtime
          (with_body h iter times during send timeout limit name req runtime cache_enabled key)
  unfolding with_body
  with_body-Serves runtime cache_enabled key v t = elim (Option-cases (req.body limit)) [
    | inl too_large ↦ (
      refused runtime 413 (str "request body too large"),
      rw (too_large, with_body) refl,
      refuse-IsServed runtime runtime 413 (str "request body too large") v refl
          (KeepsTimes-refl runtime),
    )
    | inr (body, read) ↦
        let (r, runs, _, shape) =
          retry_loop-Trail
            (λ n url.
              send n (forwarded h iter times during send timeout limit name req runtime body url))
            during times.picks times.failed_at req.method runtime.config.retries runtime.balancer
            quiet early.failures v.usable t.balancer in
        (
          concluded h iter times during send timeout limit name req runtime cache_enabled key r,
          rw (read, with_body) (rw runs (conclude-returns runtime cache_enabled key r t shape)),
          concluded-IsServed runtime cache_enabled key r v shape,
        )
  ]

  looked_up-Serves :
      (runtime : RouteRuntime) (cache : ResponseCache)
      → IsRuntime runtime
      → IsBounded cache
      → runtime.cache ≡ some cache
      → IsTimely runtime
      → IsShort cache.ttl
      → Serves runtime (looked_up h iter times during send timeout limit name req runtime cache)
  unfolding looked_up record_request cached_response
  looked_up-Serves runtime cache v b there t short =
      let key = key_of h iter times during send timeout limit name req in
      let cache' = (Cache.get cache key times.looked_up).0 in
      let runtime' : RouteRuntime = record runtime { cache = some cache' } in
      let sound : IsRuntime runtime' = record {
        usable = v.usable;
        bounded = get-IsBounded cache key times.looked_up b;
      } in
      let same : cache'.ttl ≡ cache.ttl = get-ttl cache key times.looked_up in
      let looked : KeepsTimes runtime runtime' = record {
        same_cooldowns = refl;
        same_ttl = ap some same ∙ ap ttl_of (sym there);
      } in
      let kept : IsShort cache'.ttl = rw same short in
      elim (Option-cases (Cache.get cache key times.looked_up).1) [
        | inr (hit, found) ↦ (
          record {
            runtime = runtime';
            metrics = cache_hit name ∷ record_request name req.method (status_or_ok hit.status);
            response = cached_response h hit runtime' (correlation_of h req);
          },
          rw (found, looked_up) refl,
          record {
            sound = sound;
            same_config = refl;
            counted = inl refl;
            no_connections = refl;
            same_times = looked;
          },
        )
        | inl missed ↦
            let (s, runs, served) =
              with_body-Serves runtime' true key sound
                (record { balancer = t.balancer; cache = kept }) in
            (
              note h (cache_miss name ∷ []) s,
              rw (missed, looked_up) (ap (note_all h (cache_miss name ∷ [])) runs),
              note-IsServed h name req.method runtime (cache_miss name ∷ []) s refl refl (record {
                sound = served.sound;
                same_config = served.same_config;
                counted = served.counted;
                no_connections = served.no_connections;
                same_times = KeepsTimes-trans runtime runtime' s.runtime looked served.same_times;
              }),
            )
      ]

  pub with_cache-Serves :
      (runtime : RouteRuntime)
      → IsRuntime runtime
      → IsTimely runtime
      → Serves runtime (with_cache h iter times during send timeout limit name req runtime)
  unfolding with_cache
  with_cache-Serves runtime v t =
      let key = key_of h iter times during send timeout limit name req in
      elim (Bool-cases (uses_cache h iter times during send timeout limit name req runtime)) [
        | inr not_used ↦
            let (s, runs, served) = with_body-Serves runtime false key v t in
            (s, rw (not_used, with_cache) runs, served)
        | inl used ↦ elim (Option-cases (runtime.cache)) [
          | inl no_cache ↦ absurd (ground arith)
          | inr (cache, there) ↦
              let (s, runs, served) =
                looked_up-Serves runtime cache v (rw there at v.bounded) there t
                  (rw there at t.cache) in
              (s, rw (used, with_cache) (rw there runs), served)
        ]
      ]
