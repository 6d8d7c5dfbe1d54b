-- ===== src/Proxy/Ends.antt =====
-- How a request that is admitted to its route ends: in the cache, at the limit on its body, or with
-- the outcome of the retry loop.
use rust_api_gateway.Base.{
  ℕ, ◌≡◌, refl, sym, ap, ◌∙◌, inl, inr, Bool, true, false, Bool-cases, Option, none, some,
  Option-cases, List, [], ◌∷◌, map, Str, str, HashMap, lookup, arith,
}
use rust_api_gateway.Headers.{Http}
use rust_api_gateway.Balancer.{Balancer}
use rust_api_gateway.Cache
use rust_api_gateway.Cache.{CachedResponse, ResponseCache}
use rust_api_gateway.Cache.Contents.{live_at}
use rust_api_gateway.State.{RouteRuntime}
use rust_api_gateway.Proxy.Attempts.{Exchange, Ran, retry_loop}
use rust_api_gateway.Proxy.Responses.{
  Metric, in_loop, cache_hit, cache_miss, Answer, Served, error, cached_response, record_request,
  status_or_ok,
}
use rust_api_gateway.Proxy.Handler.{
  Request, Forwarded, Times, correlation_of, note, note_all, refuse, end_with, conclude, forwarded,
  with_body, uses_cache, key_of, looked_up, with_cache,
}

get-live :
    (c : ResponseCache) (k : Str) (now : ℕ) (e : CachedResponse)
    → live_at now (lookup k c.entries) ≡ some e
    → Cache.get c k now ≡ (c, some e)
unfolding Cache.get
get-live c k now e live = ground arith

get-missed :
    (c : ResponseCache) (k : Str) (now : ℕ)
    → live_at now (lookup k c.entries) ≡ none
    → (Cache.get c k now).1 ≡ none
unfolding Cache.get
get-missed c k now gone = ground arith

note_all-some :
    (h : Http) (ms : List Metric) (o : Option (Served h)) (s : Served h)
    → note_all h ms o ≡ some s
    → (t : Served h) × (o ≡ some t) × (s.runtime ≡ t.runtime) × (s.response ≡ t.response)
note_all-some h ms none s e = cc
note_all-some h ms (some t) s e =
    let same : note h ms t ≡ s = ground arith in
    (t, refl, ap (λ x. x.runtime) (sym same), ap (λ x. x.response) (sym same))

module _ (h : Http) (iter : HashMap CachedResponse → HashMap CachedResponse) (times : Times)
    (during : ℕ → Balancer → Balancer) (send : ℕ → Forwarded h → Exchange (Answer h))
    (timeout limit : ℕ) (name : Str) (req : Request h) where
  abbrev pub key : Str
  key = key_of h iter times during send timeout limit name req

  -- The cache has no answer: it is not used, or holds no live entry under the request's key. What
  -- is left of the runtime, and whether the answer may be stored.
  pub data Missed (runtime : RouteRuntime) (after : RouteRuntime) (enabled : Bool) : Type 0 where
    not_used :
        uses_cache h iter times during send timeout limit name req runtime ≡ false
        → after ≡ runtime
        → enabled ≡ false
        → Missed runtime after enabled
    missed :
        (cache : ResponseCache)
        → uses_cache h iter times during send timeout limit name req runtime ≡ true
        → runtime.cache ≡ some cache
        → live_at times.looked_up (lookup key cache.entries) ≡ none
        → after ≡ record runtime { cache = some (Cache.get cache key times.looked_up).0 }
        → enabled ≡ true
        → Missed runtime after enabled

  -- The ends from the buffering of the body on.
  pub data BodyEnds (after : RouteRuntime) (enabled : Bool) (s : Served h) : Type 0 where
    too_large :
        req.body limit ≡ none
        → s.runtime ≡ after
        → s.response ≡ error h 413 (str "request body too large") (correlation_of h req)
        → BodyEnds after enabled s
    sent :
        (body : Str) (ran : Ran (Answer h)) (end : Served h)
        → req.body limit ≡ some body
        → retry_loop
            (λ n url.
              send n (forwarded h iter times during send timeout limit name req after body url))
            during
            times.picks
            times.failed_at
            req.method
            after.config.retries
            after.balancer
          ≡ some ran
        → end_with h iter times during send timeout limit name req
            (record after { balancer = ran.balancer })
            enabled
            key
            ran.outcome
          ≡ some end
        → s.runtime ≡ end.runtime
        → s.response ≡ end.response
        → BodyEnds after enabled s

  -- The ends from the cache on.
  pub data Ends (runtime : RouteRuntime) (s : Served h) : Type 0 where
    hit :
        (cache : ResponseCache) (entry : CachedResponse)
        → uses_cache h iter times during send timeout limit name req runtime ≡ true
        → runtime.cache ≡ some cache
        → live_at times.looked_up (lookup key cache.entries) ≡ some entry
        → s.runtime ≡ runtime
        → s.response ≡ cached_response h entry runtime (correlation_of h req)
        → Ends runtime s
    passed :
        (after : RouteRuntime) (enabled : Bool)
        → Missed runtime after enabled
        → BodyEnds after enabled s
        → Ends runtime s

  with_body-BodyEnds :
      (after : RouteRuntime) (enabled : Bool) (s : Served h)
      → with_body h iter times during send timeout limit name req after enabled key ≡ some s
      → BodyEnds after enabled s
  unfolding with_body refuse conclude
  with_body-BodyEnds after enabled s e = elim (Option-cases (req.body limit)) [
    | inl no_body ↦
        let message = str "request body too large" in
        let same : refuse h iter times during send timeout limit name req after 413 message ≡ s =
          ground (arith, e, no_body) in
        too_large no_body (ap (λ x. x.runtime) (sym same)) (ap (λ x. x.response) (sym same))
    | inr (body, read) ↦
        let loop =
          retry_loop
            (λ n url.
              send n (forwarded h iter times during send timeout limit name req after body url))
            during times.picks times.failed_at req.method after.config.retries after.balancer in
        elim (Option-cases loop) [
          | inl panics ↦ absurd (ground (arith, e, read, panics))
          | inr (ran, runs) ↦
              let (end, ends, same_runtime, same_response) =
                note_all-some h (map (in_loop name) ran.notes)
                  (end_with h iter times during send timeout limit name req
                    (record after { balancer = ran.balancer }) enabled key ran.outcome)
                  s (ground (arith, e, read, runs)) in
              sent body ran end read runs ends same_runtime same_response
        ]
  ]

  BodyEnds-same :
      (after : RouteRuntime) (enabled : Bool) (t s : Served h)
      → s.runtime ≡ t.runtime
      → s.response ≡ t.response
      → BodyEnds after enabled t
      → BodyEnds after enabled s
  BodyEnds-same after enabled t s e f (too_large b p q) = too_large b (e ∙ p) (f ∙ q)
  BodyEnds-same after enabled t s e f (sent body ran end read runs ends p q) =
      sent body ran end read runs ends (e ∙ p) (f ∙ q)

  looked_up-Ends :
      (runtime : RouteRuntime) (cache : ResponseCache) (s : Served h)
      → uses_cache h iter times during send timeout limit name req runtime ≡ true
      → runtime.cache ≡ some cache
      → looked_up h iter times during send timeout limit name req runtime cache ≡ some s
      → Ends runtime s
  unfolding looked_up
  looked_up-Ends runtime cache s used there e =
      elim (Option-cases (live_at times.looked_up (lookup key cache.entries))) [
        | inr (entry, live) ↦
            let got = get-live cache key times.looked_up entry live in
            let kept : record runtime { cache = some cache } ≡ runtime = ground arith in
            let answered : Served h = record {
              runtime = record runtime { cache = some cache };
              metrics = cache_hit name ∷ record_request name req.method (status_or_ok entry.status);
              response =
                  cached_response h entry (record runtime { cache = some cache })
                    (correlation_of h req);
            } in
            let same : answered ≡ s = ground (arith, e, got) in
            hit cache entry used there live (ap (λ x. x.runtime) (sym same) ∙ kept) (
              ap (λ x. x.response) (sym same)
              ∙ ap (λ r. cached_response h entry r (correlation_of h req)) kept)
        | inl gone ↦
            let after = record runtime { cache = some (Cache.get cache key times.looked_up).0 } in
            let got = get-missed cache key times.looked_up gone in
            let (t, runs, same_runtime, same_response) =
              note_all-some h (cache_miss name ∷ [])
                (with_body h iter times during send timeout limit name req after true key) s
                (ground (arith, e, got)) in
            passed after true (missed cache used there gone refl refl) (
              BodyEnds-same after true t s same_runtime same_response
                (with_body-BodyEnds after true t runs))
      ]

  pub with_cache-Ends :
      (runtime : RouteRuntime) (s : Served h)
      → with_cache h iter times during send timeout limit name req runtime ≡ some s
      → Ends runtime s
  unfolding with_cache
  with_cache-Ends runtime s e =
      elim (Bool-cases (uses_cache h iter times during send timeout limit name req runtime)) [
        | inr unused ↦
            passed runtime false (not_used unused refl refl)
              (with_body-BodyEnds runtime false s (ground (arith, e, unused)))
        | inl used ↦ elim (Option-cases (runtime.cache)) [
          | inl no_cache ↦ absurd (ground arith)
          | inr (cache, there) ↦
              looked_up-Ends runtime cache s used there (ground (arith, e, used, there))
        ]
      ]
