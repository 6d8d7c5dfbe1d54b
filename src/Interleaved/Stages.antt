-- ===== src/Interleaved/Stages.antt =====
-- The stages before the retry loop fit.
use rust_api_gateway.Base.{
  ◌<◌, ◌≡◌, refl, sym, ap, ◌∙◌, inl, inr, Bool, true, false, Bool-cases, some, Option-cases, [],
  ◌∷◌, Str, str, length, arith, from_secs,
}
use rust_api_gateway.Config.{Result-cases}
use rust_api_gateway.Headers.{Http}
use rust_api_gateway.Cache
use rust_api_gateway.Cache.Capacity.{get-IsBounded}
use rust_api_gateway.Auth.{authorize}
use rust_api_gateway.State.{RouteRuntime, GatewayState}
use rust_api_gateway.Proxy.{max_attempts, client_ip, rate_key}
use rust_api_gateway.Proxy.Responses.{
  auth_rejection, cache_hit, cache_miss, Served, record_request, cached_response, status_or_ok,
}
use rust_api_gateway.Proxy.Handler.{Request, correlation_of, note, refuse}
use rust_api_gateway.Proxy.Served.{CacheBounded, connections}
use rust_api_gateway.Proxy.Instants.{ttl_of}
use rust_api_gateway.Proxy.Stages.{get-ttl}
use rust_api_gateway.Proxy.Gateway.{World, reject}
use rust_api_gateway.Interleaved.{
  Point, at_auth, at_limit, at_cache, at_body, closing, Moved, refused, respond, go_to, cache_used,
  cache_key, auth_stage, limit_stage, cache_stage, body_stage,
}
use rust_api_gateway.Interleaved.Local.{guard, cost, AllBelow, IsOn, Fits, Keeps-balancer}

module _ (h : Http) {L : Type 0} (w : World h L) (req : Request h) (s : GatewayState L) (name : Str)
    (rt : RouteRuntime) (bounded : CacheBounded rt.cache) where
  -- The task alone moves.
  pub go_to-Fits :
      (p q : Point h)
      → guard h p ≡ guard h q
      → IsOn h name q
      → AllBelow h (guard h q) (length rt.balancer.upstreams)
      → cost h q < cost h p
      → Fits h name p rt (go_to h w req s name rt q)
  go_to-Fits p q same on below nearer = record {
    keeps = Keeps-balancer h p q rt rt refl refl bounded same refl;
    on = on;
    below = below;
    no_connections = refl;
    nearer = nearer;
  }

  pub respond-Fits :
      (p : Point h) (sv : Served h)
      → guard h p ≡ []
      → sv.runtime ≡ rt
      → connections sv.metrics ≡ []
      → 1 < cost h p
      → Fits h name p rt (respond h w req s name rt sv)
  respond-Fits p sv free same quiet nearer = record {
    keeps =
        Keeps-balancer h p (closing sv.response) rt sv.runtime (ap (λ r. r.config) same)
          (ap (λ r. r.balancer) same) (rw same bounded) free (ap (λ r. ttl_of r.cache) same);
    on = inr (sv.response, refl);
    below = tt;
    no_connections = quiet;
    nearer = nearer;
  }

  pub limiter-Fits :
      (p : Point h) (m : Moved h L) (l : L)
      → Fits h name p rt m
      → Fits h name p rt (record m { limiter = l })
  limiter-Fits p m l f = record {
    keeps = f.keeps;
    on = f.on;
    below = f.below;
    no_connections = f.no_connections;
    nearer = f.nearer;
  }

  pub auth_stage-Fits : Fits h name (at_auth name) rt (auth_stage h w req s name rt)
  unfolding auth_stage refuse record_request
  auth_stage-Fits = elim (Result-cases (authorize h w.decode rt.config.auth req.headers)) [
    | inl (u, granted) ↦
        rw (granted, auth_stage)
          (go_to-Fits (at_auth name) (at_limit name) refl (inl refl) tt (omega arith))
    | inr (reason, denied) ↦
        rw (denied, auth_stage)
          (respond-Fits (at_auth name)
            (note h (auth_rejection name ∷ []) (refused h w req s name rt 401 reason)) refl refl
            refl (omega arith))
  ]

  pub limit_stage-Fits : Fits h name (at_limit name) rt (limit_stage h w req s name rt)
  unfolding limit_stage reject refuse record_request
  limit_stage-Fits = elim (Option-cases (rt.config.rate_limit)) [
    | inl unlimited ↦
        let q = at_cache name in
        let same : limit_stage h w req s name rt ≡ go_to h w req s name rt q =
          ground (arith, unlimited) in
        rw same (go_to-Fits (at_limit name) q refl (inl refl) tt (omega arith))
    | inr (rl, limit) ↦
        let key = rate_key h rl.scope name (client_ip h req.headers req.peer_ip) req.headers in
        let checked = w.check s.limiter key rl.limit (from_secs rl.window_secs) in
        elim (Bool-cases (checked.1.allowed)) [
          | inl allowed ↦
              let m = go_to h w req s name rt (at_cache name) in
              let same : limit_stage h w req s name rt ≡ record m { limiter = checked.0 } =
                ground (arith, limit, allowed) in
              rw same (
                limiter-Fits (at_limit name) m checked.0
                  (go_to-Fits (at_limit name) (at_cache name) refl (inl refl) tt (omega arith)))
          | inr over ↦
              let sv = reject h w req s name rt checked.1 in
              let m = respond h w req s name rt sv in
              let same : limit_stage h w req s name rt ≡ record m { limiter = checked.0 } =
                ground (arith, limit, over) in
              rw same (
                limiter-Fits (at_limit name) m checked.0
                  (respond-Fits (at_limit name) sv refl refl refl (omega arith)))
        ]
  ]

  -- A hit drops nothing but time from the cache, and a miss drops an entry that has expired.
  pub cache_stage-Fits : Fits h name (at_cache name) rt (cache_stage h w req s name rt)
  unfolding cache_stage record_request
  cache_stage-Fits = elim (Bool-cases (cache_used h w req s name rt)) [
    | inr unused ↦
        rw (unused, cache_stage)
          (go_to-Fits (at_cache name) (at_body name false) refl (inl refl) tt (omega arith))
    | inl used ↦ elim (Option-cases (rt.cache)) [
      | inl no_cache ↦
          let q = at_body name true in
          let same : cache_stage h w req s name rt ≡ go_to h w req s name rt q =
            ground (arith, used, no_cache) in
          rw same (go_to-Fits (at_cache name) q refl (inl refl) tt (omega arith))
      | inr (cache, there) ↦
          let key = cache_key h w req s name rt in
          let got = Cache.get cache key w.times.looked_up in
          let rt' : RouteRuntime = record rt { cache = some got.0 } in
          let kept : CacheBounded rt'.cache =
            get-IsBounded cache key w.times.looked_up (rw there at bounded) in
          let same_ttl : ttl_of rt'.cache ≡ ttl_of rt.cache =
            ap some (get-ttl cache key w.times.looked_up) ∙ ap ttl_of (sym there) in
          elim (Option-cases (got.1)) [
            | inr (entry, found) ↦
                let sv : Served h = record {
                  runtime = rt';
                  metrics =
                      cache_hit name ∷ record_request name req.method (status_or_ok entry.status);
                  response = cached_response h entry rt' (correlation_of h req);
                } in
                let same : cache_stage h w req s name rt ≡ respond h w req s name rt sv =
                  ground (arith, used, there, found) in
                rw same (record {
                  keeps =
                      Keeps-balancer h (at_cache name) (closing sv.response) rt rt' refl refl kept
                        refl same_ttl;
                  on = inr (sv.response, refl);
                  below = tt;
                  no_connections = refl;
                  nearer = omega arith;
                })
            | inl missed ↦
                let m = record (go_to h w req s name rt (at_body name true)) {
                  runtime = rt';
                  metrics = cache_miss name ∷ [];
                } in
                let same : cache_stage h w req s name rt ≡ m =
                  ground (arith, used, there, missed) in
                rw same (record {
                  keeps =
                      Keeps-balancer h (at_cache name) (at_body name true) rt rt' refl refl kept
                        refl same_ttl;
                  on = inl refl;
                  below = tt;
                  no_connections = refl;
                  nearer = omega arith;
                })
          ]
    ]
  ]

  pub body_stage-Fits :
      (enabled : Bool)
      → Fits h name (at_body name enabled) rt (body_stage h w req s name rt enabled)
  unfolding body_stage refuse record_request max_attempts
  body_stage-Fits enabled = elim (Option-cases (req.body s.config.server.max_body_bytes)) [
    | inl large ↦
        rw (large, body_stage)
          (respond-Fits (at_body name enabled)
            (refused h w req s name rt 413 (str "request body too large")) refl refl refl
            (omega arith))
    | inr (body, read) ↦
        rw (read, body_stage) (go_to-Fits (at_body name enabled) _ refl (inl refl) tt (omega arith))
  ]
