-- ===== src/Proxy/Policy.antt =====
-- The order of the guards of a request: routing, authentication, rate limit, cache, body, upstreams.
use rust_api_gateway.Base.{
  ◌≡◌, refl, sym, ap, ◌∙◌, inl, inr, Bool-cases, Option, none, some, Option-cases, [], ◌∷◌, ◌++◌,
  Str, insert-lookup, arith,
}
use rust_api_gateway.Config.{Result-cases, RouteConfig}
use rust_api_gateway.Headers.{Http}
use rust_api_gateway.Router.{match_route}
use rust_api_gateway.Router.Select.{match_route-Selected, match_route-none_iff}
use rust_api_gateway.Auth.{authorize}
use rust_api_gateway.Auth.Laws.{authorize_iff}
use rust_api_gateway.State.{RouteRuntime, GatewayState, route}
use rust_api_gateway.Proxy.Responses.{
  connection_opened, connection_closed, Response, Served, auth_rejection,
}
use rust_api_gateway.Proxy.Instants.{IsEarlyAt}
use rust_api_gateway.Proxy.Handler.{Request, host_of, note, refuse}
use rust_api_gateway.Proxy.Ends.{Ends, with_cache-Ends}
use rust_api_gateway.Proxy.Gateway.{
  Gateway, World, serve, reject, with_limit, with_auth, commit, route_and_proxy, closed, handle,
}
use rust_api_gateway.Proxy.Wellformed.{IsWellformed, IsBriefState, IsOrderly, served_by}
use rust_api_gateway.Proxy.Requests.{route_and_proxy-Handled}
use rust_api_gateway.Proxy.Verdict.{
  Matched, decision, IsAuthorized, unlimited, within_limit, Verdict, not_found, unauthorized,
  limited, served,
}

module _ (h : Http) {L : Type 0} (w : World h L) (req : Request h) where
  served_by-same :
      (s : GatewayState L) (r : RouteConfig) (rt : RouteRuntime) (l : L)
      → Matched h w req s r rt
      → served_by s r.name rt l ≡ record s { limiter = l }
  served_by-same s r rt l m =
      ap (λ routes. record s { routes = routes; limiter = l })
        (insert-lookup r.name rt s.routes m.there)

  serve-Ends :
      (s : GatewayState L) (r : RouteConfig) (rt : RouteRuntime) (end : Served h)
      → serve h w req s r.name rt ≡ some end
      → Ends h w.iter w.times w.during w.send s.config.server.default_timeout_ms
          s.config.server.max_body_bytes r.name req rt end
  unfolding serve
  serve-Ends s r rt end e =
      with_cache-Ends h w.iter w.times w.during w.send s.config.server.default_timeout_ms
        s.config.server.max_body_bytes r.name req rt end e

  with_limit-Verdict :
      (s : GatewayState L) (r : RouteConfig) (rt : RouteRuntime) (end : Served h)
      → Matched h w req s r rt
      → IsAuthorized h w req rt
      → (with_limit h w req rt.config.rate_limit s r.name rt).1 ≡ some end
      → Verdict h w req s
          (served_by s r.name end.runtime (with_limit h w req rt.config.rate_limit s r.name rt).0)
          end.response
  unfolding with_limit reject refuse
  with_limit-Verdict s r rt end m a e = elim (Option-cases (rt.config.rate_limit)) [
    | inl no_limit ↦
        let same : (with_limit h w req rt.config.rate_limit s r.name rt).0 ≡ s.limiter =
          ground (arith, no_limit) in
        served r rt (with_limit h w req rt.config.rate_limit s r.name rt).0 end m a
          (unlimited no_limit same) (serve-Ends s r rt end (ground (arith, e, no_limit))) refl refl
    | inr (rl, limit) ↦
        let left : (with_limit h w req rt.config.rate_limit s r.name rt).0
            ≡ (decision h w req s r rl).0 =
          ground (arith, limit) in
        elim (Bool-cases ((decision h w req s r rl).1.allowed)) [
          | inl allowed ↦
              served r rt (with_limit h w req rt.config.rate_limit s r.name rt).0 end m a
                (within_limit rl limit allowed left)
                (serve-Ends s r rt end (ground (arith, e, limit, allowed))) refl refl
          | inr over ↦
              let same : reject h w req s r.name rt (decision h w req s r rl).1 ≡ end =
                ground (arith, e, limit, over) in
              limited r rt rl m a limit over
                (ap
                    (λ t.
                      served_by s r.name t.runtime
                        (with_limit h w req rt.config.rate_limit s r.name rt).0)
                    (sym same)
                  ∙ served_by-same s r rt (with_limit h w req rt.config.rate_limit s r.name rt).0 m
                  ∙ ap (λ l. record s { limiter = l }) left)
                (ap (λ t. t.response) (sym same))
        ]
  ]

  with_auth-Verdict :
      (s : GatewayState L) (r : RouteConfig) (rt : RouteRuntime) (end : Served h)
      → Matched h w req s r rt
      → (with_auth h w req s r.name rt).1 ≡ some end
      → Verdict h w req s
          (served_by s r.name end.runtime (with_auth h w req s r.name rt).0)
          end.response
  unfolding with_auth refuse
  with_auth-Verdict s r rt end m e =
      elim (Result-cases (authorize h w.decode rt.config.auth req.headers)) [
        | inl (u, granted) ↦
            let a = (authorize_iff h w.decode rt.config.auth req.headers).0 granted in
            let stage = with_limit h w req rt.config.rate_limit s r.name rt in
            let passes : with_auth h w req s r.name rt ≡ stage = rw (granted, with_auth) refl in
            let v = with_limit-Verdict s r rt end m a (ap (λ x. x.1) (sym passes) ∙ e) in
            rw passes v
        | inr (reason, denied) ↦
            let refused =
              refuse h w.iter w.times w.during w.send s.config.server.default_timeout_ms
                s.config.server.max_body_bytes r.name req rt 401 reason in
            let stage : L × Option (Served h) =
              (s.limiter, some (note h (auth_rejection r.name ∷ []) refused)) in
            let stops : with_auth h w req s r.name rt ≡ stage = rw (denied, with_auth) refl in
            let same : note h (auth_rejection r.name ∷ []) refused ≡ end =
              ground (arith, e, stops) in
            let closed_door : ¬ IsAuthorized h w req rt = λ a.
              absurd (
                ground
                  (arith, denied, (authorize_iff h w.decode rt.config.auth req.headers).1 a)) in
            unauthorized r rt reason m closed_door denied
              (ap (λ x. served_by s r.name end.runtime x.0) stops
                ∙ ap (λ t. served_by s r.name t.runtime s.limiter) (sym same)
                ∙ served_by-same s r rt s.limiter m)
              (ap (λ t. t.response) (sym same))
      ]

  commit-some :
      (g g' : Gateway L) (name : Str) (stage : L × Option (Served h)) (response : Response h)
      → commit h w req g name stage ≡ some (g', response)
      → (end : Served h) × (stage.1 ≡ some end)
        × (g'.state ≡ served_by g.state name end.runtime stage.0)
        × (response ≡ end.response)
  commit-some g g' name (l, none) response e = absurd (ground arith)
  commit-some g g' name (l, some end) response e = (end, refl, ground arith, ground arith)

  pub route_and_proxy-Verdict :
      (g g' : Gateway L) (response : Response h)
      → IsWellformed g.state
      → route_and_proxy h w req g ≡ some (g', response)
      → Verdict h w req g.state g'.state response
  unfolding route_and_proxy route
  route_and_proxy-Verdict g g' response v e =
      elim (Option-cases (match_route g.state.config (some (host_of h req)) req.path)) [
        | inl unmatched ↦
            not_found
              ((match_route-none_iff g.state.config (some (host_of h req)) req.path).0 unmatched)
              (ground (arith, e, unmatched)) (ground (arith, e, unmatched))
        | inr (r, matched) ↦
            let (rt, there, own) = v.complete (some (host_of h req)) req.path r matched in
            let (end, runs, state, same) =
              commit-some g g' r.name (with_auth h w req g.state r.name rt) response
                (ground (arith, e, matched, there)) in
            let m : Matched h w req g.state r rt = record {
              selected =
                  match_route-Selected g.state.config (some (host_of h req)) req.path r matched;
              there = there;
              own = own;
            } in
            rw state (rw same (with_auth-Verdict g.state r rt end m runs))
      ]

  -- On a well-formed gateway, with other tasks that keep the upstreams of a balancer and their cooldowns,
  -- where no instant overflows (the clock reads less than 2^62 seconds when a failure is reported or a
  -- response is stored, and the cooldowns and times to live of the gateway are at most that), a request
  -- is handled without a panic and gets one of four verdicts: 404 when no route admits it, 401 with the
  -- reason when the policy of the selected route does not authorize it, 429 with the limit's headers when
  -- the limiter does not let it pass, or what the cache, the limit on its body or the retry loop makes of
  -- it. The first two leave the state as it was, the third changes only the limiter, and the fourth only
  -- the limiter and the runtime of that route.
  pub handle-Verdict :
      (g : Gateway L)
      → IsOrderly h w
      → IsEarlyAt w.times
      → IsWellformed g.state
      → IsBriefState g.state
      → (g' : Gateway L) × (response : Response h) × (handle h w req g ≡ some (g', response))
        × Verdict h w req g.state g'.state response
  unfolding handle
  handle-Verdict g o early v brief =
      let opened : Gateway L = record g { metrics = g.metrics ++ (connection_opened ∷ []) } in
      let (g', r, runs, _, _, _, _) = route_and_proxy-Handled h w o req opened early v brief in
      (
        record g' { metrics = g'.metrics ++ (connection_closed ∷ []) },
        r,
        ap (closed h w req) runs,
        route_and_proxy-Verdict opened g' r v runs,
      )
