-- ===== src/Proxy/Kept/Handle.antt =====
-- What a request that returns leaves of the gateway, whatever the clock of `route_and_proxy` in
-- crates/gateway/src/proxy.rs shows.
use rust_api_gateway.Base.{
  ℕ, ◌≡◌, sym, ap, ◌∙◌, inl, inr, Bool, some, Option-cases, [], ◌∷◌, ◌++◌, Str, HashMap, arith,
}
use rust_api_gateway.Headers.{Http}
use rust_api_gateway.Balancer.{Balancer}
use rust_api_gateway.Cache
use rust_api_gateway.Cache.{CachedResponse, Iterates}
use rust_api_gateway.Cache.Capacity.{get-IsBounded}
use rust_api_gateway.State.{RouteRuntime, GatewayState}
use rust_api_gateway.Proxy.Attempts.{
  Exchange, Outcome, finishes, no_healthy_upstream, upstream_unavailable, all_attempts_failed,
}
use rust_api_gateway.Proxy.Instants.{finish_response-finished_response}
use rust_api_gateway.Proxy.Trail.{SameShape, SameShape-IsBalancer}
use rust_api_gateway.Proxy.Responses.{Answer, Served, Response, connection_opened}
use rust_api_gateway.Proxy.Handler.{
  Request, Forwarded, Times, correlation_of, end_with, refuse, forwarded, key_of,
}
use rust_api_gateway.Proxy.Gateway.{Gateway, World, route_and_proxy, closed, handle}
use rust_api_gateway.Proxy.Served.{IsRuntime, finished_response-IsServed}
use rust_api_gateway.Proxy.Wellformed.{IsWellformed, IsOrderly, served_by-IsWellformed}
use rust_api_gateway.Proxy.Ends.{
  Missed, not_used, missed, BodyEnds, too_large, sent, Ends, hit, passed,
}
use rust_api_gateway.Proxy.Verdict.{decision, Verdict, not_found, unauthorized, limited, served}
use rust_api_gateway.Proxy.Policy.{route_and_proxy-Verdict}
use rust_api_gateway.Proxy.Kept.{retry_loop-kept}

module _ (h : Http) (iter : HashMap CachedResponse → HashMap CachedResponse) (order : Iterates iter)
    (times : Times) (during : ℕ → Balancer → Balancer)
    (quiet : (n : ℕ) (b : Balancer) → SameShape b (during n b))
    (send : ℕ → Forwarded h → Exchange (Answer h)) (timeout limit : ℕ) (name : Str)
    (req : Request h) where
  -- A runtime that is sound, with the configuration of another.
  abbrev IsLeft : RouteRuntime → RouteRuntime → Type 0
  IsLeft before after = IsRuntime after × (after.config ≡ before.config)

  end_with-IsLeft :
      (rt : RouteRuntime) (enabled : Bool) (key : Str) (o : Outcome (Answer h)) (s : Served h)
      → IsRuntime rt
      → end_with h iter times during send timeout limit name req rt enabled key o ≡ some s
      → IsLeft rt s.runtime
  unfolding end_with refuse
  end_with-IsLeft rt enabled key (finishes status answer) s v e =
      let same =
        finish_response-finished_response h iter times.stored times.expiry_from rt name req.method
          status answer enabled key (correlation_of h req) s e in
      let served =
        finished_response-IsServed h iter order times.stored times.expiry_from rt name req.method
          status answer enabled key (correlation_of h req) v in
      (rw same served.sound, ap (λ x. x.runtime.config) same ∙ served.same_config)
  end_with-IsLeft rt enabled key no_healthy_upstream s v e =
      let same : rt ≡ s.runtime = ground (arith, e) in (rw same at v, ap (λ x. x.config) (sym same))
  end_with-IsLeft rt enabled key upstream_unavailable s v e =
      let same : rt ≡ s.runtime = ground (arith, e) in (rw same at v, ap (λ x. x.config) (sym same))
  end_with-IsLeft rt enabled key all_attempts_failed s v e =
      let same : rt ≡ s.runtime = ground (arith, e) in (rw same at v, ap (λ x. x.config) (sym same))

  Missed-IsLeft :
      (rt after : RouteRuntime) (enabled : Bool)
      → Missed h iter times during send timeout limit name req rt after enabled
      → IsRuntime rt
      → IsLeft rt after
  Missed-IsLeft rt after enabled (not_used u same f) v = (rw same v, ap (λ x. x.config) same)
  Missed-IsLeft rt after enabled (missed cache u there gone same f) v =
      let left : IsRuntime (record rt {
        cache =
            some
              (Cache.get cache (key_of h iter times during send timeout limit name req)
                times.looked_up).0;
      }) =
        record { usable = v.usable; bounded = get-IsBounded cache _ _ (rw there at v.bounded) } in
      (rw same left, ap (λ x. x.config) same)

  BodyEnds-IsLeft :
      (after : RouteRuntime) (enabled : Bool) (s : Served h)
      → BodyEnds h iter times during send timeout limit name req after enabled s
      → IsRuntime after
      → IsLeft after s.runtime
  BodyEnds-IsLeft after enabled s (too_large no_body state same) v =
      (rw state v, ap (λ x. x.config) state)
  BodyEnds-IsLeft after enabled s (sent body ran end read runs ends state same) v =
      let shape =
        retry_loop-kept
          (λ n url.
            send n (forwarded h iter times during send timeout limit name req after body url))
          during times.picks times.failed_at req.method after.config.retries after.balancer ran
          quiet v.usable runs in
      let sound : IsRuntime (record after { balancer = ran.balancer }) = record {
        usable = SameShape-IsBalancer after.balancer ran.balancer shape v.usable;
        bounded = v.bounded;
      } in
      let (left, own) = end_with-IsLeft _ enabled _ ran.outcome end sound ends in
      (rw state left, ap (λ x. x.config) state ∙ own)

  Ends-IsLeft :
      (rt : RouteRuntime) (s : Served h)
      → Ends h iter times during send timeout limit name req rt s
      → IsRuntime rt
      → IsLeft rt s.runtime
  Ends-IsLeft rt s (hit cache entry used there live state same) v =
      (rw state v, ap (λ x. x.config) state)
  Ends-IsLeft rt s (passed after enabled m b) v =
      let (sound, own) = Missed-IsLeft rt after enabled m v in
      let (left, kept) = BodyEnds-IsLeft after enabled s b sound in (left, kept ∙ own)

module _ (h : Http) {L : Type 0} (w : World h L) (o : IsOrderly h w) (req : Request h) where
  Verdict-IsWellformed :
      (s s' : GatewayState L) (r : Response h)
      → Verdict h w req s s' r
      → IsWellformed s
      → IsWellformed s'
  Verdict-IsWellformed s s' r (not_found refused state same) v = rw state v
  Verdict-IsWellformed s s' r (unauthorized route rt reason m closed denied state same) v =
      rw state v
  Verdict-IsWellformed s s' r (limited route rt rl m a limit over state same) v =
      let left : IsWellformed (record s { limiter = (decision h w req s route rl).0 }) = record {
        complete = v.complete;
        sound = v.sound;
      } in
      rw state left
  Verdict-IsWellformed s s' r (served route rt l end m a pass ends state same) v =
      let (left, own) =
        Ends-IsLeft h w.iter o.order w.times w.during o.quiet w.send _ _ route.name req rt end ends
          (v.sound route.name rt m.there) in
      rw state (served_by-IsWellformed s route.name rt end.runtime l v m.there left own)

  -- A request that returns leaves a well-formed gateway well formed.
  pub handle-kept :
      (g g' : Gateway L) (r : Response h)
      → IsWellformed g.state
      → handle h w req g ≡ some (g', r)
      → IsWellformed g'.state
  unfolding handle
  handle-kept g g' r v e =
      let opened : Gateway L = record g { metrics = g.metrics ++ (connection_opened ∷ []) } in
      elim (Option-cases (route_and_proxy h w req opened)) [
        | inl panics ↦ absurd (ground (arith, e, panics))
        | inr ((after, response), runs) ↦
            let verdict = route_and_proxy-Verdict h w req opened after response v runs in
            let left = Verdict-IsWellformed g.state after.state response verdict v in
            let same : after.state ≡ g'.state = ground (arith, e, runs) in rw same at left
      ]
