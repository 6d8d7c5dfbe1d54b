-- ===== src/Proxy/Correlated.antt =====
-- Every response of the handler carries the correlation id of its request.
use rust_api_gateway.Base.{ap, arith, ℕ, ◌≡◌, ◌∙◌, true, some, Bool, Str, str, HashMap}
use rust_api_gateway.Headers.{Http, HttpLaws, is_visible}
use rust_api_gateway.Balancer.{Balancer}
use rust_api_gateway.Cache.{CachedResponse}
use rust_api_gateway.Transform.{get_str}
use rust_api_gateway.State.{RouteRuntime, GatewayState}
use rust_api_gateway.Proxy.Attempts.{
  Exchange, Outcome, finishes, no_healthy_upstream, upstream_unavailable, all_attempts_failed,
}
use rust_api_gateway.Proxy.Responses.{error, Response, Answer, Served, correlation_header}
use rust_api_gateway.Proxy.Instants.{IsEarlyAt, finish_response-finished_response}
use rust_api_gateway.Proxy.Handler.{Request, Forwarded, Times, correlation_of, end_with, refuse}
use rust_api_gateway.Proxy.Ends.{Ends, hit, passed, too_large, sent}
use rust_api_gateway.Proxy.Gateway.{Gateway, World, handle}
use rust_api_gateway.Proxy.Wellformed.{IsWellformed, IsBriefState, IsOrderly}
use rust_api_gateway.Proxy.Verdict.{Verdict, not_found, unauthorized, limited, served}
use rust_api_gateway.Proxy.Policy.{handle-Verdict}
use rust_api_gateway.Proxy.Correlation.{
  IsCorrelated, error-IsCorrelated, add_ratelimit_headers-kept, cached_response-IsCorrelated,
  finished_response-IsCorrelated,
}

module _ (h : Http) (laws : HttpLaws h) (req : Request h)
    (fresh : is_visible req.new_id ≡ true) where
  abbrev Correlated : Response h → Type 0
  Correlated = IsCorrelated h laws req fresh

  Correlated-same : (r r' : Response h) → r ≡ r' → Correlated r' → Correlated r
  Correlated-same r r' e c = rw e c

  module _ (iter : HashMap CachedResponse → HashMap CachedResponse) (times : Times)
      (during : ℕ → Balancer → Balancer) (send : ℕ → Forwarded h → Exchange (Answer h))
      (timeout limit : ℕ) (name : Str) where
    end_with-IsCorrelated :
        (rt : RouteRuntime) (enabled : Bool) (key : Str) (o : Outcome (Answer h)) (s : Served h)
        → end_with h iter times during send timeout limit name req rt enabled key o ≡ some s
        → Correlated s.response
    unfolding end_with refuse
    end_with-IsCorrelated rt enabled key (finishes status answer) s e =
        Correlated-same s.response _
          (ap (λ t. t.response)
            (finish_response-finished_response h iter times.stored times.expiry_from rt name
              req.method status answer enabled key (correlation_of h req) s e))
          (finished_response-IsCorrelated h laws req fresh iter times.stored times.expiry_from rt
            name req.method status answer enabled key)
    end_with-IsCorrelated rt enabled key no_healthy_upstream s e =
        Correlated-same s.response (error h 503 (str "no healthy upstream") (correlation_of h req))
          (ground (arith, e)) (error-IsCorrelated h laws req fresh 503 (str "no healthy upstream"))
    end_with-IsCorrelated rt enabled key upstream_unavailable s e =
        Correlated-same s.response (error h 502 (str "upstream unavailable") (correlation_of h req))
          (ground (arith, e)) (error-IsCorrelated h laws req fresh 502 (str "upstream unavailable"))
    end_with-IsCorrelated rt enabled key all_attempts_failed s e =
        Correlated-same s.response
          (error h 502 (str "all upstream attempts failed") (correlation_of h req))
          (ground (arith, e))
          (error-IsCorrelated h laws req fresh 502 (str "all upstream attempts failed"))

    Ends-IsCorrelated :
        (rt : RouteRuntime) (s : Served h)
        → Ends h iter times during send timeout limit name req rt s
        → Correlated s.response
    Ends-IsCorrelated rt s (hit cache entry used there live state same) =
        Correlated-same s.response _ same (cached_response-IsCorrelated h laws req fresh entry rt)
    Ends-IsCorrelated rt s (passed after enabled m (too_large no_body state same)) =
        Correlated-same s.response _ same
          (error-IsCorrelated h laws req fresh 413 (str "request body too large"))
    Ends-IsCorrelated rt s (passed after enabled m (sent body ran end read runs ends state same)) =
        Correlated-same s.response _ same (end_with-IsCorrelated _ enabled _ ran.outcome end ends)

  module _ {L : Type 0} (w : World h L) where
    Verdict-IsCorrelated :
        (s s' : GatewayState L) (r : Response h) → Verdict h w req s s' r → Correlated r
    Verdict-IsCorrelated s s' r (not_found refused state same) =
        Correlated-same r _ same (error-IsCorrelated h laws req fresh 404 (str "no matching route"))
    Verdict-IsCorrelated s s' r (unauthorized route rt reason m closed denied state same) =
        Correlated-same r _ same (error-IsCorrelated h laws req fresh 401 reason)
    Verdict-IsCorrelated s s' r (limited route rt rl m a limit over state same) =
        Correlated-same r _ same (
          add_ratelimit_headers-kept h laws req fresh _ _ 0 _
          ∙ error-IsCorrelated h laws req fresh 429 (str "rate limit exceeded"))
    Verdict-IsCorrelated s s' r (served route rt l end m a pass ends state same) =
        Correlated-same r end.response same
          (Ends-IsCorrelated w.iter w.times w.during w.send _ _ route.name rt end ends)

  -- On a well-formed gateway, with other tasks that keep the upstreams of a balancer and their cooldowns
  -- and where no instant overflows, every response of the handler carries the request's x-request-id, or
  -- the id that was made for it where the request has none that is text, given that an id that is made is
  -- visible text.
  pub handle-IsCorrelated :
      {L : Type 0} (w : World h L) (g : Gateway L)
      → IsOrderly h w
      → IsEarlyAt w.times
      → IsWellformed g.state
      → IsBriefState g.state
      → (g' : Gateway L) × (r : Response h) × (handle h w req g ≡ some (g', r))
        × (get_str h r.headers correlation_header ≡ some (correlation_of h req))
  handle-IsCorrelated w g o early v brief =
      let (g', r, runs, verdict) = handle-Verdict h w req g o early v brief in
      (g', r, runs, Verdict-IsCorrelated w g.state g'.state r verdict)
