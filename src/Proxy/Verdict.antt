-- ===== src/Proxy/Verdict.antt =====
-- What a request comes to: the guards of `route_and_proxy` in crates/gateway/src/proxy.rs in their
-- order, and the end that follows them.
use rust_api_gateway.Base.{◌≡◌, none, some, Str, str, All, lookup, from_secs, true, false}
use rust_api_gateway.Config.{err, RouteConfig, RateLimitConfig}
use rust_api_gateway.Headers.{Http}
use rust_api_gateway.Router.Select.{admits, Selected}
use rust_api_gateway.RateLimit.{RateDecision}
use rust_api_gateway.Auth.{authorize}
use rust_api_gateway.Auth.Laws.{Authorized}
use rust_api_gateway.State.{RouteRuntime, GatewayState}
use rust_api_gateway.Proxy.{client_ip, rate_key}
use rust_api_gateway.Proxy.Responses.{Response, Served, error, add_ratelimit_headers}
use rust_api_gateway.Proxy.Handler.{Request, host_of, correlation_of}
use rust_api_gateway.Proxy.Ends.{Ends}
use rust_api_gateway.Proxy.Gateway.{World}
use rust_api_gateway.Proxy.Wellformed.{served_by}

module _ (h : Http) {L : Type 0} (w : World h L) (req : Request h) where
  -- The route of the configuration that is selected, and its runtime.
  pub record Matched (s : GatewayState L) (r : RouteConfig) (rt : RouteRuntime) : Type 0 where
    pub selected : Selected (some (host_of h req)) req.path s.config.routes r
    pub there : lookup r.name s.routes ≡ some rt
    pub own : rt.config ≡ r

  -- What the limiter makes of the request, under the limit of its route.
  abbrev pub decision : GatewayState L → RouteConfig → RateLimitConfig → L × RateDecision
  decision s r rl =
      w.check s.limiter
        (rate_key h rl.scope r.name (client_ip h req.headers req.peer_ip) req.headers) rl.limit
        (from_secs rl.window_secs)

  abbrev pub IsAuthorized : RouteRuntime → Type 0
  IsAuthorized rt = Authorized h w.decode rt.config.auth req.headers

  -- The limit of the route lets the request pass, and leaves a limiter.
  pub data Admitted (s : GatewayState L) (r : RouteConfig) (rt : RouteRuntime) (l : L)
      : Type 0 where
    unlimited : rt.config.rate_limit ≡ none → l ≡ s.limiter → Admitted s r rt l
    within_limit :
        (rl : RateLimitConfig)
        → rt.config.rate_limit ≡ some rl
        → (decision s r rl).1.allowed ≡ true
        → l ≡ (decision s r rl).0
        → Admitted s r rt l

  -- The state before a request, the state after it and the response.
  pub data Verdict (s s' : GatewayState L) (response : Response h) : Type 0 where
    not_found :
        All (λ q. admits (some (host_of h req)) req.path q ≡ false) s.config.routes
        → s' ≡ s
        → response ≡ error h 404 (str "no matching route") (correlation_of h req)
        → Verdict s s' response
    unauthorized :
        (r : RouteConfig) (rt : RouteRuntime) (reason : Str)
        → Matched s r rt
        → ¬ IsAuthorized rt
        → authorize h w.decode rt.config.auth req.headers ≡ err reason
        → s' ≡ s
        → response ≡ error h 401 reason (correlation_of h req)
        → Verdict s s' response
    limited :
        (r : RouteConfig) (rt : RouteRuntime) (rl : RateLimitConfig)
        → Matched s r rt
        → IsAuthorized rt
        → rt.config.rate_limit ≡ some rl
        → (decision s r rl).1.allowed ≡ false
        → s' ≡ record s { limiter = (decision s r rl).0 }
        → (let e = error h 429 (str "rate limit exceeded") (correlation_of h req) in
            let d = (decision s r rl).1 in
            response
            ≡ record e { headers = add_ratelimit_headers h e.headers d.limit 0 d.reset_secs })
        → Verdict s s' response
    served :
        (r : RouteConfig) (rt : RouteRuntime) (l : L) (end : Served h)
        → Matched s r rt
        → IsAuthorized rt
        → Admitted s r rt l
        → Ends h w.iter w.times w.during w.send s.config.server.default_timeout_ms
            s.config.server.max_body_bytes r.name req rt end
        → s' ≡ served_by s r.name end.runtime l
        → response ≡ end.response
        → Verdict s s' response
