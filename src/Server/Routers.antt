-- ===== src/Server/Routers.antt =====
-- What the proxy app leaves of the gateway.
use rust_api_gateway.Base.{◌≡◌, inl, inr, some, arith}
use rust_api_gateway.Config.{Result-cases}
use rust_api_gateway.Headers.{Http}
use rust_api_gateway.Proxy.Responses.{Response}
use rust_api_gateway.Proxy.Handler.{Request}
use rust_api_gateway.Proxy.Gateway.{Gateway, World}
use rust_api_gateway.Proxy.Wellformed.{IsWellformed, IsOrderly}
use rust_api_gateway.Proxy.Kept.Handle.{handle-kept}
use rust_api_gateway.Server.{BodyLimit, proxy_router}

module _ (h : Http) {L : Type 0} (limit : BodyLimit h) where
  -- A request that the proxy app answers leaves a well-formed gateway well formed.
  pub proxy_router-IsWellformed :
      (w : World h L) (req : Request h) (g g' : Gateway L) (r : Response h)
      → IsOrderly h w
      → IsWellformed g.state
      → proxy_router h limit w req g ≡ some (g', r)
      → IsWellformed g'.state
  unfolding proxy_router
  proxy_router-IsWellformed w req g g' r o v e =
      elim (Result-cases (limit g.state.config.server.max_body_bytes req)) [
        | inl (passed, fits) ↦ handle-kept h w o passed g g' r v (ground (arith, e, fits))
        | inr (early, large) ↦ let same : g ≡ g' = ground (arith, e, large) in rw same at v
      ]
