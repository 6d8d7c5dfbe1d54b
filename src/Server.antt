-- ===== src/Server.antt =====
-- The two apps of crates/gateway/src/server.rs. The body limit of tower-http is an argument, and an app
-- of axum is what it answers: listening and connections are for the steps of Main/Lifecycle.antt.
pub mod Routers
pub mod Tests
use rust_api_gateway.Base.{ℕ, Option, some, [], ◌∷◌, Str, str, HashMap}
use rust_api_gateway.Config.{Result, ok, err}
use rust_api_gateway.Headers.{Http}
use rust_api_gateway.Telemetry.{Prometheus, Metrics, render}
use rust_api_gateway.Proxy.{set_header}
use rust_api_gateway.Proxy.Responses.{Response, plain_text, bytes}
use rust_api_gateway.Proxy.Handler.{Request}
use rust_api_gateway.Proxy.Gateway.{Gateway, World, handle}

module _ (h : Http) where
  -- `RequestBodyLimitLayer`: a request it lets through, or its own response.
  abbrev pub BodyLimit : Type 0
  BodyLimit = ℕ → Request h → Result (Request h) (Response h)

  -- The proxy app: whatever the layer lets through falls back to `handle`.
  unfoldable pub proxy_router :
      {L : Type 0} → BodyLimit → World h L → Request h → Gateway L → Option (Gateway L × Response h)
  proxy_router limit w req g = elim (limit g.state.config.server.max_body_bytes req) [
    | ok passed ↦ handle h w passed g
    | err early ↦ some (g, early)
  ]

  -- A text that is answered as it is.
  abbrev text_response : Str → Response h
  text_response s = record { status = 200; headers = plain_text h; body = bytes s }

  module _ (p : Prometheus) where
    unfoldable pub metrics : Metrics p → Response h
    metrics m = record {
      status = 200;
      headers = set_header h (plain_text h) (str "content-type") (str "text/plain; version=0.0.4");
      body = bytes (render p m);
    }

    -- The paths of the admin app, with the answer to a GET.
    unfoldable pub admin_router : Metrics p → HashMap (Response h)
    admin_router m =
        (str "/healthz", text_response (str "ok"))
        ∷ (str "/readyz", text_response (str "ready"))
        ∷ (str "/metrics", metrics m)
        ∷ []
