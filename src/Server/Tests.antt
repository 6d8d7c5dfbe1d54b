-- ===== src/Server/Tests.antt =====
-- The admin app, and the metrics of the handler, over the registry of Telemetry/Instance.antt.
use rust_api_gateway.Base.{
  ◌≡◌, refl, true, Option, none, some, [], Str, str, lookup, contains, maps, texts,
}
use rust_api_gateway.Headers.Instance.{listed}
use rust_api_gateway.Telemetry.{Metrics, new, collectors, register_all, render}
use rust_api_gateway.Telemetry.Instance.{described, described-PrometheusLaws}
use rust_api_gateway.Telemetry.Registration.{registered_descs}
use rust_api_gateway.Proxy.{set_header}
use rust_api_gateway.Proxy.Responses.{Metric, bytes, stream, Body}
use rust_api_gateway.Proxy.Instruments.{Fits, use_of, new-Fits}
use rust_api_gateway.Server.{metrics, admin_router}

runs : Unit {0}
unfolding new collectors register_all render set_header metrics admin_router maps texts
runs = tt

abbrev body_at : Str → Option (Metrics described) → Option Body
body_at path none = none
body_at path (some m) = elim (lookup path (admin_router listed described m)) [
  | none ↦ none
  | some r ↦ some r.body
]

is_healthy : body_at (str "/healthz") (new described) ≡ some (bytes (str "ok"))
unfolding runs
is_healthy = refl

abbrev text_of_body : Option Body → Str
text_of_body none = []
text_of_body (some (bytes s)) = s
text_of_body (some (stream s)) = []

shows_requests :
    contains (text_of_body (body_at (str "/metrics") (new described))) (str "gw_requests_total")
    ≡ true
unfolding runs
shows_requests = refl

new-Fits_example :
    (m : Metrics described) × (new described ≡ some m)
    × (m.registry ≡ registered_descs)
    × ((x : Metric) → Fits described (use_of described m x))
new-Fits_example = new-Fits described described-PrometheusLaws
