-- ===== src/Telemetry/Tests.antt =====
-- The metrics over the registry of Telemetry/Instance.antt, and the tracing of a process.
use rust_api_gateway.Base.{
  ◌≡◌, refl, true, false, Option, none, some, [], Str, str, contains, texts,
}
use rust_api_gateway.Telemetry.{Metrics, register_all, collectors, new, render}
use rust_api_gateway.Telemetry.Instance.{described}
use rust_api_gateway.Telemetry.Tracing.{Process, install, init_tracing}

runs : Unit {0}
unfolding register_all collectors new render install init_tracing texts
runs = tt

abbrev rendered : Option (Metrics described) → Str
rendered none = []
rendered (some m) = render described m

renders : contains (rendered (new described)) (str "gw_requests_total") ≡ true
unfolding runs
renders = refl

abbrev started : Process Str
started = record { tracing = false; subscriber = none }

abbrev foreign : Process Str
foreign = record { tracing = false; subscriber = some (record { filter = none; json = false }) }

no_second_subscriber : init_tracing some none true foreign ≡ none
unfolding runs
no_second_subscriber = refl
