-- ===== src/Main/Tests.antt =====
-- The binary started with the sample configuration, and run to its end.
use rust_api_gateway.Base.{
  ◌≡◌, ◌≢◌, refl, Bool, true, Option, none, some, [], ◌∷◌, Str, str, str_eq, texts, maps,
  if◌then◌else◌,
}
use rust_api_gateway.Config.{Result, ok, err, io}
use rust_api_gateway.Config.Validate.{
  validate, validate_routes, validate_route, validate_upstreams, from_yaml, from_file,
}
use rust_api_gateway.Headers.Instance.{listed}
use rust_api_gateway.Telemetry.{
  Metrics, new, collectors, register_all, requests_desc, upstream_latency_desc,
  gateway_latency_desc, active_connections_desc, rate_limit_rejections_desc, auth_rejections_desc,
  upstream_errors_desc, cache_hits_desc, cache_misses_desc, circuit_state_desc,
}
use rust_api_gateway.Telemetry.Registration.{registered_descs}
use rust_api_gateway.Telemetry.Instance.{described, described-PrometheusLaws}
use rust_api_gateway.State.{GatewayState, build, build_routes, choose_limiter, from_config}
use rust_api_gateway.Health.{spawn, spawn_route, spawn_upstreams}
use rust_api_gateway.Proxy.Runs.{Windows, no_connect}
use rust_api_gateway.Server.{BodyLimit}
use rust_api_gateway.Main.{Environment, loading_config, Started, start, config_path}
use rust_api_gateway.Main.Start.{Ending, start-Ending}
use rust_api_gateway.Main.Lifecycle.{
  serving, draining, ended, at_admin, at_health, returned, System, launch, Serving, Advance,
  signal_received, token_cancelled, proxy_bound, admin_bound, proxy_drains, admin_drains,
  proxy_closed, proxy_accepts, serves, proxy_shut, admin_shut, health_returns, proxy_awaited,
  admin_awaited, health_awaited, advances, Steps, here, and_then,
}
use rust_api_gateway.Main.Sound.{IsSound}
use rust_api_gateway.Main.Invariant.{Steps-start}
use rust_api_gateway.Samples.{sample}

runs : Unit {0}
unfolding validate validate_routes validate_route validate_upstreams from_yaml from_file new
    collectors register_all build build_routes choose_limiter from_config spawn spawn_route
    spawn_upstreams start launch texts maps
runs = tt

abbrev read_config : Str → Result Str Str
read_config path = if str_eq path (str "my.yaml") then ok (str "yaml") else err (str "not found")

abbrev parse_any : Str → Option Str
parse_any s = some s

abbrev env : Environment Windows
env = record {
  args = str "gw-gateway" ∷ str "my.yaml" ∷ [];
  gateway_config = some (str "other.yaml");
  log_json = none;
  from_str = λ s. ok sample;
  read_to_string = read_config;
  SocketAddr = Str;
  parse_addr = parse_any;
  client_builds = true;
  connect = no_connect;
  in_memory = [];
}

argument_before_variable : config_path env ≡ str "my.yaml"
argument_before_variable = refl

abbrev no_file : Environment Windows
no_file = record env { args = [] }

start_without_file :
    start no_file described
    ≡ err (loading_config (str "other.yaml") (io (str "other.yaml: not found")))
unfolding runs
start_without_file = refl

start-Ending_example : Ending env described described-PrometheusLaws (start env described)
start-Ending_example = start-Ending env described described-PrometheusLaws

abbrev state : GatewayState Windows
state = record { config = sample; routes = build_routes [] sample.routes; limiter = [] }

abbrev no_limit : BodyLimit listed
no_limit = λ n req. ok req

-- A signal arrives while both servers serve; there are no health checks.
abbrev launched : System Windows
launched = launch state

abbrev serving_both : System Windows
serving_both = record launched { proxy = serving; proxy_open = 1; admin = serving }

abbrev shutting_down : System Windows
shutting_down = record serving_both { signalled = true; cancelled = true }

abbrev shut_down : System Windows
shut_down = record shutting_down { proxy = ended true; proxy_open = 0; admin = ended true }

abbrev finished : System Windows
finished = record shut_down { health_returned = true; main = returned true }

abbrev Run : System Windows → System Windows → Type 0
Run = Steps listed no_limit

abbrev on :
    (s t u : System Windows)
    → ((fine : Bool) → t.main ≢ returned fine)
    → Run s t
    → Advance listed no_limit t u
    → Run s u
on s t u live steps a = and_then t u steps (advances live a)

abbrev bound_both : System Windows
bound_both = record launched { proxy = serving; admin = serving }

abbrev accepts :
    (s t u : System Windows)
    → ((fine : Bool) → t.main ≢ returned fine)
    → Run s t
    → Serving listed no_limit t u
    → Run s u
accepts s t u live steps a = and_then t u steps (serves live a)

serves_both : Run launched serving_both
unfolding runs
serves_both =
    accepts launched bound_both serving_both (λ b e. cc)
      (on launched (record launched { proxy = serving }) bound_both (λ b e. cc)
        (on launched launched (record launched { proxy = serving }) (λ b e. cc) here
          (proxy_bound true refl))
        (admin_bound true refl))
      (proxy_accepts refl)

shuts_down : Run launched shutting_down
unfolding runs
shuts_down =
    on launched (record serving_both { signalled = true }) shutting_down (λ b e. cc)
      (on launched serving_both (record serving_both { signalled = true }) (λ b e. cc) serves_both
        (signal_received refl))
      (token_cancelled refl refl)

abbrev draining_both : System Windows
draining_both = record shutting_down { proxy = draining; admin = draining }

drains_both : Run launched draining_both
unfolding runs
drains_both =
    on launched (record shutting_down { proxy = draining }) draining_both (λ b e. cc)
      (on launched shutting_down (record shutting_down { proxy = draining }) (λ b e. cc) shuts_down
        (proxy_drains refl refl))
      (admin_drains refl refl)

abbrev closed_all : System Windows
closed_all = record draining_both { proxy_open = 0 }

servers_end : Run launched shut_down
unfolding runs
servers_end =
    on launched (record closed_all { proxy = ended true }) shut_down (λ b e. cc)
      (on launched closed_all (record closed_all { proxy = ended true }) (λ b e. cc)
        (on launched draining_both closed_all (λ b e. cc) drains_both (proxy_closed 0 refl))
        (proxy_shut refl refl))
      (admin_shut refl refl)

abbrev awaiting : System Windows
awaiting = record shut_down { health_returned = true; main = at_health }

waits_for_checks : Run launched awaiting
unfolding runs
waits_for_checks =
    let checked = record shut_down { health_returned = true } in
    on launched (record checked { main = at_admin }) awaiting (λ b e. cc)
      (on launched checked (record checked { main = at_admin }) (λ b e. cc)
        (on launched shut_down checked (λ b e. cc) servers_end (health_returns refl refl tt))
        (proxy_awaited refl refl))
      (admin_awaited true refl refl)

finishes : Run launched finished
unfolding runs
finishes = on launched awaiting finished (λ b e. cc) waits_for_checks (health_awaited refl refl)

abbrev metrics : Metrics described
metrics = record {
  registry = registered_descs;
  requests = requests_desc;
  upstream_latency = upstream_latency_desc;
  gateway_latency = gateway_latency_desc;
  active_connections = active_connections_desc;
  rate_limit_rejections = rate_limit_rejections_desc;
  auth_rejections = auth_rejections_desc;
  upstream_errors = upstream_errors_desc;
  cache_hits = cache_hits_desc;
  cache_misses = cache_misses_desc;
  circuit_state = circuit_state_desc;
}

abbrev started : Started env described
started = record {
  state = state;
  metrics = metrics;
  proxy_addr = str "0.0.0.0:8080";
  admin_addr = str "0.0.0.0:9090";
}

starts : start env described ≡ ok started
unfolding runs
starts = refl

Steps-start_example : IsSound finished
Steps-start_example =
    Steps-start listed no_limit env described described-PrometheusLaws started finished starts
      finishes
