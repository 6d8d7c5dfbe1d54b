-- ===== src/Main.antt =====
-- The start of the binary in crates/gateway/src/main.rs, up to where its tasks run: the arguments and
-- variables, the configuration, the addresses, the metrics and the state. What the process meets
-- outside is an environment; a panic is a failure of its own.
pub mod Start
pub mod Lifecycle
pub mod Measure
pub mod Shutdown
pub mod Sound
pub mod Invariant
pub mod Tests
use rust_api_gateway.Base.{
  Bool, true, false, Option, none, some, List, [], ◌∷◌, Str, str, str_eq, get_elem?,
}
use rust_api_gateway.Config.{Result, ok, err, ConfigError, GatewayConfig}
use rust_api_gateway.Config.Validate.{from_file}
use rust_api_gateway.Headers.{or_else}
use rust_api_gateway.Telemetry.{Prometheus, Metrics, new}
use rust_api_gateway.State.{GatewayState, build}
use rust_api_gateway.Proxy.{unwrap_or}

-- The arguments, the variables, the files, the text of an address, and what the libraries set up.
pub record Environment (L : Type 0) : Type 1 where
  pub args : List Str
  pub gateway_config : Option Str
  pub log_json : Option Str
  pub from_str : Str → Result GatewayConfig Str
  pub read_to_string : Str → Result Str Str
  pub SocketAddr : Type 0
  pub parse_addr : Str → Option SocketAddr
  pub client_builds : Bool
  pub connect : Str → Option L
  pub in_memory : L

-- The errors that `main` returns with their context, and a panic.
pub data Failure : Type 0 where
  loading_config : (path : Str) (e : ConfigError) → Failure
  bind_addr admin_bind_addr client panicked : Failure

infixl 5 ◌>>=◌
abbrev pub ◌>>=◌ {ℓ κ} :
    {A : Type ℓ} {B : Type κ} → Result A Failure → (A → Result B Failure) → Result B Failure
ok a >>= f = f a
err e >>= f = err e

-- `.context(...)?`
abbrev pub context {ℓ κ} : {A : Type ℓ} {E : Type κ} → (E → Failure) → Result A E → Result A Failure
context f (ok a) = ok a
context f (err e) = err (f e)

abbrev pub or_fail {ℓ} : {A : Type ℓ} → Failure → Option A → Result A Failure
or_fail f none = err f
or_fail f (some a) = ok a

module _ {L : Type 0} (env : Environment L) where
  abbrev pub json_logs : Bool
  json_logs = elim (env.log_json) [ none ↦ false | some v ↦ str_eq v (str "true") ]

  abbrev pub config_path : Str
  config_path =
      unwrap_or (or_else (get_elem? env.args 1) env.gateway_config) (str "config/gateway.yaml")

  module _ (p : Prometheus) where
    -- What is there when the tasks start.
    pub record Started : Type 0 where
      pub state : GatewayState L
      pub metrics : Metrics p
      pub proxy_addr : env.SocketAddr
      pub admin_addr : env.SocketAddr

    unfoldable pub start : Result Started Failure
    start = do
      config ←
          context (loading_config config_path)
            (from_file env.from_str env.read_to_string config_path)
      proxy_addr ← or_fail bind_addr (env.parse_addr config.server.bind_addr)
      admin_addr ← or_fail admin_bind_addr (env.parse_addr config.server.admin_bind_addr)
      metrics ← or_fail panicked (new p)
      state ← or_fail client (build env.client_builds env.connect env.in_memory config)
      ok (record {
        state = state;
        metrics = metrics;
        proxy_addr = proxy_addr;
        admin_addr = admin_addr;
      })
