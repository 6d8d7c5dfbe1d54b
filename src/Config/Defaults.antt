-- ===== src/Config/Defaults.antt =====
-- The default values of crates/core/src/config.rs.
use rust_api_gateway.Base.{◌*◌, [], none, Str, str}
use rust_api_gateway.Base.{ℕ}
use rust_api_gateway.Config.{
  ServerConfig, MatchConfig, CircuitBreakerConfig, HeaderTransforms, Strategy, round_robin,
  AuthPolicy, open_access, RateScope, ip,
}

abbrev pub default_bind : Str
default_bind = str "0.0.0.0:8080"

abbrev pub default_admin_bind : Str
default_admin_bind = str "0.0.0.0:9090"

abbrev pub default_max_body : ℕ
default_max_body = 8 * 1024 * 1024

abbrev pub default_timeout_ms : ℕ
default_timeout_ms = 30000

abbrev pub default_server : ServerConfig
default_server = record {
  bind_addr = default_bind;
  admin_bind_addr = default_admin_bind;
  max_body_bytes = default_max_body;
  default_timeout_ms = default_timeout_ms;
  redis_url = none;
}

abbrev pub default_prefix : Str
default_prefix = str "/"

abbrev pub default_match : MatchConfig
default_match = record { host = none; path_prefix = default_prefix }

abbrev pub default_weight : ℕ
default_weight = 1

abbrev pub default_strategy : Strategy
default_strategy = round_robin

abbrev pub default_auth : AuthPolicy
default_auth = open_access

abbrev pub default_window : ℕ
default_window = 60

abbrev pub default_scope : RateScope
default_scope = ip

abbrev pub default_cache_cap : ℕ
default_cache_cap = 1024

abbrev pub default_cb_threshold : ℕ
default_cb_threshold = 5

abbrev pub default_cb_open_secs : ℕ
default_cb_open_secs = 10

abbrev pub default_circuit_breaker : CircuitBreakerConfig
default_circuit_breaker = record {
  failure_threshold = default_cb_threshold;
  open_secs = default_cb_open_secs;
}

abbrev pub default_hc_interval : ℕ
default_hc_interval = 5

abbrev pub default_hc_timeout : ℕ
default_hc_timeout = 2000

abbrev pub default_transforms : HeaderTransforms
default_transforms = record { add = []; remove = [] }
