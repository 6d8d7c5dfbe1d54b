-- ===== src/Config.antt =====
-- The configuration model of crates/core/src/config.rs and the errors of crates/core/src/error.rs.
-- A `String` is the list of its bytes, a `HashMap` the list of its entries.
pub mod Defaults
pub mod Validate
pub mod Valid
pub mod Tests
use rust_api_gateway.Base.{ℕ, ◌≡◌, refl, ◌⊎◌, inl, inr, Bool, Option, List, Str, HashMap}

-- The ways to read or check a configuration that fail, with their message.
pub data ConfigError : Type 0 where
  io parse invalid : Str → ConfigError

-- `Result<A, E>`.
pub data Result {ℓ κ} (A : Type ℓ) (E : Type κ) : Type (ℓ ⊔ κ) where
  ok : A → Result A E
  err : E → Result A E

pub Result-cases {ℓ κ} :
    {A : Type ℓ} {E : Type κ} (r : Result A E) → ((a : A) × (r ≡ ok a)) ⊎ ((e : E) × (r ≡ err e))
Result-cases (ok a) = inl (a, refl)
Result-cases (err e) = inr (e, refl)

pub data Strategy : Type 0 where
  round_robin least_connections : Strategy

-- `none` of the source is `open_access`; `none` is the option's.
pub data AuthPolicy : Type 0 where
  open_access : AuthPolicy
  api_key : (keys : List Str) → AuthPolicy
  jwt : (secret : Str) (required_claims : HashMap Str) → AuthPolicy

pub data RateScope : Type 0 where
  ip by_key by_route : RateScope

pub record ServerConfig : Type 0 where
  pub bind_addr : Str
  pub admin_bind_addr : Str
  pub max_body_bytes : ℕ
  pub default_timeout_ms : ℕ
  pub redis_url : Option Str

pub record MatchConfig : Type 0 where
  pub host : Option Str
  pub path_prefix : Str

pub record UpstreamConfig : Type 0 where
  pub url : Str
  pub weight : ℕ

pub record RateLimitConfig : Type 0 where
  pub scope : RateScope
  pub limit : ℕ
  pub window_secs : ℕ

pub record CacheConfig : Type 0 where
  pub ttl_secs : ℕ
  pub max_entries : ℕ

pub record CircuitBreakerConfig : Type 0 where
  pub failure_threshold : ℕ
  pub open_secs : ℕ

pub record HealthCheckConfig : Type 0 where
  pub path : Str
  pub interval_secs : ℕ
  pub timeout_ms : ℕ

pub record HeaderTransforms : Type 0 where
  pub add : HashMap Str
  pub remove : List Str

pub record RouteConfig : Type 0 where
  pub name : Str
  pub matches : MatchConfig
  pub upstreams : List UpstreamConfig
  pub strategy : Strategy
  pub strip_path_prefix : Bool
  pub timeout_ms : Option ℕ
  pub retries : ℕ
  pub auth : AuthPolicy
  pub rate_limit : Option RateLimitConfig
  pub cache : Option CacheConfig
  pub circuit_breaker : CircuitBreakerConfig
  pub health_check : Option HealthCheckConfig
  pub request_headers : HeaderTransforms
  pub response_headers : HeaderTransforms

pub record GatewayConfig : Type 0 where
  pub server : ServerConfig
  pub routes : List RouteConfig
