-- ===== src/Config/Validate.antt =====
-- `GatewayConfig::validate`, `from_yaml` and `from_file` of crates/core/src/config.rs. The YAML
-- parser and the file system are parameters.
use rust_api_gateway.Base.{
  Bool, true, false, not, ◌||◌, List, [], ◌∷◌, ◌++◌, Str, str, str_eq, starts_with, ◌==◌,
}
use rust_api_gateway.Config.{
  ConfigError, io, parse, invalid, Result, ok, err, AuthPolicy, api_key, UpstreamConfig,
  RouteConfig, GatewayConfig,
}

infixl 5 ◌>>=◌ ◌>>◌
abbrev pub ◌>>=◌ {ℓ κ} :
    {A : Type ℓ} {B : Type κ}
    → Result A ConfigError
    → (A → Result B ConfigError)
    → Result B ConfigError
ok a >>= f = f a
err e >>= f = err e

abbrev pub ◌>>◌ {ℓ} :
    {B : Type ℓ} → Result (Unit {0}) ConfigError → Result B ConfigError → Result B ConfigError
m >> k = m >>= λ _. k

-- An early return with a message, where the test holds.
abbrev pub reject_if : Bool → Str → Result (Unit {0}) ConfigError
reject_if true message = err (invalid message)
reject_if false message = ok tt

abbrev pub no_elements {ℓ} : {A : Type ℓ} → List A → Bool
no_elements [] = true
no_elements (x ∷ xs) = false

abbrev pub mem_str : Str → List Str → Bool
mem_str n [] = false
mem_str n (m ∷ ms) = str_eq m n || mem_str n ms

abbrev pub is_http_url : Str → Bool
is_http_url url = starts_with url (str "http://") || starts_with url (str "https://")

abbrev pub no_keys : AuthPolicy → Bool
no_keys (api_key keys) = no_elements keys
no_keys _ = false

abbrev quoted : Str → Str → Str
quoted name what = str "route '" ++ (name ++ (str "'" ++ what))

-- The body of the loop over a route's upstreams.
unfoldable pub validate_upstreams : Str → List UpstreamConfig → Result (Unit {0}) ConfigError
validate_upstreams name [] = ok tt
validate_upstreams name (u ∷ us) = do
  reject_if (not (is_http_url u.url))
      (quoted name (str " upstream url must start with http:// or https://: " ++ u.url))
  reject_if (u.weight == 0) (quoted name (str " upstream weight must be >= 1"))
  validate_upstreams name us

-- The checks of one route, its name apart.
unfoldable pub validate_route : RouteConfig → Result (Unit {0}) ConfigError
validate_route r = do
  reject_if (no_elements r.upstreams) (quoted r.name (str " has no upstreams"))
  validate_upstreams r.name r.upstreams
  reject_if (not (starts_with r.matches.path_prefix (str "/")))
      (quoted r.name (str " path_prefix must start with '/'"))
  reject_if (no_keys r.auth) (quoted r.name (str " api_key auth has no keys"))

-- The loop over the routes; `names` holds the names that were inserted.
unfoldable pub validate_routes : List Str → List RouteConfig → Result (Unit {0}) ConfigError
validate_routes names [] = ok tt
validate_routes names (r ∷ rs) = do
  reject_if (mem_str r.name names) (str "duplicate route name: " ++ r.name)
  validate_route r
  validate_routes (r.name ∷ names) rs

unfoldable pub validate : GatewayConfig → Result (Unit {0}) ConfigError
validate cfg = do
  reject_if (no_elements cfg.routes) (str "no routes configured")
  validate_routes [] cfg.routes

abbrev pub map_err {ℓ} : {A : Type ℓ} → (Str → ConfigError) → Result A Str → Result A ConfigError
map_err f (ok a) = ok a
map_err f (err e) = err (f e)

-- `from_yaml`, over the parser, which fails with a message.
unfoldable pub from_yaml : (Str → Result GatewayConfig Str) → Str → Result GatewayConfig ConfigError
from_yaml from_str yaml = do cfg ← map_err parse (from_str yaml); validate cfg; ok cfg

-- `from_file`, over the file system too.
unfoldable pub from_file :
    (Str → Result GatewayConfig Str)
    → (Str → Result Str Str)
    → Str
    → Result GatewayConfig ConfigError
from_file from_str read_to_string path = do
  text ← map_err (λ e. io (path ++ (str ": " ++ e))) (read_to_string path)
  from_yaml from_str text
