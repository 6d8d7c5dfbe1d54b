-- ===== src/Config/Valid.antt =====
-- What a valid configuration is, apart from the order in which the checks run, and that
-- `validate` accepts those and no others.
use rust_api_gateway.Base.{
  ◌≤◌, ◌≡◌, refl, ◌↔◌, ◌≢◌, ◌⊎◌, inl, inr, true, false, List, [], ◌∷◌, ◌++◌, arith, All, Str, str,
  str_eq_iff, starts_with, starts_with_split, starts_with-append, Bool-cases,
}
use rust_api_gateway.Config.{
  Result, Result-cases, ok, AuthPolicy, api_key, open_access, jwt, UpstreamConfig, RouteConfig,
  GatewayConfig,
}
use rust_api_gateway.Config.Validate.{
  validate_upstreams, validate_route, validate_routes, validate, from_yaml, from_file, is_http_url,
  mem_str, no_keys,
}

-- The text begins with the prefix.
abbrev pub BeginsWith : Str → Str → Type 0
BeginsWith s p = (r : Str) × (s ≡ p ++ r)

pub record ValidUpstream (u : UpstreamConfig) : Type 0 where
  pub scheme : BeginsWith u.url (str "http://") ⊎ BeginsWith u.url (str "https://")
  pub weighted : 1 ≤ u.weight

abbrev pub HasKeys : AuthPolicy → Type 0
HasKeys (api_key keys) = keys ≢ []
HasKeys _ = Unit

pub record ValidRoute (r : RouteConfig) : Type 0 where
  pub served : r.upstreams ≢ []
  pub reachable : All ValidUpstream r.upstreams
  pub rooted : BeginsWith r.matches.path_prefix (str "/")
  pub keyed : HasKeys r.auth

-- No route has one of the names, and no two routes share one.
abbrev pub Fresh : Str → List Str → Type 0
Fresh n [] = Unit
Fresh n (m ∷ ms) = (m ≢ n) × Fresh n ms

abbrev pub UniqueNames : List Str → List RouteConfig → Type 0
UniqueNames names [] = Unit
UniqueNames names (r ∷ rs) = Fresh r.name names × UniqueNames (r.name ∷ names) rs

pub record Valid (cfg : GatewayConfig) : Type 0 where
  pub routed : cfg.routes ≢ []
  pub unique : UniqueNames [] cfg.routes
  pub each : All ValidRoute cfg.routes

starts_with_iff : (s p : Str) → (starts_with s p ≡ true) ↔ BeginsWith s p
starts_with_iff s p = (starts_with_split s p, λ (r, e). rw e (starts_with-append p r))

Fresh-iff : (n : Str) (ms : List Str) → (mem_str n ms ≡ false) ↔ Fresh n ms
Fresh-iff n [] = (λ _. tt, λ _. refl)
Fresh-iff n (m ∷ ms) = ground (arith, str_eq_iff m n, Fresh-iff n ms)

http_iff :
    (url : Str)
    → (is_http_url url ≡ true) ↔ (BeginsWith url (str "http://") ⊎ BeginsWith url (str "https://"))
http_iff url =
    let plain = starts_with_iff url (str "http://") in
    let secure = starts_with_iff url (str "https://") in
    (
      λ h. elim (Bool-cases (starts_with url (str "http://"))) [
        | inl e ↦ inl (plain.0 e)
        | inr e ↦ inr (secure.0 (ground arith))
      ],
      elim [ inl b ↦ ground (arith, plain.1 b) | inr b ↦ ground (arith, secure.1 b) ],
    )

validate_upstreams_iff :
    (name : Str) (us : List UpstreamConfig)
    → (validate_upstreams name us ≡ ok tt) ↔ All ValidUpstream us
unfolding validate_upstreams
validate_upstreams_iff name [] = (λ _. tt, λ _. refl)
validate_upstreams_iff name (u ∷ us) =
    let url = http_iff u.url in
    let rest = validate_upstreams_iff name us in
    (
      λ h. (
        record { scheme = url.0 (ground arith); weighted = ground arith },
        rest.0 (ground arith),
      ),
      λ (v, vs). ground (arith, url.1 v.scheme, v.weighted, rest.1 vs),
    )

keyed_iff : (a : AuthPolicy) → (no_keys a ≡ false) ↔ HasKeys a
keyed_iff open_access = (λ _. tt, λ _. refl)
keyed_iff (api_key []) = (λ h. cc, λ h. absurd (h refl))
keyed_iff (api_key (k ∷ ks)) = (λ _ e. cc, λ _. refl)
keyed_iff (jwt s cs) = (λ _. tt, λ _. refl)

validate_route_iff : (r : RouteConfig) → (validate_route r ≡ ok tt) ↔ ValidRoute r
unfolding validate_route
validate_route_iff r =
    let ups = validate_upstreams_iff r.name r.upstreams in
    let prefix = starts_with_iff r.matches.path_prefix (str "/") in
    let keys = keyed_iff r.auth in
    (
      λ h. record {
        served = ground arith;
        reachable = ups.0 (ground arith);
        rooted = prefix.0 (ground arith);
        keyed = keys.0 (ground arith);
      },
      λ v. ground (arith, v.served, ups.1 v.reachable, prefix.1 v.rooted, keys.1 v.keyed),
    )

validate_routes_iff :
    (names : List Str) (rs : List RouteConfig)
    → (validate_routes names rs ≡ ok tt) ↔ (UniqueNames names rs × All ValidRoute rs)
unfolding validate_routes
validate_routes_iff names [] = (λ _. (tt, tt), λ _. refl)
validate_routes_iff names (r ∷ rs) =
    let fresh = Fresh-iff r.name names in
    let valid = validate_route_iff r in
    let rest = validate_routes_iff (r.name ∷ names) rs in
    (
      λ h.
          let (u, v) = rest.0 (ground arith) in
          ((fresh.0 (ground arith), u), (valid.0 (ground arith), v)),
      λ (u, v). ground (arith, fresh.1 u.0, valid.1 v.0, rest.1 (u.1, v.1)),
    )

-- `validate` accepts a configuration exactly when there is a route, no two routes share a name,
-- each route has an upstream, each upstream's url begins with http:// or https:// and its weight
-- is at least 1, each path prefix begins with a slash, and each list of API keys has a key.
pub validate-ok_iff : (cfg : GatewayConfig) → (validate cfg ≡ ok tt) ↔ Valid cfg
unfolding validate
validate-ok_iff cfg =
    let rest = validate_routes_iff [] cfg.routes in
    (
      λ h.
          let (u, v) = rest.0 (ground arith) in
          record { routed = ground arith; unique = u; each = v },
      λ v. ground (arith, v.routed, rest.1 (v.unique, v.each)),
    )

from_yaml-Valid :
    (from_str : Str → Result GatewayConfig Str) (text : Str) (cfg : GatewayConfig)
    → from_yaml from_str text ≡ ok cfg
    → Valid cfg × (from_str text ≡ ok cfg)
unfolding from_yaml
from_yaml-Valid from_str text cfg h = elim (Result-cases (from_str text)) [
  | inr (e, failed) ↦ absurd (ground arith)
  | inl (c, parsed) ↦ elim (Result-cases (validate c)) [
    | inr (e, refused) ↦ absurd (ground arith)
    | inl (t, accepted) ↦ ((validate-ok_iff cfg).0 (ground arith), ground arith)
  ]
]

-- Whatever the parser and the file system do, a configuration that is loaded is valid, and is
-- what the parser made of the file's text.
pub from_file-Valid :
    (from_str : Str → Result GatewayConfig Str) (read : Str → Result Str Str) (path : Str)
    (cfg : GatewayConfig)
    → from_file from_str read path ≡ ok cfg
    → Valid cfg × ((text : Str) × (read path ≡ ok text) × (from_str text ≡ ok cfg))
unfolding from_file
from_file-Valid from_str read path cfg h = elim (Result-cases (read path)) [
  | inr (e, failed) ↦ absurd (ground arith)
  | inl (text, found) ↦
      let (valid, parsed) = from_yaml-Valid from_str text cfg (ground arith) in
      (valid, (text, found, parsed))
]
