-- ===== src/Router.antt =====
-- The route matcher of crates/core/src/router.rs.
pub mod Paths
pub mod Select
pub mod Tests
use rust_api_gateway.Base.{
  ℕ, ◌≡◌, Bool, true, false, not, ◌&&◌, ◌||◌, Option, none, some, List, [], ◌∷◌, Str, str, str_eq,
  length, get_elem?, starts_with, strip_prefix, trim_end_matches, split_first, eq_ignore_ascii_case,
  is_empty, if◌then◌else◌, ltb, ◌==◌,
}
use rust_api_gateway.Config.{MatchConfig, RouteConfig, GatewayConfig}

-- The part before the first colon.
unfoldable pub strip_port : Str → Str
strip_port host = split_first b':' host

abbrev pub is_slash : Option ℕ → Bool
is_slash none = false
is_slash (some c) = c == b'/'

unfoldable pub path_matches : Str → Str → Bool
path_matches path full =
    if str_eq full (str "/")
    then true
    else let prefix = trim_end_matches b'/' full in
      if str_eq path prefix
      then true
      else starts_with path prefix && is_slash (get_elem? path (length prefix))

abbrev got_host : Option Str → Str
got_host none = []
got_host (some h) = strip_port h

-- The host constraint of a route, against the host of the request.
unfoldable pub host_matches : Option Str → Option Str → Bool
host_matches none host = true
host_matches (some want) host = eq_ignore_ascii_case (got_host host) (strip_port want)

abbrev pub is_some {ℓ} : {A : Type ℓ} → Option A → Bool
is_some none = false
is_some (some a) = true

-- `best.is_some_and(|b| b.matches.host.is_none())`
abbrev best_has_no_host : Option RouteConfig → Bool
best_has_no_host none = false
best_has_no_host (some b) = not (is_some b.matches.host)

abbrev pub len_of : RouteConfig → ℕ
len_of r = length r.matches.path_prefix

-- The variables `best` and `best_len` of the loop.
pub record Best : Type 0 where
  pub best : Option RouteConfig
  pub best_len : ℕ

-- The body of the loop for one route.
unfoldable pub consider : Option Str → Str → Best → RouteConfig → Best
consider host path b route =
    if not (host_matches route.matches.host host)
    then b
    else if path_matches path route.matches.path_prefix
    then (let more_specific =
          ltb b.best_len (len_of route)
          || ((len_of route == b.best_len)
              && (is_some route.matches.host && best_has_no_host b.best)) in
        if not (is_some b.best) || more_specific
        then record { best = some route; best_len = len_of route }
        else b)
    else b

unfoldable pub match_from : Option Str → Str → Best → List RouteConfig → Best
match_from host path b [] = b
match_from host path b (r ∷ rs) = match_from host path (consider host path b r) rs

unfoldable pub match_route : GatewayConfig → Option Str → Str → Option RouteConfig
match_route config host path =
    (match_from host path (record { best = none; best_len = 0 }) config.routes).best

abbrev stripped_or : Option Str → Str → Str
stripped_or none path = path
stripped_or (some rest) path = rest

unfoldable pub forward_path : Str → RouteConfig → Str
forward_path path route =
    if not route.strip_path_prefix || str_eq route.matches.path_prefix (str "/")
    then path
    else let prefix = trim_end_matches b'/' route.matches.path_prefix in
      let stripped = stripped_or (strip_prefix path prefix) path in
      if is_empty stripped then str "/" else stripped
