-- ===== src/State/Tests.antt =====
-- A state that is built from the sample configuration.
use rust_api_gateway.Base.{◌≡◌, refl, Option, none, some, Str, str, maps, texts}
use rust_api_gateway.Config.Validate.{validate, validate_routes, validate_route, validate_upstreams}
use rust_api_gateway.Router.{
  match_route, consider, match_from, path_matches, host_matches, strip_port,
}
use rust_api_gateway.State.{build_routes, choose_limiter, build, route}

runs : Unit {0}
unfolding validate validate_routes validate_route validate_upstreams match_route match_from consider
    path_matches host_matches strip_port build_routes choose_limiter build route maps texts
runs = tt

-- A limiter is a name here.
abbrev connected : Str → Option Str
connected url = some (str "redis")

abbrev refused : Str → Option Str
refused url = none

limiter_in_redis : choose_limiter connected (str "memory") (some (str "redis://r")) ≡ str "redis"
unfolding runs
limiter_in_redis = refl

falls_back_to_memory : choose_limiter refused (str "memory") (some (str "redis://r")) ≡ str "memory"
unfolding runs
falls_back_to_memory = refl
