-- ===== src/Samples.antt =====
-- Routes and configurations that the tests run on, after those of the source's own tests.
use Prim.Native.String.{String}
use rust_api_gateway.Base.{ℕ, true, false, Option, none, some, List, [], ◌∷◌, Str, str}
use rust_api_gateway.Config.{least_connections, api_key, UpstreamConfig, RouteConfig, GatewayConfig}
use rust_api_gateway.Config.Defaults.{
  default_server, default_circuit_breaker, default_transforms, default_strategy, default_auth,
}

abbrev pub upstream : String → ℕ → UpstreamConfig
upstream url weight = record { url = str url; weight = weight }

abbrev pub plain_route : String → Option Str → String → List UpstreamConfig → RouteConfig
plain_route name host prefix upstreams = record {
  name = str name;
  matches = record { host = host; path_prefix = str prefix };
  upstreams = upstreams;
  strategy = default_strategy;
  strip_path_prefix = false;
  timeout_ms = none;
  retries = 0;
  auth = default_auth;
  rate_limit = none;
  cache = none;
  circuit_breaker = default_circuit_breaker;
  health_check = none;
  request_headers = default_transforms;
  response_headers = default_transforms;
}

abbrev pub root_route : RouteConfig
root_route = plain_route "root" none "/" (upstream "http://a" 1 ∷ [])

abbrev pub api_route : RouteConfig
api_route = plain_route "api" none "/api" (upstream "http://b" 1 ∷ [])

abbrev pub users_route : RouteConfig
users_route = plain_route "users" none "/api/users" (upstream "http://c" 1 ∷ [])

abbrev pub hosted_route : RouteConfig
hosted_route =
    plain_route "hosted" (some (str "admin.example.com")) "/" (upstream "https://d" 1 ∷ [])

abbrev pub sample : GatewayConfig
sample = record {
  server = default_server;
  routes = root_route ∷ api_route ∷ users_route ∷ hosted_route ∷ [];
}

-- The API route with its prefix stripped.
abbrev pub stripping_route : RouteConfig
stripping_route = record api_route { strip_path_prefix = true }

-- Two upstreams with the weights 3 and 1.
abbrev pub weighted_route : RouteConfig
weighted_route = record root_route {
  upstreams = upstream "http://a/" 3 ∷ upstream "http://b" 1 ∷ [];
}

abbrev pub least_route : RouteConfig
least_route = record weighted_route { strategy = least_connections }

abbrev pub keyed_route : RouteConfig
keyed_route = record api_route { auth = api_key [] }
