-- ===== src/State.antt =====
-- The state of crates/gateway/src/state.rs that the handlers share, over the limiters that it may
-- hold. What building the HTTP client and connecting to Redis come to are arguments.
pub mod Routes
pub mod Entries
pub mod Tests
use rust_api_gateway.Base.{
  Bool, true, false, Option, none, some, List, [], ◌∷◌, Str, HashMap, lookup, insert, from_secs,
  if◌then◌else◌,
}
use rust_api_gateway.Config.{CacheConfig, RouteConfig, GatewayConfig}
use rust_api_gateway.Balancer.{Balancer, from_route}
use rust_api_gateway.Cache
use rust_api_gateway.Cache.{ResponseCache}

pub record RouteRuntime : Type 0 where
  pub config : RouteConfig
  pub balancer : Balancer
  pub cache : Option ResponseCache

abbrev pub new_cache : Option CacheConfig → Option ResponseCache
new_cache none = none
new_cache (some c) = some (Cache.new (from_secs c.ttl_secs) c.max_entries)

unfoldable pub from_config : RouteConfig → RouteRuntime
from_config route = record {
  config = route;
  balancer = from_route route;
  cache = new_cache route.cache;
}

-- The loop that fills the map of routes.
unfoldable pub build_routes : HashMap RouteRuntime → List RouteConfig → HashMap RouteRuntime
build_routes m [] = m
build_routes m (r ∷ rs) = build_routes (insert r.name (from_config r) m) rs

pub record GatewayState (L : Type 0) : Type 0 where
  pub config : GatewayConfig
  pub routes : HashMap RouteRuntime
  pub limiter : L

module _ {L : Type 0} where
  -- The limiter in Redis where a url is configured and the connection succeeds, else one in memory.
  unfoldable pub choose_limiter : (connect : Str → Option L) (in_memory : L) → Option Str → L
  choose_limiter connect in_memory none = in_memory
  choose_limiter connect in_memory (some url) = elim (connect url) [ none ↦ in_memory | some l ↦ l ]

  unfoldable pub build :
      (client_builds : Bool) (connect : Str → Option L) (in_memory : L)
      → GatewayConfig
      → Option (GatewayState L)
  build client_builds connect in_memory config =
      if client_builds
      then some (record {
        config = config;
        routes = build_routes [] config.routes;
        limiter = choose_limiter connect in_memory config.server.redis_url;
      })
      else none

  unfoldable pub route : GatewayState L → Str → Option RouteRuntime
  route s name = lookup name s.routes
