-- ===== src/Proxy/Lifetime.antt =====
-- The requests of a gateway's lifetime, from the configuration it is built from on.
use rust_api_gateway.Base.{
  zero, suc, ℤ, pos, negsuc, Bool, false, ◌++◌, ◌+◌, ◌≡◌, ◌≢◌, refl, ap, ◌∙◌, true, Option, none,
  some, List, [], ◌∷◌, Str, HashMap, All, length, length-append, lookup, arith, map, IsShort, ◌≤◌,
}
use rust_api_gateway.Config.{
  ok, RouteConfig, GatewayConfig, CacheConfig, CircuitBreakerConfig, UpstreamConfig,
}
use rust_api_gateway.Breaker
use rust_api_gateway.Cache
use rust_api_gateway.Balancer.{new_upstream, from_route}
use rust_api_gateway.Proxy.Instants.{cooldowns, CacheBrief, IsTimely, IsEarlyAt}
use rust_api_gateway.Config.Validate.{validate}
use rust_api_gateway.Config.Valid.{ValidRoute, validate-ok_iff}
use rust_api_gateway.Headers.{Http}
use rust_api_gateway.Cache.Capacity.{new-IsBounded}
use rust_api_gateway.Balancer.Order.{from_route-IsBalancer}
use rust_api_gateway.State.{
  RouteRuntime, GatewayState, new_cache, from_config, build_routes, build, choose_limiter, route,
}
use rust_api_gateway.State.Entries.{build_routes-AllRuntimes}
use rust_api_gateway.State.Routes.{route-match_route}
use rust_api_gateway.Proxy.Responses.{Metric, Response}
use rust_api_gateway.Proxy.Handler.{Request}
use rust_api_gateway.Proxy.Gateway.{Gateway, World, handle}
use rust_api_gateway.Proxy.Served.{counts, connections, CacheBounded, IsRuntime}
use rust_api_gateway.Proxy.Wellformed.{IsWellformed, IsBriefState, IsOrderly}
use rust_api_gateway.Proxy.Requests.{handle-IsWellformed}

from_config-IsRuntime : (r : RouteConfig) → r.upstreams ≢ [] → IsRuntime (from_config r)
unfolding from_config
from_config-IsRuntime r h = record {
  usable = from_route-IsBalancer r h;
  bounded = cache_bounded r.cache;
}
  where
    cache_bounded : (c : Option _) → CacheBounded (new_cache c)
    cache_bounded none = tt
    cache_bounded (some c) = new-IsBounded _ c.max_entries

All-IsRuntime :
    (rs : List RouteConfig) → All ValidRoute rs → All (λ r. IsRuntime (from_config r)) rs
All-IsRuntime [] vs = tt
All-IsRuntime (r ∷ rs) (v, vs) = (from_config-IsRuntime r v.served, All-IsRuntime rs vs)

-- A gateway that is built from a valid configuration is well formed.
pub build-IsWellformed :
    {L : Type 0} (connect : Str → Option L) (in_memory : L) (config : GatewayConfig)
    → validate config ≡ ok tt
    → (s : GatewayState L) × (build true connect in_memory config ≡ some s) × IsWellformed s
unfolding build route from_config
build-IsWellformed {L} connect in_memory config e =
    let v = (validate-ok_iff config).0 e in
    let s : GatewayState L = record {
      config = config;
      routes = build_routes [] config.routes;
      limiter = choose_limiter connect in_memory config.server.redis_url;
    } in
    (
      s,
      refl,
      record {
        complete = λ host path r m.
            let (t, built, there) = route-match_route connect in_memory config host path r e m in
            let same : s.routes ≡ t.routes = ap routes_of built in
            (from_config r, ap (lookup r.name) same ∙ there, refl);
        sound =
            build_routes-AllRuntimes IsRuntime config.routes (All-IsRuntime config.routes v.each);
      },
    )
  where
    routes_of : Option (GatewayState L) → HashMap RouteRuntime
    routes_of none = []
    routes_of (some s) = s.routes

-- The breakers of a route stay open, and its cache keeps entries, for 2^62 seconds at most.
pub record IsBriefRoute (r : RouteConfig) : Type 0 where
  pub cooldown : r.circuit_breaker.open_secs ≤ 4611686018427387904
  pub ttl : (c : CacheConfig) → r.cache ≡ some c → c.ttl_secs ≤ 4611686018427387904

new_upstreams-IsBrief :
    (c : CircuitBreakerConfig) (us : List UpstreamConfig)
    → c.open_secs ≤ 4611686018427387904
    → All IsShort (cooldowns (map (new_upstream c) us))
unfolding new_upstream Breaker.new
new_upstreams-IsBrief c [] h = tt
new_upstreams-IsBrief c (u ∷ us) h = (omega (arith, h), new_upstreams-IsBrief c us h)

new_cache-CacheBrief :
    (o : Option CacheConfig)
    → ((c : CacheConfig) → o ≡ some c → c.ttl_secs ≤ 4611686018427387904)
    → CacheBrief (new_cache o)
unfolding Cache.new
new_cache-CacheBrief none h = tt
new_cache-CacheBrief (some c) h = let short = h c refl in omega (arith, short)

from_config-IsTimely : (r : RouteConfig) → IsBriefRoute r → IsTimely (from_config r)
unfolding from_config from_route
from_config-IsTimely r b = record {
  balancer = new_upstreams-IsBrief r.circuit_breaker r.upstreams b.cooldown;
  cache = new_cache-CacheBrief r.cache b.ttl;
}

All-IsTimely :
    (rs : List RouteConfig) → All IsBriefRoute rs → All (λ r. IsTimely (from_config r)) rs
All-IsTimely [] vs = tt
All-IsTimely (r ∷ rs) (v, vs) = (from_config-IsTimely r v, All-IsTimely rs vs)

-- A gateway that is built from such routes adds nothing long to an instant.
pub build-IsBriefState :
    {L : Type 0} (connect : Str → Option L) (in_memory : L) (config : GatewayConfig)
    (s : GatewayState L)
    → build true connect in_memory config ≡ some s
    → All IsBriefRoute config.routes
    → IsBriefState s
unfolding build
build-IsBriefState connect in_memory config s e brief name rt at =
    let same : build_routes [] config.routes ≡ s.routes = ground (arith, e) in
    build_routes-AllRuntimes IsTimely config.routes (All-IsTimely config.routes brief) name rt
      (ap (lookup name) same ∙ at)

abbrev pub succ : ℤ → ℤ
succ (pos n) = pos (suc n)
succ (negsuc zero) = pos 0
succ (negsuc (suc n)) = negsuc n

abbrev pub pred : ℤ → ℤ
pred (pos zero) = negsuc 0
pred (pos (suc n)) = pos n
pred (negsuc n) = negsuc (suc n)

pred-succ : (z : ℤ) → pred (succ z) ≡ z
pred-succ (pos n) = refl
pred-succ (negsuc zero) = refl
pred-succ (negsuc (suc n)) = refl

-- The gauge of the active connections after openings and closings.
abbrev pub gauge_after : ℤ → List Bool → ℤ
gauge_after z [] = z
gauge_after z (true ∷ l) = gauge_after (succ z) l
gauge_after z (false ∷ l) = gauge_after (pred z) l

gauge_after-pair :
    (z : ℤ) (l : List Bool) → gauge_after z (l ++ (true ∷ false ∷ [])) ≡ gauge_after z l
gauge_after-pair z [] = pred-succ z
gauge_after-pair z (true ∷ l) = gauge_after-pair (succ z) l
gauge_after-pair z (false ∷ l) = gauge_after-pair (pred z) l

pub gauge_after-opened :
    (z : ℤ) (l : List Bool) → gauge_after z (l ++ (true ∷ [])) ≡ succ (gauge_after z l)
gauge_after-opened z [] = refl
gauge_after-opened z (true ∷ l) = gauge_after-opened (succ z) l
gauge_after-opened z (false ∷ l) = gauge_after-opened (pred z) l

pub gauge_after-closed :
    (z : ℤ) (l : List Bool) → gauge_after z (l ++ (false ∷ [])) ≡ pred (gauge_after z l)
gauge_after-closed z [] = refl
gauge_after-closed z (true ∷ l) = gauge_after-closed (succ z) l
gauge_after-closed z (false ∷ l) = gauge_after-closed (pred z) l

-- `active_connections`, from zero on.
abbrev pub active : List Metric → ℤ
active metrics = gauge_after (pos 0) (connections metrics)

module _ (h : Http) {L : Type 0} where
  -- The requests one after the other, each with what surrounds it, and their responses.
  unfoldable pub handle_all :
      List (World h L × Request h) → Gateway L → Option (Gateway L × List (Response h))
  handle_all [] g = some (g, [])
  handle_all ((w, req) ∷ l) g = elim (handle h w req g) [
    | none ↦ none
    | some (g', r) ↦ elim (handle_all l g') [ none ↦ none | some (g'', rs) ↦ some (g'', r ∷ rs) ]
  ]

  handle_all-counts :
      (l : List (World h L × Request h)) (g : Gateway L)
      → All (λ p. IsOrderly h p.0) l
      → All (λ p. IsEarlyAt p.0.times) l
      → IsWellformed g.state
      → IsBriefState g.state
      → (g' : Gateway L) × (rs : List (Response h)) × (handle_all l g ≡ some (g', rs))
        × (length rs ≡ length l)
        × (length (counts g'.metrics) ≡ length (counts g.metrics) + length l)
        × (active g'.metrics ≡ active g.metrics)
  unfolding handle_all
  handle_all-counts [] g a times v brief = (g, [], refl, refl, omega arith, refl)
  handle_all-counts ((w, req) ∷ l) g (o, a) (early, times) v brief =
      let (g', r, runs, v', brief', answered, connected) =
        handle-IsWellformed h w o req g early v brief in
      let (g'', rs, more, number, counted, back) = handle_all-counts l g' a times v' brief' in
      (
        g'',
        r ∷ rs,
        rw (runs, handle_all) (rw more refl),
        ap suc number,
        omega (
          arith,
          counted,
          ap length answered.counted,
          length-append (counts g.metrics)
              ((answered.route_name, req.method, answered.status) ∷ []),
        ),
        back
            ∙ ap (gauge_after (pos 0)) connected
            ∙ gauge_after-pair (pos 0) (connections g.metrics),
      )

  -- A gateway that is built from a valid configuration, whose cooldowns and times to live are at most
  -- 2^62 seconds, answers every sequence of requests, whatever the upstreams, the limiter, the decoder and
  -- the interleaving tasks (which keep the upstreams of a balancer and their cooldowns) do, without a
  -- panic, as long as the clock reads less than 2^62 seconds, and counts as many requests as it answers.
  -- After them the gauge of active connections is at zero.
  pub handle_all-build :
      (connect : Str → Option L) (in_memory : L) (config : GatewayConfig)
      (l : List (World h L × Request h))
      → validate config ≡ ok tt
      → All IsBriefRoute config.routes
      → All (λ p. IsOrderly h p.0) l
      → All (λ p. IsEarlyAt p.0.times) l
      → (s : GatewayState L) × (build true connect in_memory config ≡ some s)
        × (g : Gateway L) × (rs : List (Response h)) × (handle_all l
              (record { state = s; metrics = [] })
            ≡ some (g, rs))
        × (length rs ≡ length l)
        × (length (counts g.metrics) ≡ length l)
        × (active g.metrics ≡ pos 0)
  handle_all-build connect in_memory config l e brief a times =
      let (s, built, v) = build-IsWellformed connect in_memory config e in
      let (g, rs, runs, number, counted, back) =
        handle_all-counts l (record { state = s; metrics = [] }) a times v
          (build-IsBriefState connect in_memory config s built brief) in
      (s, built, g, rs, runs, number, omega (arith, counted), back)
