-- ===== src/Health/Tests.antt =====
-- A round of health checks on two upstreams of which one answers.
use rust_api_gateway.Base.{
  ℕ, ◌≡◌, refl, true, Option, none, some, [], Str, str, starts_with, get_elem?, texts,
  if◌then◌else◌,
}
use rust_api_gateway.Breaker
use rust_api_gateway.Config.{HealthCheckConfig, RouteConfig}
use rust_api_gateway.Balancer.{
  Balancer, Upstream, eligible, set_healthy, new_upstream, expand, from_route, try_at, rr_rounds,
  first_eligible, pick_round_robin, least_from, pick_least_conn, acquire_guard, pick,
}
use rust_api_gateway.Balancer.Order.{from_route-IsBalancer}
use rust_api_gateway.State.{RouteRuntime, from_config}
use rust_api_gateway.Health.{
  is_success, probe_url, timeout_ms, tick, round, spawn_route, probe_route,
}
use rust_api_gateway.Health.Spawned.{probe_route-spawn_route}
use rust_api_gateway.Health.Rounds.{pick-round}
use rust_api_gateway.Samples.{weighted_route}

runs : Unit {0}
unfolding Breaker.new Breaker.allow_at eligible set_healthy new_upstream expand from_route try_at
    rr_rounds first_eligible pick_round_robin least_from pick_least_conn acquire_guard pick
    from_config tick round texts
runs = tt

abbrev every_ten : HealthCheckConfig
every_ten = record { path = str "/healthz"; interval_secs = 10; timeout_ms = 50 }

abbrev checked_route : RouteConfig
checked_route = record weighted_route { health_check = some every_ten }

-- The first upstream is down.
abbrev reply : Str → ℕ → Option ℕ
reply url timeout = if starts_with url (str "http://a") then none else some 204

abbrev after_round : RouteRuntime
after_round = round reply (from_config checked_route)

abbrev clock : ℕ → ℕ
clock i = i

abbrev balancer_after : Option (Balancer × Option ℕ) → Balancer
balancer_after none = after_round.balancer
balancer_after (some (b, i)) = b

abbrev picked : Balancer
picked = balancer_after (pick clock [] after_round.balancer)

picks_the_healthy_one : pick clock [] after_round.balancer ≡ some (picked, some 1)
unfolding runs
picks_the_healthy_one = refl

pick-round_example :
    (u : Upstream) × (get_elem? (from_config checked_route).balancer.upstreams 1 ≡ some u)
    × (is_success (reply (probe_url every_ten u) (timeout_ms every_ten)) ≡ true)
unfolding runs
pick-round_example =
    pick-round reply every_ten (from_config checked_route) clock [] picked 1 refl
      (from_route-IsBalancer checked_route (λ e. cc)) picks_the_healthy_one

abbrev name : Str
name = str "root"

probe_route-spawn_route_example :
    probe_route reply (spawn_route name (from_config checked_route)) (from_config checked_route)
    ≡ after_round
probe_route-spawn_route_example = probe_route-spawn_route reply name (from_config checked_route)
