-- ===== src/Balancer/Tests.antt =====
-- Tests of the load balancer, after those of the source.
use rust_api_gateway.Base.{
  ℕ, ◌≡◌, refl, max, true, false, Option, none, some, List, [], ◌∷◌, length, get_elem?, set, arith,
  texts, ◌⊎◌, ◌≤◌, str, All,
}
use rust_api_gateway.Breaker
use rust_api_gateway.Balancer.{
  Balancer, Upstream, eligible, set_healthy, new_upstream, expand, from_route, try_at, rr_rounds,
  first_eligible, pick_round_robin, least_from, pick_least_conn, acquire_guard, drop_guard, pick,
  contains_index, signed_key,
}
use rust_api_gateway.Balancer.Probe.{IsReady}
use rust_api_gateway.Balancer.Order.{IsBalancer, count, from_route-IsBalancer}
use rust_api_gateway.Balancer.Soundness.{Refused, Granted, pick-Granted, pick-available}
use rust_api_gateway.Balancer.Least.{pick_least_conn-least}
use rust_api_gateway.Balancer.Rotation.{picks, picks-weights}
use rust_api_gateway.Config.{round_robin, UpstreamConfig}
use rust_api_gateway.Samples.{weighted_route, least_route}

runs : Unit {0}
unfolding Breaker.new Breaker.allow_at eligible set_healthy new_upstream expand from_route try_at
    rr_rounds first_eligible pick_round_robin least_from pick_least_conn acquire_guard drop_guard
    pick picks texts
runs = tt

abbrev clock : ℕ → ℕ
clock i = i

abbrev indices : Option (Balancer × List ℕ) → List ℕ
indices none = []
indices (some (b, is)) = is

abbrev index : Option (Balancer × Option ℕ) → Option ℕ
index none = none
index (some (b, i)) = i

abbrev after : Balancer → Option (Balancer × Option ℕ) → Balancer
after b none = b
after b (some (b', i)) = b'

-- Eight picks over the weights 3 and 1.
weighted_round_robin_respects_weight :
    indices (picks (λ n. clock) 8 (from_route weighted_route)) ≡ 0 ∷ 0 ∷ 0 ∷ 1 ∷ 0 ∷ 0 ∷ 0 ∷ 1 ∷ []
unfolding runs
weighted_round_robin_respects_weight = refl

least_connections_prefers_idle :
    index (pick clock [] (after (from_route least_route) (pick clock [] (from_route least_route))))
    ≡ some 1
unfolding runs
least_connections_prefers_idle = refl

weighted : Balancer
weighted = from_route weighted_route

weighted-IsBalancer : IsBalancer weighted
unfolding weighted
weighted-IsBalancer = from_route-IsBalancer weighted_route (λ e. cc)

first_of : List Upstream → Option Upstream
first_of us = get_elem? us 0

unhealthy_upstreams_are_skipped :
    (u : Upstream) × (first_of weighted.upstreams ≡ some u)
    × (index (
          pick clock []
            (record weighted { upstreams = set weighted.upstreams 0 (set_healthy u false) }))
        ≡ some 1)
unfolding runs weighted first_of
unhealthy_upstreams_are_skipped = (_, refl, refl)

pick-Granted_example :
    (b' : Balancer) × (((pick clock (0 ∷ []) weighted ≡ some (b', none))
        × Refused (0 ∷ []) weighted b')
      ⊎ ((i : ℕ) × (pick clock (0 ∷ []) weighted ≡ some (b', some i))
          × Granted (0 ∷ []) weighted b' i))
pick-Granted_example = pick-Granted clock (0 ∷ []) weighted weighted-IsBalancer

second_upstream : Upstream
unfolding runs weighted
second_upstream = record {
  url = str "http://b";
  weight = 1;
  active = 0;
  healthy = true;
  breaker = Breaker.new 5 10;
}

second_at : get_elem? weighted.upstreams 1 ≡ some second_upstream
unfolding runs weighted second_upstream
second_at = refl

second-IsReady : IsReady second_upstream
unfolding second_upstream runs
second-IsReady = record { healthy = refl; lets_through = λ e. cc }

pick-available_example :
    (b' : Balancer) × (i : ℕ) × (pick clock (0 ∷ []) weighted ≡ some (b', some i))
pick-available_example =
    pick-available clock (0 ∷ []) weighted 1 second_upstream weighted-IsBalancer second_at refl
      second-IsReady

pick_least_conn-least_example :
    (u : Upstream) × (get_elem? weighted.upstreams 0 ≡ some u)
    × IsReady u
    × ((m : ℕ) (v : Upstream)
        → get_elem? weighted.upstreams m ≡ some v
        → contains_index [] m ≡ false
        → IsReady v
        → signed_key u.active ≤ signed_key v.active)
unfolding runs weighted
pick_least_conn-least_example = pick_least_conn-least clock [] weighted weighted 0 refl

weighted-start :
    (weighted.strategy ≡ round_robin) × (length weighted.rr_order ≡ 4) × (weighted.rr_cursor ≡ 0)
unfolding runs weighted
weighted-start = (refl, refl, refl)

weighted-IsReady : All IsReady weighted.upstreams
unfolding runs weighted
weighted-IsReady = (
  record { healthy = refl; lets_through = λ e. cc },
  (record { healthy = refl; lets_through = λ e. cc }, tt),
)

picks-weights_example :
    (b' : Balancer) × (is : List ℕ) × (picks
        (λ n. clock)
        (length (from_route weighted_route).rr_order)
        (from_route weighted_route)
      ≡ some (b', is))
    × ((i : ℕ) (c : UpstreamConfig)
        → get_elem? weighted_route.upstreams i ≡ some c
        → count i is ≡ max c.weight 1)
unfolding runs
picks-weights_example = picks-weights (λ n. clock) weighted_route refl (λ e. cc) (omega arith)
