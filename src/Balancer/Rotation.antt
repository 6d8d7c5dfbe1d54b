-- ===== src/Balancer/Rotation.antt =====
-- The shares of the weighted round-robin, when every upstream is ready.
use native.Mathlib.Nat.{mod-lt}
use rust_api_gateway.Base.{
  ℕ, zero, suc, ◌+◌, ◌%◌, ◌<◌, max, ◌≡◌, ◌≢◌, refl, ap, ◌∙◌, Option, none, some, List, [], ◌∷◌,
  length, get_elem?, get_elem?-some, set, length-set, map, All, All-get, arith, add_u64, u64_mod,
  if◌then◌else◌, ◌==◌,
}
use rust_api_gateway.Config.{round_robin, UpstreamConfig, RouteConfig}
use rust_api_gateway.Breaker.{closed, opened}
use rust_api_gateway.Breaker
use rust_api_gateway.Balancer.{
  Upstream, Balancer, try_at, rr_rounds, pick_round_robin, acquire_guard, pick, new_upstream,
  from_route,
}
use rust_api_gateway.Balancer.Probe.{IsReady, eligible-ready}
use rust_api_gateway.Balancer.Order.{IsBalancer, count, from_route-IsBalancer, count-from_route}
use rust_api_gateway.Balancer.Window.{get_or, hits, turn, hits-turn}

-- `n` picks in a row with nothing excluded, each with its own clock readings: the indices picked.
unfoldable pub picks : (ℕ → ℕ → ℕ) → ℕ → Balancer → Option (Balancer × List ℕ)
picks clocks zero b = some (b, [])
picks clocks (suc n) b = elim (pick (clocks n) [] b) [
  | none ↦ none
  | some (b', none) ↦ none
  | some (b', some i) ↦ elim (picks clocks n b') [
    | none ↦ none
    | some (b'', is) ↦ some (b'', i ∷ is)
  ]
]

set-same : (us : List Upstream) (i : ℕ) (u : Upstream) → get_elem? us i ≡ some u → set us i u ≡ us
set-same [] i u e = refl
set-same (x ∷ us) zero u e = ground arith
set-same (x ∷ us) (suc i) u e = ap (◌∷◌ x) (set-same us i u e)

get_or_of_get : (xs : List ℕ) (k x : ℕ) → get_elem? xs k ≡ some x → get_or xs k ≡ x
get_or_of_get [] k x e = absurd (ground arith)
get_or_of_get (y ∷ xs) zero x e = ground arith
get_or_of_get (y ∷ xs) (suc k) x e = get_or_of_get xs k x e

set-IsReady :
    (us : List Upstream) (i : ℕ) (u : Upstream)
    → IsReady u
    → All IsReady us
    → All IsReady (set us i u)
set-IsReady [] i u r a = tt
set-IsReady (x ∷ us) zero u r a = (r, a.1)
set-IsReady (x ∷ us) (suc i) u r a = (a.0, set-IsReady us i u r a.1)

acquire_guard-IsReady : (u : Upstream) → IsReady u → IsReady (acquire_guard u)
unfolding acquire_guard
acquire_guard-IsReady u r = record { healthy = r.healthy; lets_through = r.lets_through }

-- The balancer after a round-robin pick of an upstream that is ready.
abbrev picked : Balancer → ℕ → Upstream → Balancer
picked b idx u = record b {
  rr_cursor = add_u64 b.rr_cursor 1;
  upstreams = set b.upstreams idx (acquire_guard u);
}

rr_rounds-first :
    (clock : ℕ → ℕ) (left : ℕ) (b : Balancer) (idx : ℕ) (u : Upstream)
    → get_elem? b.rr_order (b.rr_cursor % length b.rr_order) ≡ some idx
    → get_elem? b.upstreams idx ≡ some u
    → IsReady u
    → rr_rounds clock [] (suc left) b
      ≡ some (record b { rr_cursor = add_u64 b.rr_cursor 1 }, some idx)
unfolding rr_rounds try_at
rr_rounds-first clock left b idx u at here r =
    ground (arith, eligible-ready u (clock left) r, set-same b.upstreams idx u here)

pick-turn :
    (clock : ℕ → ℕ) (b : Balancer) (idx : ℕ) (u : Upstream) (order : List ℕ)
    → b.strategy ≡ round_robin
    → b.rr_order ≡ order
    → get_elem? order (b.rr_cursor % length order) ≡ some idx
    → get_elem? b.upstreams idx ≡ some u
    → IsReady u
    → pick clock [] b ≡ some (picked b idx u, some idx)
unfolding pick pick_round_robin
pick-turn clock b idx u [] s o at here r = absurd (ground arith)
pick-turn clock b idx u (x ∷ xs) s o at here r =
    ground (arith, rr_rounds-first clock (length xs) b idx u (rw o at) here r)

-- What a run of picks answers: as many indices as the order holds from the cursor on.
record Turns (order : List ℕ) (c n : ℕ) (result : Option (Balancer × List ℕ)) : Type 0 where
  after : Balancer
  indices : List ℕ
  runs : result ≡ some (after, indices)
  shares : (i : ℕ) → count i indices ≡ hits (turn order) i c n

picks-Turns :
    (clocks : ℕ → ℕ → ℕ) (n : ℕ) (b : Balancer) (order : List ℕ)
    → b.strategy ≡ round_robin
    → b.rr_order ≡ order
    → 0 < length order
    → All (λ i. i < length b.upstreams) order
    → All IsReady b.upstreams
    → b.rr_cursor + n < u64_mod
    → Turns order b.rr_cursor n (picks clocks n b)
unfolding picks hits
picks-Turns clocks zero b order s o h r a l = record {
  after = b;
  indices = [];
  runs = refl;
  shares = λ i. refl;
}
picks-Turns clocks (suc n) b order s o h r a l =
    let (idx, at) = get_elem?-some order (b.rr_cursor % length order) (mod-lt b.rr_cursor h) in
    let below = All-get (λ i. i < length b.upstreams) order _ idx r at in
    let (u, here) = get_elem?-some b.upstreams idx below in
    let ready = All-get IsReady b.upstreams idx u a here in
    let one = pick-turn (clocks n) b idx u order s o at here ready in
    let size = length-set b.upstreams idx (acquire_guard u) in
    let next : add_u64 b.rr_cursor 1 ≡ suc b.rr_cursor = omega arith in
    let rest =
      picks-Turns clocks n (picked b idx u) order s o h (rw size r)
        (set-IsReady b.upstreams idx (acquire_guard u) (acquire_guard-IsReady u ready) a)
        (omega arith) in
    record {
      after = rest.after;
      indices = idx ∷ rest.indices;
      runs = ground (arith, one, rest.runs);
      shares = λ i.
          let here : turn order b.rr_cursor ≡ idx = get_or_of_get order _ idx at in
          omega (
            arith,
            ap {B = ℕ} (λ x. if x == i then 1 else 0) here,
            rest.shares i,
            ap (λ c. hits (turn order) i c n) next,
          );
    }

-- While every upstream is ready and the cursor does not wrap, one full turn of round-robin picks
-- succeeds and picks each index as often as the order holds it, wherever the turn begins.
pub picks-shares :
    (clocks : ℕ → ℕ → ℕ) (b : Balancer)
    → b.strategy ≡ round_robin
    → IsBalancer b
    → All IsReady b.upstreams
    → b.rr_cursor + length b.rr_order < u64_mod
    → (b' : Balancer) × (is : List ℕ) × (picks clocks (length b.rr_order) b ≡ some (b', is))
      × ((i : ℕ) → count i is ≡ count i b.rr_order)
picks-shares clocks b s v a l =
    let t = picks-Turns clocks (length b.rr_order) b b.rr_order s refl v.ordered v.in_range a l in
    (t.after, t.indices, t.runs, λ i. t.shares i ∙ hits-turn b.rr_order i b.rr_cursor v.ordered)

map-IsReady :
    (r : RouteConfig) (us : List UpstreamConfig)
    → All IsReady (map (new_upstream r.circuit_breaker) us)
unfolding new_upstream Breaker.new
map-IsReady r [] = tt
map-IsReady r (u ∷ us) = (record { healthy = refl; lets_through = λ e. cc }, map-IsReady r us)

from_route-IsReady : (r : RouteConfig) → All IsReady (from_route r).upstreams
unfolding from_route
from_route-IsReady r = map-IsReady r r.upstreams

from_route-start :
    (r : RouteConfig) → ((from_route r).rr_cursor ≡ 0) × ((from_route r).strategy ≡ r.strategy)
unfolding from_route
from_route-start r = (refl, refl)

-- The first full turn of a new route's balancer serves each upstream as often as its configured
-- weight says, once where that is 0.
pub picks-weights :
    (clocks : ℕ → ℕ → ℕ) (r : RouteConfig)
    → r.strategy ≡ round_robin
    → r.upstreams ≢ []
    → length (from_route r).rr_order < u64_mod
    → (b' : Balancer) × (is : List ℕ) × (picks clocks
          (length (from_route r).rr_order)
          (from_route r)
        ≡ some (b', is))
      × ((i : ℕ) (c : UpstreamConfig)
          → get_elem? r.upstreams i ≡ some c
          → count i is ≡ max c.weight 1)
picks-weights clocks r s h l =
    let start = from_route-start r in
    let (b', is, runs, shares) =
      picks-shares clocks (from_route r) (start.1 ∙ s) (from_route-IsBalancer r h)
        (from_route-IsReady r) (omega (arith, start.0, l)) in
    (b', is, runs, λ i c e. shares i ∙ count-from_route r i c e)
