-- ===== src/Balancer.antt =====
-- The load balancer of crates/gateway/src/balancer.rs. A shared upstream is its index, an
-- `ActiveGuard` too. The counters are atomics: `active` holds the 64 bits of an `i64`, `rr_cursor`
-- those of a `usize`. An index out of range, which panics in the source, is `none`.
pub mod Probe
pub mod Order
pub mod Ran
pub mod Rounds
pub mod Scan
pub mod Soundness
pub mod Candidate
pub mod Least
pub mod Window
pub mod Rotation
pub mod Tasks
pub mod Guards
pub mod Tests
use mathlib.Core.Option
use rust_api_gateway.Base.{
  ℕ, suc, zero, ◌+◌, ◌-◌, ◌%◌, max, Bool, true, false, not, ◌&&◌, ◌||◌, Option, none, some, List,
  [], ◌∷◌, ◌++◌, map, Str, length, get_elem?, set, replicate, trim_end_matches, add_u64, u64_mod,
  if◌then◌else◌, ltb, ◌==◌,
}
use rust_api_gateway.Config.{
  Strategy, round_robin, least_connections, UpstreamConfig, CircuitBreakerConfig, RouteConfig,
}
use rust_api_gateway.Breaker.{CircuitBreaker, allow_at}
use rust_api_gateway.Breaker

pub record Upstream : Type 0 where
  pub url : Str
  pub weight : ℕ
  pub active : ℕ
  pub healthy : Bool
  pub breaker : CircuitBreaker

pub record Balancer : Type 0 where
  pub upstreams : List Upstream
  pub strategy : Strategy
  pub rr_order : List ℕ
  pub rr_cursor : ℕ

abbrev pub contains_index : List ℕ → ℕ → Bool
contains_index [] i = false
contains_index (j ∷ js) i = (j == i) || contains_index js i

-- `is_healthy() && breaker.allow()`, with the upstream after it.
unfoldable pub eligible : Upstream → ℕ → Upstream × Bool
eligible u now =
    if u.healthy
    then (let (b, allowed) = allow_at u.breaker now in (record u { breaker = b }, allowed))
    else (u, false)

unfoldable pub set_healthy : Upstream → Bool → Upstream
set_healthy u v = record u { healthy = v }

unfoldable pub new_upstream : CircuitBreakerConfig → UpstreamConfig → Upstream
new_upstream c u = record {
  url = trim_end_matches b'/' u.url;
  weight = max u.weight 1;
  active = 0;
  healthy = true;
  breaker = Breaker.new c.failure_threshold c.open_secs;
}

-- Each index, from `i` on, as often as the weight of its upstream.
unfoldable pub expand : ℕ → List Upstream → List ℕ
expand i [] = []
expand i (u ∷ us) = replicate u.weight i ++ expand (suc i) us

abbrev or_zero : List ℕ → List ℕ
or_zero [] = 0 ∷ []
or_zero (i ∷ is) = i ∷ is

unfoldable pub from_route : RouteConfig → Balancer
unfolding new_upstream
from_route r =
    let upstreams = map (new_upstream r.circuit_breaker) r.upstreams in
    record {
      upstreams = upstreams;
      strategy = r.strategy;
      rr_order = or_zero (expand 0 upstreams);
      rr_cursor = 0;
    }

-- `!exclude.contains(&idx) && self.upstreams[idx].eligible()`, with the upstreams after it.
unfoldable pub try_at : List ℕ → ℕ → ℕ → List Upstream → Option (List Upstream × Bool)
try_at exclude idx now us =
    if contains_index exclude idx then some (us, false) else elim (get_elem? us idx) [
      | none ↦ none
      | some u ↦ let (u', ok) = eligible u now in some (set us idx u', ok)
    ]

-- The rounds that are left of the loop of `pick_round_robin`. The clock is read at most once in a
-- round.
unfoldable pub rr_rounds : (ℕ → ℕ) → List ℕ → ℕ → Balancer → Option (Balancer × Option ℕ)
rr_rounds clock exclude zero b = some (b, none)
rr_rounds clock exclude (suc left) b =
    let moved = record b { rr_cursor = add_u64 b.rr_cursor 1 } in
    elim (get_elem? b.rr_order (b.rr_cursor % length b.rr_order)) [
      | none ↦ none
      | some idx ↦ elim (try_at exclude idx (clock left) b.upstreams) [
        | none ↦ none
        | some (us, true) ↦ some (record moved { upstreams = us }, some idx)
        | some (us, false) ↦ rr_rounds clock exclude left (record moved { upstreams = us })
      ]
    ]

-- The first upstream from index `i` on that is not excluded and eligible.
unfoldable pub first_eligible : (ℕ → ℕ) → List ℕ → ℕ → List Upstream → List Upstream × Option ℕ
first_eligible clock exclude i [] = ([], none)
first_eligible clock exclude i (u ∷ us) =
    let rest = first_eligible clock exclude (suc i) us in
    if contains_index exclude i
    then (u ∷ rest.0, rest.1)
    else (let (u', ok) = eligible u (clock i) in
        if ok then (u' ∷ us, some i) else (u' ∷ rest.0, rest.1))

unfoldable pub pick_round_robin : (ℕ → ℕ) → List ℕ → Balancer → Option (Balancer × Option ℕ)
pick_round_robin clock exclude b =
    let n = length b.rr_order in
    elim (rr_rounds clock exclude n b) [
      | none ↦ none
      | some (b', some idx) ↦ some (b', some idx)
      | some (b', none) ↦
          let (us, found) = first_eligible (λ i. clock (n + i)) exclude 0 b'.upstreams in
          some (record b' { upstreams = us }, found)
    ]

-- The bits of an `i64`, in the order of the numbers that they stand for.
abbrev pub signed_key : ℕ → ℕ
signed_key x = add_u64 x 9223372036854775808

-- The candidate of `min_by_key` so far, with its key: a later one is taken only if it is less.
abbrev pub keep_min : Option (ℕ × ℕ) → ℕ → ℕ → Option (ℕ × ℕ)
keep_min none i key = some (i, key)
keep_min (some (j, least)) i key = if ltb key least then some (i, key) else some (j, least)

-- The filter of `pick_least_conn` and its `min_by_key`, one upstream after the other.
unfoldable pub least_from :
    (ℕ → ℕ) → List ℕ → ℕ → Option (ℕ × ℕ) → List Upstream → List Upstream × Option ℕ
least_from clock exclude i best [] = ([], Option.map (λ p. p.0) best)
least_from clock exclude i best (u ∷ us) =
    let probed : Upstream × Bool =
      if contains_index exclude i then (u, false) else eligible u (clock i) in
    let best' = if probed.1 then keep_min best i (signed_key u.active) else best in
    let rest = least_from clock exclude (suc i) best' us in (probed.0 ∷ rest.0, rest.1)

unfoldable pub pick_least_conn : (ℕ → ℕ) → List ℕ → Balancer → Option (Balancer × Option ℕ)
pick_least_conn clock exclude b =
    let (us, found) = least_from clock exclude 0 none b.upstreams in
    some (record b { upstreams = us }, found)

-- `ActiveGuard::new` and its `drop`.
unfoldable pub acquire_guard : Upstream → Upstream
acquire_guard u = record u { active = add_u64 u.active 1 }

unfoldable pub drop_guard : Upstream → Upstream
drop_guard u = record u { active = (u.active + u64_mod - 1) % u64_mod }

-- A change of the upstream with an index.
abbrev pub update_at : ℕ → (Upstream → Upstream) → Balancer → Option Balancer
update_at idx f b =
    Option.map (λ u. record b { upstreams = set b.upstreams idx (f u) }) (get_elem? b.upstreams idx)

abbrev pub pick_index : Strategy → (ℕ → ℕ) → List ℕ → Balancer → Option (Balancer × Option ℕ)
pick_index round_robin = pick_round_robin
pick_index least_connections = pick_least_conn

-- `pick`: the index stands for the upstream and for its guard, which counts it as active.
unfoldable pub pick : (ℕ → ℕ) → List ℕ → Balancer → Option (Balancer × Option ℕ)
pick clock exclude b = elim (pick_index b.strategy clock exclude b) [
  | none ↦ none
  | some (b', none) ↦ some (b', none)
  | some (b', some idx) ↦ Option.map (λ c. (c, some idx)) (update_at idx acquire_guard b')
]
