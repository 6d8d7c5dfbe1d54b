-- ===== src/Balancer/Soundness.antt =====
-- What a pick answers.
use native.Mathlib.Nat.{zero-add}
use rust_api_gateway.Config.{Strategy, round_robin, least_connections}
use rust_api_gateway.Balancer.Least.{pick_least_conn-Picks}
use rust_api_gateway.Base.{
  ℕ, ◌+◌, ◌≡◌, refl, ◌⊎◌, inl, inr, false, none, some, List, length, get_elem?, set, arith,
  Option-cases,
}
use rust_api_gateway.Balancer.{
  Upstream, Balancer, contains_index, pick_round_robin, pick_index, acquire_guard, pick,
}
use rust_api_gateway.Balancer.Probe.{IsReady, Probes-get, Probed-IsReady}
use rust_api_gateway.Balancer.Order.{IsBalancer}
use rust_api_gateway.Balancer.Ran.{Chosen, Scanned, Scanned-refl}
use rust_api_gateway.Balancer.Rounds.{rr_rounds-Ran}
use rust_api_gateway.Balancer.Scan.{Exhausted, first_eligible-Found, Picks, Picks-step, Found-Picks}

pub pick_round_robin-Picks :
    (clock : ℕ → ℕ) (exclude : List ℕ) (b : Balancer)
    → IsBalancer b
    → Picks exclude b (pick_round_robin clock exclude b)
unfolding pick_round_robin
pick_round_robin-Picks clock exclude b v =
    let n = length b.rr_order in
    let r = rr_rounds-Ran clock exclude n b v in
    elim (Option-cases r.found) [
      | inl missed ↦
          let fallback = first_eligible-Found (λ i. clock (n + i)) exclude 0 r.after.upstreams in
          Picks-step exclude b r.after _ _ (ground (arith, r.runs, missed)) r.scanned
            (Found-Picks exclude r.after _ fallback)
      | inr (idx, hit) ↦
          Picks-step exclude b b _ _ (ground (arith, r.runs, hit)) (Scanned-refl b)
            (record { ran = r; exhausted = λ e. absurd (ground arith) })
    ]

pick_index-Picks :
    (s : Strategy) (clock : ℕ → ℕ) (exclude : List ℕ) (b : Balancer)
    → IsBalancer b
    → Picks exclude b (pick_index s clock exclude b)
pick_index-Picks round_robin clock exclude b v = pick_round_robin-Picks clock exclude b v
pick_index-Picks least_connections clock exclude b v = pick_least_conn-Picks clock exclude b

-- No upstream was picked: after the scan none that is not excluded is ready.
pub record Refused (exclude : List ℕ) (b b' : Balancer) : Type 0 where
  pub scanned : Scanned b b'
  pub exhausted : Exhausted exclude 0 b'.upstreams

-- The upstream with the index was picked: after a scan it is ready, and it is counted as active.
pub record Granted (exclude : List ℕ) (b b' : Balancer) (i : ℕ) : Type 0 where
  pub before : Balancer
  pub scanned : Scanned b before
  pub chosen : Chosen exclude before.upstreams i
  pub counted :
      b' ≡ record before { upstreams = set before.upstreams i (acquire_guard chosen.upstream) }

-- A pick, by either strategy, does not panic. It probes upstreams, changes nothing else of them,
-- and either returns one that is not excluded and is ready, which it counts as active, or finds
-- that none that is not excluded is ready.
pub pick-Granted :
    (clock : ℕ → ℕ) (exclude : List ℕ) (b : Balancer)
    → IsBalancer b
    → (b' : Balancer) × (((pick clock exclude b ≡ some (b', none)) × Refused exclude b b')
        ⊎ ((i : ℕ) × (pick clock exclude b ≡ some (b', some i)) × Granted exclude b b' i))
unfolding pick
pick-Granted clock exclude b v =
    let p = pick_index-Picks b.strategy clock exclude b v in
    elim (Option-cases p.ran.found) [
      | inl missed ↦ (
        p.ran.after,
        inl (
          ground (arith, p.ran.runs, missed),
          record { scanned = p.ran.scanned; exhausted = p.exhausted missed },
        ),
      )
      | inr (i, hit) ↦
          let c : Chosen exclude p.ran.after.upstreams i = rw hit at p.ran.choice in
          (
            record (p.ran.after) {
              upstreams = set p.ran.after.upstreams i (acquire_guard c.upstream);
            },
            inr (
              i,
              ground (arith, p.ran.runs, hit, c.at),
              record { before = p.ran.after; scanned = p.ran.scanned; chosen = c; counted = refl },
            ),
          )
    ]

-- Where an upstream is healthy, not excluded, and its breaker is closed or on trial, a pick
-- returns an upstream.
pub pick-available :
    (clock : ℕ → ℕ) (exclude : List ℕ) (b : Balancer) (m : ℕ) (u : Upstream)
    → IsBalancer b
    → get_elem? b.upstreams m ≡ some u
    → contains_index exclude m ≡ false
    → IsReady u
    → (b' : Balancer) × (i : ℕ) × (pick clock exclude b ≡ some (b', some i))
pick-available clock exclude b m u v at c r =
    let (b', outcome) = pick-Granted clock exclude b v in
    elim outcome [
      | inr (i, e, _) ↦ (b', i, e)
      | inl (_, refused) ↦
          let (w, at', p) = Probes-get b.upstreams b'.upstreams m u refused.scanned.probes at in
          absurd (refused.exhausted m w at' (rw (zero-add m) c) (Probed-IsReady u w p r))
    ]
