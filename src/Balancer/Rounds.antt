-- ===== src/Balancer/Rounds.antt =====
-- The rounds of `pick_round_robin`.
use native.Mathlib.Nat.{mod-lt}
use rust_api_gateway.Base.{
  ℕ, zero, suc, ◌%◌, ◌<◌, ◌≡◌, refl, inl, inr, Bool, true, false, none, some, List, length,
  get_elem?-some, set, get_elem?-set_self, All-get, arith, add_u64, Bool-cases,
}
use rust_api_gateway.Balancer.{Upstream, Balancer, contains_index, eligible, try_at, rr_rounds}
use rust_api_gateway.Balancer.Probe.{eligible-Probed, eligible_iff, Probes, Probes-refl, Probes-set}
use rust_api_gateway.Balancer.Order.{IsBalancer}
use rust_api_gateway.Balancer.Ran.{Chosen, Scanned, Scanned-IsBalancer, Ran, Ran-step}

record Tried (exclude : List ℕ) (idx now : ℕ) (us : List Upstream) : Type 0 where
  us' : List Upstream
  ok : Bool
  runs : try_at exclude idx now us ≡ some (us', ok)
  probes : Probes us us'
  accepted : ok ≡ true → Chosen exclude us' idx

try_at-Tried :
    (exclude : List ℕ) (idx now : ℕ) (us : List Upstream)
    → idx < length us
    → Tried exclude idx now us
unfolding try_at
try_at-Tried exclude idx now us h = elim (Bool-cases (contains_index exclude idx)) [
  | inl out ↦ record {
    us' = us;
    ok = false;
    runs = ground arith;
    probes = Probes-refl us;
    accepted = λ e. absurd (ground arith);
  }
  | inr included ↦
      let (u, at) = get_elem?-some us idx h in
      record {
        us' = set us idx (eligible u now).0;
        ok = (eligible u now).1;
        runs = ground arith;
        probes = Probes-set us idx u (eligible u now).0 at (eligible-Probed u now);
        accepted = λ e. record {
          included = included;
          upstream = (eligible u now).0;
          at = get_elem?-set_self us idx (eligible u now).0 h;
          ready = (eligible_iff u now).0 e;
        };
      }
]

-- The balancer after a round that tried the upstreams.
abbrev moved : Balancer → List Upstream → Balancer
moved b us = record b { rr_cursor = add_u64 b.rr_cursor 1; upstreams = us }

pub rr_rounds-Ran :
    (clock : ℕ → ℕ) (exclude : List ℕ) (left : ℕ) (b : Balancer)
    → IsBalancer b
    → Ran exclude b (rr_rounds clock exclude left b)
unfolding rr_rounds
rr_rounds-Ran clock exclude zero b v = record {
  after = b;
  found = none;
  runs = refl;
  scanned = record { probes = Probes-refl b.upstreams; strategy = refl; order = refl };
  choice = tt;
}
rr_rounds-Ran clock exclude (suc left) b v =
    let (idx, at) =
      get_elem?-some b.rr_order (b.rr_cursor % length b.rr_order) (mod-lt b.rr_cursor v.ordered) in
    let below = All-get (λ i. i < length b.upstreams) b.rr_order _ idx v.in_range at in
    let t = try_at-Tried exclude idx (clock left) b.upstreams below in
    let s : Scanned b (moved b t.us') = record {
      probes = t.probes;
      strategy = refl;
      order = refl;
    } in
    elim (Bool-cases t.ok) [
      | inl hit ↦ record {
        after = moved b t.us';
        found = some idx;
        runs = ground (arith, t.runs, at, hit);
        scanned = s;
        choice = t.accepted hit;
      }
      | inr miss ↦ Ran-step exclude b (moved b t.us') _ _ (ground (arith, t.runs, at, miss)) s (
          rr_rounds-Ran clock exclude left (moved b t.us')
            (Scanned-IsBalancer b (moved b t.us') s v))
    ]
