-- ===== src/Balancer/Ran.antt =====
-- What a pick of crates/gateway/src/balancer.rs returns, and what it leaves of the balancer.
use rust_api_gateway.Base.{ℕ, ◌≡◌, refl, ◌∙◌, false, Option, none, some, List, get_elem?}
use rust_api_gateway.Balancer.{Upstream, Balancer, contains_index}
use rust_api_gateway.Balancer.Probe.{IsReady, Probes, Probes-refl, Probes-trans, Probes-length}
use rust_api_gateway.Balancer.Order.{IsBalancer}

-- An index that a pick may return: it is not excluded, and its upstream is ready.
pub record Chosen (exclude : List ℕ) (us : List Upstream) (i : ℕ) : Type 0 where
  pub included : contains_index exclude i ≡ false
  pub upstream : Upstream
  pub at : get_elem? us i ≡ some upstream
  pub ready : IsReady upstream

abbrev pub IsChoice : List ℕ → List Upstream → Option ℕ → Type 0
IsChoice exclude us none = Unit
IsChoice exclude us (some i) = Chosen exclude us i

-- The upstreams were probed, and the settings are the same.
pub record Scanned (b b' : Balancer) : Type 0 where
  pub probes : Probes b.upstreams b'.upstreams
  pub strategy : b'.strategy ≡ b.strategy
  pub order : b'.rr_order ≡ b.rr_order

pub Scanned-trans : (a b c : Balancer) → Scanned a b → Scanned b c → Scanned a c
Scanned-trans a b c s t = record {
  probes = Probes-trans a.upstreams b.upstreams c.upstreams s.probes t.probes;
  strategy = t.strategy ∙ s.strategy;
  order = t.order ∙ s.order;
}

pub Scanned-IsBalancer : (b b' : Balancer) → Scanned b b' → IsBalancer b → IsBalancer b'
Scanned-IsBalancer b b' s v = record {
  ordered = rw s.order v.ordered;
  in_range = rw (Probes-length b.upstreams b'.upstreams s.probes, s.order) v.in_range;
}

pub Scanned-refl : (b : Balancer) → Scanned b b
Scanned-refl b = record { probes = Probes-refl b.upstreams; strategy = refl; order = refl }

-- A scan that does not panic: what it returns is a choice.
pub record Ran (exclude : List ℕ) (b : Balancer) (result : Option (Balancer × Option ℕ))
    : Type 0 where
  pub after : Balancer
  pub found : Option ℕ
  pub runs : result ≡ some (after, found)
  pub scanned : Scanned b after
  pub choice : IsChoice exclude after.upstreams found

unfoldable pub Ran-step :
    (exclude : List ℕ) (b c : Balancer) (result result' : Option (Balancer × Option ℕ))
    → result ≡ result'
    → Scanned b c
    → Ran exclude c result'
    → Ran exclude b result
Ran-step exclude b c result result' e s r = record {
  after = r.after;
  found = r.found;
  runs = e ∙ r.runs;
  scanned = Scanned-trans b c r.after s r.scanned;
  choice = r.choice;
}
