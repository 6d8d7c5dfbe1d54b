-- ===== src/Balancer/Scan.antt =====
-- A scan of all upstreams, and `first_eligible`, the fallback of the round-robin.
use rust_api_gateway.Base.{
  ℕ, zero, suc, ◌+◌, ◌≡◌, refl, inl, inr, true, false, Option, none, some, List, [], ◌∷◌, get_elem?,
  arith, Bool-cases,
}
use rust_api_gateway.Balancer.{Upstream, Balancer, contains_index, eligible, first_eligible}
use rust_api_gateway.Balancer.Probe.{
  Probed, IsReady, Probed-refl, eligible-Probed, eligible_iff, Probes, Probes-refl,
}
use rust_api_gateway.Balancer.Ran.{IsChoice, Scanned, Ran, Ran-step}

-- Every upstream whose index, counted from `i` on, is not excluded is not ready.
abbrev pub Exhausted : List ℕ → ℕ → List Upstream → Type 0
Exhausted exclude i us =
    (m : ℕ) (u : Upstream)
    → get_elem? us m ≡ some u
    → contains_index exclude (i + m) ≡ false
    → ¬ IsReady u

-- What a scan of the upstreams from index `i` on answers.
pub record IsHit (exclude : List ℕ) (i : ℕ) (us : List Upstream) (j : ℕ) : Type 0 where
  pub offset : ℕ
  pub upstream : Upstream
  pub index : j ≡ i + offset
  pub included : contains_index exclude j ≡ false
  pub at : get_elem? us offset ≡ some upstream
  pub ready : IsReady upstream

pub Exhausted-cons :
    (exclude : List ℕ) (i : ℕ) (u : Upstream) (us : List Upstream)
    → (contains_index exclude i ≡ false → ¬ IsReady u)
    → Exhausted exclude (suc i) us
    → Exhausted exclude i (u ∷ us)
Exhausted-cons exclude i u us h rest zero v e c r =
    let here : i + 0 ≡ i = omega arith in
    let same : u ≡ v = cc in h (rw here at c) (rw (← same) at r)
Exhausted-cons exclude i u us h rest (suc m) v e c r =
    let next : i + suc m ≡ suc i + m = omega arith in rest m v e (rw next at c) r

pub record Found (exclude : List ℕ) (i : ℕ) (us : List Upstream) (result : List Upstream × Option ℕ)
    : Type 0 where
  pub probes : Probes us result.0
  pub choice : (j : ℕ) → result.1 ≡ some j → IsHit exclude i result.0 j
  pub exhausted : result.1 ≡ none → Exhausted exclude i result.0

unfoldable pub IsHit-cons :
    (exclude : List ℕ) (i : ℕ) (u : Upstream) (us : List Upstream) (j : ℕ)
    → IsHit exclude (suc i) us j
    → IsHit exclude i (u ∷ us) j
IsHit-cons exclude i u us j h = record {
  offset = suc h.offset;
  upstream = h.upstream;
  index = omega (arith, h.index);
  included = h.included;
  at = h.at;
  ready = h.ready;
}

pub Found-cons :
    (exclude : List ℕ) (i : ℕ) (u u' : Upstream) (us : List Upstream)
    (rest : List Upstream × Option ℕ)
    → Probed u u'
    → (contains_index exclude i ≡ false → ¬ IsReady u')
    → Found exclude (suc i) us rest
    → Found exclude i (u ∷ us) (u' ∷ rest.0, rest.1)
Found-cons exclude i u u' us rest p n f = record {
  exhausted = λ e. Exhausted-cons exclude i u' rest.0 n (f.exhausted e);
  probes = (p, f.probes);
  choice = λ j e. IsHit-cons exclude i u' rest.0 j (f.choice j e);
}

Found-here :
    (exclude : List ℕ) (i now : ℕ) (u : Upstream) (us : List Upstream)
    → contains_index exclude i ≡ false
    → (eligible u now).1 ≡ true
    → Found exclude i (u ∷ us) ((eligible u now).0 ∷ us, some i)
Found-here exclude i now u us included ready = record {
  probes = (eligible-Probed u now, Probes-refl us);
  exhausted = λ e. absurd (ground arith);
  choice = λ j e. record {
    offset = 0;
    upstream = (eligible u now).0;
    index = ground arith;
    included = let same : i ≡ j = cc in rw same at included;
    at = refl;
    ready = (eligible_iff u now).0 ready;
  };
}

pub not-IsReady_of_miss :
    (u : Upstream) (now : ℕ) → (eligible u now).1 ≡ false → ¬ IsReady (eligible u now).0
not-IsReady_of_miss u now e r = absurd (ground (arith, (eligible_iff u now).1 r))

pub first_eligible-Found :
    (clock : ℕ → ℕ) (exclude : List ℕ) (i : ℕ) (us : List Upstream)
    → Found exclude i us (first_eligible clock exclude i us)
unfolding first_eligible
first_eligible-Found clock exclude i [] = record {
  probes = tt;
  choice = λ j e. absurd (ground arith);
  exhausted = λ e m u at. absurd (ground arith);
}
first_eligible-Found clock exclude i (u ∷ us) =
    let rest = first_eligible-Found clock exclude (suc i) us in
    elim (Bool-cases (contains_index exclude i)) [
      | inl out ↦
          rw out (Found-cons exclude i u u us _ (Probed-refl u) (λ e. absurd (ground arith)) rest)
      | inr included ↦ rw included (elim (Bool-cases (eligible u (clock i)).1) [
        | inl hit ↦ rw hit (Found-here exclude i (clock i) u us included hit)
        | inr miss ↦ rw miss (
            Found-cons exclude i u _ us _ (eligible-Probed u (clock i))
              (λ _. not-IsReady_of_miss u (clock i) miss) rest)
      ])
    ]

IsChoice-first :
    (exclude : List ℕ) (us : List Upstream) (found : Option ℕ)
    → ((j : ℕ) → found ≡ some j → IsHit exclude 0 us j)
    → IsChoice exclude us found
IsChoice-first exclude us none h = tt
IsChoice-first exclude us (some j) h =
    let hit = h j refl in
    let same : hit.offset ≡ j = omega (arith, hit.index) in
    record {
      included = hit.included;
      upstream = hit.upstream;
      at = rw same at hit.at;
      ready = hit.ready;
    }

Found-Ran :
    (exclude : List ℕ) (b : Balancer) (result : List Upstream × Option ℕ)
    → Found exclude 0 b.upstreams result
    → Ran exclude b (some (record b { upstreams = result.0 }, result.1))
Found-Ran exclude b result f = record {
  after = record b { upstreams = result.0 };
  found = result.1;
  runs = refl;
  scanned = record { probes = f.probes; strategy = refl; order = refl };
  choice = IsChoice-first exclude result.0 result.1 f.choice;
}

-- A pick answers with a choice, and with none only where no upstream that is not excluded is ready.
pub record Picks (exclude : List ℕ) (b : Balancer) (result : Option (Balancer × Option ℕ))
    : Type 0 where
  pub ran : Ran exclude b result
  pub exhausted : ran.found ≡ none → Exhausted exclude 0 ran.after.upstreams

pub Found-Picks :
    (exclude : List ℕ) (b : Balancer) (result : List Upstream × Option ℕ)
    → Found exclude 0 b.upstreams result
    → Picks exclude b (some (record b { upstreams = result.0 }, result.1))
unfolding Found-Ran
Found-Picks exclude b result f = record {
  ran = Found-Ran exclude b result f;
  exhausted = f.exhausted;
}

pub Picks-step :
    (exclude : List ℕ) (b c : Balancer) (result result' : Option (Balancer × Option ℕ))
    → result ≡ result'
    → Scanned b c
    → Picks exclude c result'
    → Picks exclude b result
unfolding Ran-step
Picks-step exclude b c result result' e s p = record {
  ran = Ran-step exclude b c result result' e s p.ran;
  exhausted = p.exhausted;
}
