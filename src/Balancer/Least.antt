-- ===== src/Balancer/Least.antt =====
-- The least-connections strategy.
use rust_api_gateway.Base.{
  ℕ, zero, suc, ◌+◌, ◌≤◌, ◌≡◌, refl, ◌⊎◌, inl, inr, false, Option, none, some, List, [], ◌∷◌,
  get_elem?, arith, Bool-cases,
}
use rust_api_gateway.Balancer.{
  Upstream, Balancer, contains_index, eligible, keep_min, signed_key, least_from, pick_least_conn,
}
use rust_api_gateway.Balancer.Probe.{
  Probed, IsReady, Probed-refl, eligible-Probed, eligible_iff, Probes,
}
use native.Mathlib.Nat.{zero-add}
use rust_api_gateway.Balancer.Scan.{
  IsHit, IsHit-cons, Exhausted, Exhausted-cons, Found, Picks, Found-Picks, not-IsReady_of_miss,
}
use rust_api_gateway.Balancer.Candidate.{Updates, Updates-miss, Updates-Probed}

-- The answer has the least key of the candidate before and of all that are ready.
record IsLeast (exclude : List ℕ) (i : ℕ) (best : Option (ℕ × ℕ)) (us : List Upstream) (j : ℕ)
    : Type 0 where
  key : ℕ
  source :
      (best ≡ some (j, key)) ⊎ ((h : IsHit exclude i us j) × (signed_key h.upstream.active ≡ key))
  below : (j' key' : ℕ) → best ≡ some (j', key') → key ≤ key'
  least :
      (m : ℕ) (u : Upstream)
      → get_elem? us m ≡ some u
      → contains_index exclude (i + m) ≡ false
      → IsReady u
      → key ≤ signed_key u.active

record LeastFrom (exclude : List ℕ) (i : ℕ) (best : Option (ℕ × ℕ)) (us : List Upstream)
    (result : List Upstream × Option ℕ) : Type 0 where
  probes : Probes us result.0
  choice : (j : ℕ) → result.1 ≡ some j → IsLeast exclude i best result.0 j
  exhausted : result.1 ≡ none → (best ≡ none) × Exhausted exclude i result.0

IsLeast-source :
    (exclude : List ℕ) (i : ℕ) (u : Upstream) (best best' : Option (ℕ × ℕ)) (us : List Upstream)
    (j : ℕ)
    → Updates exclude i u best best'
    → (l : IsLeast exclude (suc i) best' us j)
    → (best ≡ some (j, l.key))
      ⊎ ((h : IsHit exclude i (u ∷ us) j) × (signed_key h.upstream.active ≡ l.key))
unfolding IsHit-cons
IsLeast-source exclude i u best best' us j up l = elim l.source [
  | inr (h, e) ↦ inr (IsHit-cons exclude i u us j h, e)
  | inl e ↦ elim (up.from j l.key e) [
    | inl old ↦ inl old
    | inr (here, same, c, r) ↦ inr (
      record {
        offset = 0;
        upstream = u;
        index = omega arith;
        included = rw here c;
        at = refl;
        ready = r;
      },
      same,
    )
  ]
]

IsLeast-least :
    (exclude : List ℕ) (i : ℕ) (u : Upstream) (best best' : Option (ℕ × ℕ)) (us : List Upstream)
    (j : ℕ)
    → Updates exclude i u best best'
    → (l : IsLeast exclude (suc i) best' us j) → (m : ℕ) (v : Upstream)
    → get_elem? (u ∷ us) m ≡ some v
    → contains_index exclude (i + m) ≡ false
    → IsReady v
    → l.key ≤ signed_key v.active
IsLeast-least exclude i u best best' us j up l zero v e c r =
    let here : i + 0 ≡ i = omega arith in
    let same : u ≡ v = cc in
    let (j', key', found, le) = up.covers (rw here at c) (rw (← same) at r) in
    rw (← same) (omega (arith, l.below j' key' found, le))
IsLeast-least exclude i u best best' us j up l (suc m) v e c r =
    let next : i + suc m ≡ suc i + m = omega arith in l.least m v e (rw next at c) r

LeastFrom-cons :
    (exclude : List ℕ) (i : ℕ) (u u' : Upstream) (best best' : Option (ℕ × ℕ)) (us : List Upstream)
    (rest : List Upstream × Option ℕ)
    → Probed u u'
    → Updates exclude i u' best best'
    → LeastFrom exclude (suc i) best' us rest
    → LeastFrom exclude i best (u ∷ us) (u' ∷ rest.0, rest.1)
LeastFrom-cons exclude i u u' best best' us rest p up f = record {
  probes = (p, f.probes);
  choice = λ j e.
      let l = f.choice j e in
      record {
        key = l.key;
        source = IsLeast-source exclude i u' best best' rest.0 j up l;
        below = λ j' key' b.
            let (j2, key2, found, le) = up.keeps j' key' b in
            omega (arith, l.below j2 key2 found, le);
        least = IsLeast-least exclude i u' best best' rest.0 j up l;
      };
  exhausted = λ e.
      let (gone, ex) = f.exhausted e in
      (
        was_none best best' up gone,
        Exhausted-cons exclude i u' rest.0
            (λ c r. let (j2, key2, found, _) = up.covers c r in absurd (ground arith)) ex,
      );
}
  where
    was_none : (b b' : Option (ℕ × ℕ)) → Updates exclude i u' b b' → b' ≡ none → b ≡ none
    was_none none b' w e = refl
    was_none (some (j0, k0)) b' w e =
        let (j2, key2, found, _) = w.keeps j0 k0 refl in absurd (ground arith)

least_from-LeastFrom :
    (clock : ℕ → ℕ) (exclude : List ℕ) (i : ℕ) (best : Option (ℕ × ℕ)) (us : List Upstream)
    → LeastFrom exclude i best us (least_from clock exclude i best us)
unfolding least_from
least_from-LeastFrom clock exclude i none [] = record {
  probes = tt;
  choice = λ j e. absurd (ground arith);
  exhausted = λ e. (refl, λ m u at. absurd (ground arith));
}
least_from-LeastFrom clock exclude i (some (j0, k0)) [] = record {
  probes = tt;
  choice = λ j e. record {
    key = k0;
    source = inl (ground arith);
    below = λ j' key' b. ground arith;
    least = λ m u at. absurd (ground arith);
  };
  exhausted = λ e. absurd (ground arith);
}
least_from-LeastFrom clock exclude i best (u ∷ us) = elim (Bool-cases (contains_index exclude i)) [
  | inl out ↦ rw out (
      LeastFrom-cons exclude i u u best best us _ (Probed-refl u)
        (Updates-miss exclude i u best (λ e. absurd (ground arith)))
        (least_from-LeastFrom clock exclude (suc i) best us))
  | inr included ↦ rw included (elim (Bool-cases (eligible u (clock i)).1) [
    | inl hit ↦ rw hit (
        LeastFrom-cons exclude i u _ best _ us _ (eligible-Probed u (clock i))
          (Updates-Probed exclude i u _ best (eligible-Probed u (clock i)) included
            ((eligible_iff u (clock i)).0 hit))
          (least_from-LeastFrom clock exclude (suc i) (keep_min best i (signed_key u.active)) us))
    | inr miss ↦ rw miss (
        LeastFrom-cons exclude i u _ best best us _ (eligible-Probed u (clock i))
          (Updates-miss exclude i _ best (λ _. not-IsReady_of_miss u (clock i) miss))
          (least_from-LeastFrom clock exclude (suc i) best us))
  ])
]

LeastFrom-Found :
    (exclude : List ℕ) (us : List Upstream) (result : List Upstream × Option ℕ)
    → LeastFrom exclude 0 none us result
    → Found exclude 0 us result
LeastFrom-Found exclude us result f = record {
  probes = f.probes;
  choice = λ j e. elim (f.choice j e).source [ inl b ↦ absurd (ground arith) | inr (h, _) ↦ h ];
  exhausted = λ e. (f.exhausted e).1;
}

pub pick_least_conn-Picks :
    (clock : ℕ → ℕ) (exclude : List ℕ) (b : Balancer)
    → Picks exclude b (pick_least_conn clock exclude b)
unfolding pick_least_conn
pick_least_conn-Picks clock exclude b =
    Found-Picks exclude b _ (
      LeastFrom-Found exclude b.upstreams _ (least_from-LeastFrom clock exclude 0 none b.upstreams))

IsLeast-fewest :
    (exclude : List ℕ) (us : List Upstream) (i : ℕ)
    → IsLeast exclude 0 none us i
    → (u : Upstream) × (get_elem? us i ≡ some u)
      × IsReady u
      × ((m : ℕ) (v : Upstream)
          → get_elem? us m ≡ some v
          → contains_index exclude m ≡ false
          → IsReady v
          → signed_key u.active ≤ signed_key v.active)
IsLeast-fewest exclude us i l = elim l.source [
  | inl b ↦ absurd (ground arith)
  | inr (h, e) ↦
      let same : h.offset ≡ i = omega (arith, h.index) in
      (
        h.upstream,
        rw same at h.at,
        h.ready,
        λ m v at c r. rw e (l.least m v at (rw (zero-add m) c) r),
      )
]

-- The least-connections strategy picks an upstream with the fewest requests in flight: of all
-- upstreams that are not excluded and that the scan left ready, none has a smaller count, read as
-- the signed number that it is.
pub pick_least_conn-least :
    (clock : ℕ → ℕ) (exclude : List ℕ) (b b' : Balancer) (i : ℕ)
    → pick_least_conn clock exclude b ≡ some (b', some i)
    → (u : Upstream) × (get_elem? b'.upstreams i ≡ some u)
      × IsReady u
      × ((m : ℕ) (v : Upstream)
          → get_elem? b'.upstreams m ≡ some v
          → contains_index exclude m ≡ false
          → IsReady v
          → signed_key u.active ≤ signed_key v.active)
unfolding pick_least_conn
pick_least_conn-least clock exclude b b' i e =
    let scan = least_from clock exclude 0 none b.upstreams in
    let f = least_from-LeastFrom clock exclude 0 none b.upstreams in
    let same : scan.0 ≡ b'.upstreams = ground arith in
    let (u, at, ready, least) = IsLeast-fewest exclude scan.0 i (f.choice i (ground arith)) in
    (u, rw same at at, ready, λ m v e' c r. least m v (rw (← same) at e') c r)
