-- ===== src/Balancer/Candidate.antt =====
-- The candidate of `min_by_key` in the least-connections strategy, upstream by upstream.
use rust_api_gateway.Base.{
  ℕ, ◌≤◌, ◌≡◌, refl, subst, ◌⊎◌, inl, inr, false, Option, none, some, List, arith, Bool-cases, ltb,
}
use rust_api_gateway.Balancer.{Upstream, contains_index, keep_min, signed_key}
use rust_api_gateway.Balancer.Probe.{Probed, IsReady}

-- The candidate after one upstream, against the one before it.
pub record Updates (exclude : List ℕ) (i : ℕ) (u : Upstream) (best best' : Option (ℕ × ℕ))
    : Type 0 where
  pub from :
      (j key : ℕ)
      → best' ≡ some (j, key)
      → (best ≡ some (j, key))
        ⊎ ((j ≡ i) × (signed_key u.active ≡ key) × (contains_index exclude i ≡ false) × IsReady u)
  pub keeps :
      (j key : ℕ)
      → best ≡ some (j, key)
      → (j' : ℕ) × (key' : ℕ) × (best' ≡ some (j', key')) × (key' ≤ key)
  pub covers :
      contains_index exclude i ≡ false
      → IsReady u
      → (j' : ℕ) × (key' : ℕ) × (best' ≡ some (j', key')) × (key' ≤ signed_key u.active)

pub Updates-miss :
    (exclude : List ℕ) (i : ℕ) (u : Upstream) (best : Option (ℕ × ℕ))
    → (contains_index exclude i ≡ false → ¬ IsReady u)
    → Updates exclude i u best best
Updates-miss exclude i u best n = record {
  from = λ j key e. inl e;
  keeps = λ j key e. (j, key, e, omega arith);
  covers = λ c r. absurd (n c r);
}

Updates-hit :
    (exclude : List ℕ) (i : ℕ) (u : Upstream) (best : Option (ℕ × ℕ))
    → contains_index exclude i ≡ false
    → IsReady u
    → Updates exclude i u best (keep_min best i (signed_key u.active))
Updates-hit exclude i u none c r = record {
  from = λ j key e. inr (ground arith, ground arith, c, r);
  keeps = λ j key e. absurd (ground arith);
  covers = λ _ _. (i, signed_key u.active, refl, omega arith);
}
Updates-hit exclude i u (some (j0, least)) c r =
    elim (Bool-cases (ltb (signed_key u.active) least)) [
      | inl less ↦ record {
        from = λ j key e. inr (ground arith, ground arith, c, r);
        keeps = λ j key e. (i, signed_key u.active, ground arith, ground arith);
        covers = λ _ _. (i, signed_key u.active, ground arith, omega arith);
      }
      | inr more ↦ record {
        from = λ j key e. inl (ground arith);
        keeps = λ j key e. (j0, least, ground arith, ground arith);
        covers = λ _ _. (j0, least, ground arith, ground arith);
      }
    ]

pub Updates-Probed :
    (exclude : List ℕ) (i : ℕ) (u u' : Upstream) (best : Option (ℕ × ℕ))
    → Probed u u'
    → contains_index exclude i ≡ false
    → IsReady u'
    → Updates exclude i u' best (keep_min best i (signed_key u.active))
Updates-Probed exclude i u u' best p c r =
    subst (λ a. Updates exclude i u' best (keep_min best i (signed_key a))) p.active
      (Updates-hit exclude i u' best c r)
