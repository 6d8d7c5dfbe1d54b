-- ===== src/Base/Separators.antt =====
-- Texts put together around a separating byte.
use Prim.Native.Nat.{ℕ}
use mathlib.Core.Path.{◌≡◌, refl}
use mathlib.Core.Logic.{◌≢◌}
use mathlib.Core.List.{[], ◌∷◌, ◌++◌}
use native.Mathlib.Omega.{arith}
use rust_api_gateway.Base.Lists.{All}
use rust_api_gateway.Base.Text.{Str}

abbrev pub Lacks : ℕ → Str → Type 0
Lacks d = All (λ c. c ≢ d)

Lacks-append_right : (d : ℕ) (xs ys : Str) → Lacks d (xs ++ ys) → Lacks d ys
Lacks-append_right d [] ys h = h
Lacks-append_right d (x ∷ xs) ys h = Lacks-append_right d xs ys h.1

not-Lacks_within : (d : ℕ) (b t : Str) → ¬ Lacks d (b ++ (d ∷ t))
not-Lacks_within d b t h = (Lacks-append_right d b (d ∷ t) h).0 refl

-- A text that lacks the separator is determined where the separator follows it.
pub eq_before :
    (d : ℕ) (a b s t : Str)
    → Lacks d a
    → Lacks d b
    → a ++ (d ∷ s) ≡ b ++ (d ∷ t)
    → (a ≡ b) × (s ≡ t)
eq_before d [] [] s t h k e = (refl, ground arith)
eq_before d [] (y ∷ b) s t h k e = absurd (ground (arith, k.0))
eq_before d (x ∷ a) [] s t h k e = absurd (ground (arith, h.0))
eq_before d (x ∷ a) (y ∷ b) s t h k e =
    let (p, q) = eq_before d a b s t h.1 k.1 (ground arith) in (ground arith, q)

-- So is one that follows it.
pub eq_after :
    (d : ℕ) (a b s t : Str)
    → Lacks d s
    → Lacks d t
    → a ++ (d ∷ s) ≡ b ++ (d ∷ t)
    → (a ≡ b) × (s ≡ t)
eq_after d [] [] s t h k e = (refl, ground arith)
eq_after d [] (y ∷ b) s t h k e =
    let same : s ≡ b ++ (d ∷ t) = ground arith in absurd (not-Lacks_within d b t (rw same at h))
eq_after d (x ∷ a) [] s t h k e =
    let same : t ≡ a ++ (d ∷ s) = ground arith in absurd (not-Lacks_within d a s (rw same at k))
eq_after d (x ∷ a) (y ∷ b) s t h k e =
    let (p, q) = eq_after d a b s t h k (ground arith) in (ground arith, q)
