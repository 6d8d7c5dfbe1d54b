-- ===== src/Balancer/Window.antt =====
-- Counting along a list that is read round and round.
use native.Mathlib.Nat.{mod-eq_of_lt}
use rust_api_gateway.Base.{
  ℕ, zero, suc, ◌+◌, ◌%◌, ◌<◌, ◌≡◌, refl, ap, ◌∙◌, List, [], ◌∷◌, length, arith, if◌then◌else◌,
  ◌==◌,
}
use rust_api_gateway.Balancer.Order.{count}

abbrev pub get_or : List ℕ → ℕ → ℕ
get_or [] k = 0
get_or (x ∷ xs) zero = x
get_or (x ∷ xs) (suc k) = get_or xs k

-- How often `i` is among `m` values of `f` from `c` on.
unfoldable pub hits : (ℕ → ℕ) → ℕ → ℕ → ℕ → ℕ
hits f i c zero = 0
hits f i c (suc m) = (if f c == i then 1 else 0) + hits f i (suc c) m

hits_last :
    (f : ℕ → ℕ) (i c m : ℕ) → hits f i c (suc m) ≡ hits f i c m + (if f (c + m) == i then 1 else 0)
unfolding hits
hits_last f i c zero = let here : c + 0 ≡ c = omega arith in rw here (omega arith)
hits_last f i c (suc m) =
    let next : c + suc m ≡ suc c + m = omega arith in
    rw next (omega (arith, hits_last f i (suc c) m))

-- A window as long as the period holds the same values wherever it begins.
hits_period :
    (f : ℕ → ℕ) (i n : ℕ) → ((k : ℕ) → f (k + n) ≡ f k) → (c : ℕ) → hits f i c n ≡ hits f i 0 n
unfolding hits
hits_period f i n p zero = refl
hits_period f i n p (suc c) = omega (
  arith,
  hits_period f i n p c,
  hits_last f i c n,
  ap {B = ℕ} (λ x. if x == i then 1 else 0) (p c),
)

hits-cong :
    (f g : ℕ → ℕ) (i c m : ℕ) → ((k : ℕ) → k < c + m → f k ≡ g k) → hits f i c m ≡ hits g i c m
unfolding hits
hits-cong f g i c zero h = refl
hits-cong f g i c (suc m) h = omega (
  arith,
  ap {B = ℕ} (λ x. if x == i then 1 else 0) (h c (omega arith)),
  hits-cong f g i (suc c) m (λ k l. h k (omega arith)),
)

hits-cons :
    (x : ℕ) (xs : List ℕ) (i c m : ℕ) → hits (get_or (x ∷ xs)) i (suc c) m ≡ hits (get_or xs) i c m
unfolding hits
hits-cons x xs i c zero = refl
hits-cons x xs i c (suc m) = omega (arith, hits-cons x xs i (suc c) m)

hits-count : (xs : List ℕ) (i : ℕ) → hits (get_or xs) i 0 (length xs) ≡ count i xs
unfolding hits
hits-count [] i = refl
hits-count (x ∷ xs) i = omega (arith, hits-cons x xs i 0 (length xs), hits-count xs i)

-- The list read from a cursor on, round and round.
abbrev pub turn : List ℕ → ℕ → ℕ
turn xs k = get_or xs (k % length xs)

-- One full turn from any cursor on holds each index as often as the list does.
pub hits-turn :
    (xs : List ℕ) (i c : ℕ) → 0 < length xs → hits (turn xs) i c (length xs) ≡ count i xs
hits-turn xs i c h =
    hits_period (turn xs) i (length xs) (λ k. ap (get_or xs) (grind (arith, h))) c
    ∙ hits-cong (turn xs) (get_or xs) i 0 (length xs)
        (λ k l. ap (get_or xs) (mod-eq_of_lt (omega arith)))
    ∙ hits-count xs i
