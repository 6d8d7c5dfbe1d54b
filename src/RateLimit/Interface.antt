-- ===== src/RateLimit/Interface.antt =====
-- The trait RateLimiter of crates/gateway/src/ratelimit.rs: what its two implementations have in
-- common, as operations and laws.
use rust_api_gateway.Base.{
  ℕ, suc, ◌+◌, ◌-◌, min, ◌<◌, ◌≡◌, List, [], ◌∷◌, Str, length, All, arith, u32_mod, leb,
  if◌then◌else◌,
}
use rust_api_gateway.RateLimit.{RateDecision}

-- How many were allowed.
abbrev pub admitted : List RateDecision → ℕ
admitted [] = 0
admitted (d ∷ ds) = (if d.allowed then 1 else 0) + admitted ds

-- A limiter: a check of a key at a time, how often the key is counted, and when its window is open.
pub record RateLimiter (S : Type 0) : Type 1 where
  pub check : (now : ℕ) → S → (key : Str) (limit window : ℕ) → S × RateDecision
  pub used : Str → S → ℕ
  pub IsOpen : Str → ℕ → S → ℕ → Type 0
  pub counts :
      (now : ℕ) (s : S) (key : Str) (limit window : ℕ)
      → IsOpen key window s now
      → used key s + 1 < u32_mod
      → used key (check now s key limit window).0 ≡ suc (used key s)
  pub decides :
      (now : ℕ) (s : S) (key : Str) (limit window : ℕ)
      → IsOpen key window s now
      → used key s + 1 < u32_mod
      → (check now s key limit window).1.allowed ≡ leb (suc (used key s)) limit
  pub stays :
      (now later : ℕ) (s : S) (key : Str) (limit window : ℕ)
      → IsOpen key window s now
      → IsOpen key window s later
      → IsOpen key window (check now s key limit window).0 later

module _ {S : Type 0} (l : RateLimiter S) (key : Str) (limit window : ℕ) where
  -- The decisions on requests for the key at the given times.
  unfoldable pub checks : S → List ℕ → List RateDecision
  checks s [] = []
  checks s (t ∷ ts) = let (s', d) = l.check t s key limit window in d ∷ checks s' ts

  stay-IsOpen :
      (t : ℕ) (s : S) (ts : List ℕ)
      → l.IsOpen key window s t
      → All (l.IsOpen key window s) ts
      → All (l.IsOpen key window (l.check t s key limit window).0) ts
  stay-IsOpen t s [] o a = tt
  stay-IsOpen t s (u ∷ ts) o (v, a) = (l.stays t u s key limit window o v, stay-IsOpen t s ts o a)

  -- While the window of the key is open, the requests are counted on.
  pub admitted-checks :
      (s : S) (ts : List ℕ)
      → All (l.IsOpen key window s) ts
      → l.used key s + length ts < u32_mod
      → admitted (checks s ts) ≡ min limit (l.used key s + length ts) - min limit (l.used key s)
  unfolding checks
  admitted-checks s [] a h = omega arith
  admitted-checks s (t ∷ ts) (o, a) h =
      let counted = l.counts t s key limit window o (omega arith) in
      let allowed = l.decides t s key limit window o (omega arith) in
      let rest =
        admitted-checks (l.check t s key limit window).0 ts (stay-IsOpen t s ts o a)
          (omega (arith, counted)) in
      ground (arith, counted, allowed, rest)
