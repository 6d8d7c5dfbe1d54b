-- ===== src/Proxy/Retries.antt =====
-- What holds of every run of the retry loop of `route_and_proxy`.
use rust_api_gateway.Base.{
  ℕ, ◌+◌, ◌≤◌, ◌<◌, ◌≡◌, ◌≢◌, refl, ◌⊎◌, inl, inr, Bool, true, false, ◌||◌, Option, some, List, [],
  ◌∷◌, ◌++◌, Str, All, length, arith, IsEarly, ◌==◌, ==_iff,
}
use rust_api_gateway.Balancer.{Balancer, contains_index}
use rust_api_gateway.Balancer.Order.{IsBalancer}
use rust_api_gateway.Proxy.{is_idempotent, max_attempts}
use rust_api_gateway.Proxy.Attempts.{
  Exchange, responds, fails, Outcome, no_healthy_upstream, all_attempts_failed, Ran, retryable,
  answer, retry_loop,
}
use rust_api_gateway.Proxy.Instants.{IsBrief}
use rust_api_gateway.Proxy.Trail.{SameShape, Trail, stops, answers, retries, attempts-Trail_from}

max_attempts-positive : (n : ℕ) → 0 < max_attempts n
unfolding max_attempts
max_attempts-positive n = omega arith

contains_index-append :
    (xs : List ℕ) (i j : ℕ) → contains_index (xs ++ (i ∷ [])) j ≡ (contains_index xs j || (i == j))
contains_index-append [] i j = ground arith
contains_index-append (x ∷ xs) i j = ground (arith, contains_index-append xs i j)

-- Each upstream once.
abbrev pub AllDifferent : {R : Type 0} → List (ℕ × Exchange R) → Type 0
AllDifferent [] = Unit
AllDifferent ((i, x) ∷ l) = All (λ p. i ≢ p.0) l × AllDifferent l

-- Every result but the last is an error of connecting.
abbrev pub AllConnectErrors : {R : Type 0} → List (ℕ × Exchange R) → Type 0
AllConnectErrors [] = Unit
AllConnectErrors ((i, x) ∷ []) = Unit
AllConnectErrors ((i, x) ∷ y ∷ l) = (x ≡ fails true) × AllConnectErrors (y ∷ l)

-- The outcome is the answer to the last result, or that no upstream was left.
abbrev pub IsAnswer : {R : Type 0} → List (ℕ × Exchange R) → Outcome R → Type 0
IsAnswer [] o = o ≡ no_healthy_upstream
IsAnswer ((i, x) ∷ []) o = (o ≡ answer x) ⊎ (o ≡ no_healthy_upstream)
IsAnswer ((i, x) ∷ y ∷ l) o = IsAnswer (y ∷ l) o

excluded_later :
    {R : Type 0} (xs : List ℕ) (i : ℕ) (l : List (ℕ × Exchange R))
    → All (λ p. contains_index (xs ++ (i ∷ [])) p.0 ≡ false) l
    → All (λ p. contains_index xs p.0 ≡ false) l × All (λ p. i ≢ p.0) l
excluded_later xs i [] a = (tt, tt)
excluded_later xs i (p ∷ l) a =
    let (b, c) = excluded_later xs i l a.1 in
    let split = contains_index-append xs i p.0 in
    ((ground (arith, a.0), b), (λ e. absurd (ground (arith, a.0, ==_iff i p.0)), c))

module _ {R : Type 0} (exchange : ℕ → Str → Exchange R) (during : ℕ → Balancer → Balancer)
    (clock : ℕ → ℕ → ℕ) (failed_at : ℕ → ℕ) (idempotent : Bool) (max : ℕ) where
  abbrev On : ℕ → List ℕ → Balancer → List (ℕ × Exchange R) → Outcome R → Balancer → Type 0
  On = Trail exchange during clock failed_at idempotent max

  Trail-included :
      {n : ℕ} {excluded : List ℕ} {b c : Balancer} {l : List (ℕ × Exchange R)} {o : Outcome R}
      → On n excluded b l o c
      → All (λ p. contains_index excluded p.0 ≡ false) l × AllDifferent l
  Trail-included (stops n excluded b b' missed r) = (tt, tt)
  Trail-included (answers n excluded b b' i x c no_more) = ((c.included, tt), (tt, tt))
  Trail-included (retries n excluded b b' b'' i x l o c more t) =
      let (later, different) = Trail-included t in
      let (a, apart) = excluded_later excluded i l later in ((c.included, a), (apart, different))

  Trail-length :
      {n : ℕ} {excluded : List ℕ} {b c : Balancer} {l : List (ℕ × Exchange R)} {o : Outcome R}
      → On n excluded b l o c
      → n < max
      → n + length l ≤ max
  Trail-length (stops n excluded b b' missed r) lt = omega arith
  Trail-length (answers n excluded b b' i x c no_more) lt = omega arith
  Trail-length (retries n excluded b b' b'' i x l o c more t) lt =
      let rest = Trail-length t (ground arith) in omega (arith, rest)

  Trail-IsAnswer :
      {n : ℕ} {excluded : List ℕ} {b c : Balancer} {l : List (ℕ × Exchange R)} {o : Outcome R}
      → On n excluded b l o c
      → IsAnswer l o
  Trail-IsAnswer (stops n excluded b b' missed r) = refl
  Trail-IsAnswer (answers n excluded b b' i x c no_more) = inl refl
  Trail-IsAnswer (retries n excluded b b' b'' i x [] o c more t) = inr (Trail-IsAnswer t)
  Trail-IsAnswer (retries n excluded b b' b'' i x (y ∷ l) o c more t) = Trail-IsAnswer t

  Trail-not_failed :
      {n : ℕ} {excluded : List ℕ} {b c : Balancer} {l : List (ℕ × Exchange R)} {o : Outcome R}
      → On n excluded b l o c
      → o ≢ all_attempts_failed
  unfolding answer
  Trail-not_failed (stops n excluded b b' missed r) e = cc
  Trail-not_failed (answers n excluded b b' i (responds s r) c no_more) e = cc
  Trail-not_failed (answers n excluded b b' i (fails f) c no_more) e = cc
  Trail-not_failed (retries n excluded b b' b'' i x l o c more t) e = Trail-not_failed t e

  Trail-not_idempotent :
      {n : ℕ} {excluded : List ℕ} {b c : Balancer} {l : List (ℕ × Exchange R)} {o : Outcome R}
      → On n excluded b l o c
      → idempotent ≡ false
      → AllConnectErrors l
  unfolding retryable
  Trail-not_idempotent (stops n excluded b b' missed r) e = tt
  Trail-not_idempotent (answers n excluded b b' i x c no_more) e = tt
  Trail-not_idempotent (retries n excluded b b' b'' i x [] o c more t) e = tt
  Trail-not_idempotent (retries n excluded b b' b'' i (responds s r) (y ∷ l) o c more t) e =
      absurd (ground arith)
  Trail-not_idempotent (retries n excluded b b' b'' i (fails f) (y ∷ l) o c more t) e =
      (ground arith, Trail-not_idempotent t e)

module _ {R : Type 0} (exchange : ℕ → Str → Exchange R) (during : ℕ → Balancer → Balancer)
    (clock : ℕ → ℕ → ℕ) (failed_at : ℕ → ℕ) (method : Str) (again : ℕ) (b : Balancer)
    (quiet : (m : ℕ) (c : Balancer) → SameShape c (during m c))
    (early : (m : ℕ) → IsEarly (failed_at m)) (v : IsBalancer b) (brief : IsBrief b) where
  abbrev run_of : Option (Ran R)
  run_of = retry_loop exchange during clock failed_at method again b

  -- On a usable balancer whose upstreams other tasks neither add to, remove, reorder nor give another
  -- cooldown, where no instant overflows (the failures are reported before 2^62 seconds and the cooldowns
  -- are at most that), the loop ends without a panic, whatever the upstreams answer. It is a trail: each
  -- upstream it tries was granted by a pick on the balancer that the attempt before it left, and not tried
  -- before; a result is retried exactly if it may be and attempts are left; and it gives up for want of
  -- an upstream only where that pick finds none ready that was not tried. The balancer keeps the number
  -- and the order of its upstreams, and their cooldowns.
  pub retry_loop-Trail :
      (r : Ran R) × (run_of ≡ some r)
      × Trail exchange during clock failed_at
          (is_idempotent method)
          (max_attempts again)
          0
          []
          b
          r.tried
          r.outcome
          r.balancer
      × SameShape b r.balancer
  unfolding retry_loop
  retry_loop-Trail =
      attempts-Trail_from exchange during clock failed_at (is_idempotent method)
        (max_attempts again) (max_attempts again) 0 [] b quiet early v brief (omega arith)
        (max_attempts-positive again)

  -- On such a balancer, with no instant that overflows, the loop makes at most one attempt more than the route's retries (in 32 bits, saturating), none
  -- of them on an upstream that it tried before, and answers with the last result or with the lack
  -- of an upstream: its final error, that all attempts failed, is never given.
  pub retry_loop-bounds :
      (r : Ran R) × (run_of ≡ some r)
      × (length r.tried ≤ max_attempts again)
      × AllDifferent r.tried
      × IsAnswer r.tried r.outcome
      × (r.outcome ≢ all_attempts_failed)
  retry_loop-bounds =
      let (r, runs, trail, _) = retry_loop-Trail in
      (
        r,
        runs,
        omega (arith, Trail-length _ _ _ _ _ _ trail (max_attempts-positive again)),
        (Trail-included _ _ _ _ _ _ trail).1,
        Trail-IsAnswer _ _ _ _ _ _ trail,
        Trail-not_failed _ _ _ _ _ _ trail,
      )

  -- On such a balancer, with no instant that overflows, a request whose method is not idempotent is sent again only after an error of connecting.
  pub retry_loop-not_idempotent :
      is_idempotent method ≡ false → (r : Ran R) × (run_of ≡ some r) × AllConnectErrors r.tried
  retry_loop-not_idempotent e =
      let (r, runs, trail, _) = retry_loop-Trail in
      (r, runs, Trail-not_idempotent _ _ _ _ _ _ trail e)
