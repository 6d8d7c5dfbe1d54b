-- ===== src/Breaker/Opening.antt =====
-- When a breaker opens, how long it rejects, and how many trials it lets through.
use rust_api_gateway.Base.{
  ℕ, ◌+◌, ◌≤◌, ◌<◌, ◌≡◌, refl, ◌↔◌, true, false, some, List, [], ◌∷◌, map, arith, max, u32_mod,
  length, All, Bool-cases, leb, add_u32, inl, inr,
}
use rust_api_gateway.Breaker.{
  closed, opened, half_open, CircuitBreaker, new, allow_at, Event, allows, succeeds, fails, step,
  run,
}
use rust_api_gateway.Breaker.Invariant.{IsSound, new-IsSound, step-IsSound}

fails-opened :
    (b : CircuitBreaker) (ts : List ℕ)
    → b.inner.state ≡ opened
    → (run b (map fails ts)).inner.state ≡ opened
unfolding run
fails-opened b [] h = h
fails-opened b (t ∷ ts) h = fails-opened (step b (fails t)) ts (ground arith)

fails-closed_iff :
    (b : CircuitBreaker) (ts : List ℕ)
    → IsSound b
    → b.inner.state ≡ closed
    → ((run b (map fails ts)).inner.state ≡ closed)
      ↔ (b.inner.consecutive_failures + length ts < b.threshold)
unfolding run
fails-closed_iff b [] v h = (λ _. omega (arith, v.below h), λ _. h)
fails-closed_iff b (t ∷ ts) v h = ground (
  arith,
  v.below,
  fails-opened (step b (fails t)) ts,
  fails-closed_iff (step b (fails t)) ts (step-IsSound b (fails t) v),
)

-- A new breaker with nothing but failures is closed exactly while they are fewer than the
-- threshold, which counts as 1 where it is 0, and open from then on.
pub fails-new_iff :
    (t secs : ℕ) (times : List ℕ)
    → t < u32_mod
    → ((run (new t secs) (map fails times)).inner.state ≡ closed) ↔ (length times < max t 1)
unfolding new
fails-new_iff t secs times h =
    let (to, from) = fails-closed_iff (new t secs) times (new-IsSound t secs h) refl in
    (λ e. omega (arith, to e), λ k. from (omega arith))

-- A call before the instant, or a failure whose cooldown ends no earlier than it.
abbrev pub Early : ℕ → ℕ → Event → Type 0
Early u open_for (allows now) = now < u
Early u open_for succeeds = ⊥
Early u open_for (fails now) = u ≤ now + open_for

-- What such calls leave of an open breaker: it is open until `u` at least.
record HoldsUntil (u open_for : ℕ) (b : CircuitBreaker) : Type 0 where
  is_open : b.inner.state ≡ opened
  same : b.open_for ≡ open_for
  end : ℕ
  end_is : b.inner.open_until ≡ some end
  late : u ≤ end

step-HoldsUntil :
    (u d : ℕ) (b : CircuitBreaker) (e : Event)
    → HoldsUntil u d b
    → Early u d e
    → HoldsUntil u d (step b e)
unfolding step
step-HoldsUntil u d b (allows now) h a = record {
  is_open = ground (arith, h.end_is, h.late, h.is_open);
  same = ground arith;
  end = h.end;
  end_is = ground arith;
  late = h.late;
}
step-HoldsUntil u d b (fails now) h a =
    elim (Bool-cases (leb b.threshold (add_u32 b.inner.consecutive_failures 1))) [
      | inl again ↦ record {
        is_open = ground (arith, h.is_open);
        same = ground (arith, h.same);
        end = now + d;
        end_is = ground (arith, h.same);
        late = a;
      }
      | inr wrapped ↦ record {
        is_open = ground (arith, h.is_open);
        same = ground (arith, h.same);
        end = h.end;
        end_is = ground (arith, h.is_open, h.end_is);
        late = h.late;
      }
    ]
step-HoldsUntil u d b succeeds h a = absurd a

run-HoldsUntil :
    (u d : ℕ) (b : CircuitBreaker) (es : List Event)
    → HoldsUntil u d b
    → All (Early u d) es
    → HoldsUntil u d (run b es)
unfolding run
run-HoldsUntil u d b [] h a = h
run-HoldsUntil u d b (e ∷ es) h a =
    run-HoldsUntil u d (step b e) es (step-HoldsUntil u d b e h a.0) a.1

-- An open breaker rejects every request before its instant, whatever requests and further
-- failures come in between, as long as no call succeeds.
pub allow_at-opened :
    (b : CircuitBreaker) (u : ℕ) (es : List Event) (now : ℕ)
    → b.inner.state ≡ opened
    → b.inner.open_until ≡ some u
    → All (Early u b.open_for) es
    → now < u
    → (allow_at (run b es) now).1 ≡ false
unfolding allow_at
allow_at-opened b u es now h k a l =
    let x =
      run-HoldsUntil u b.open_for b es
        (record { is_open = h; same = refl; end = u; end_is = k; late = omega arith }) a in
    ground (arith, x.is_open, x.end_is, x.late)

-- On trial, and still so after requests alone.
allows-half_open :
    (b : CircuitBreaker) (ts : List ℕ)
    → b.inner.state ≡ half_open
    → (run b (map allows ts)).inner.state ≡ half_open
unfolding run
allows-half_open b [] h = h
allows-half_open b (t ∷ ts) h = allows-half_open (step b (allows t)) ts (ground arith)

-- Once the cooldown has elapsed, and until a call reports its outcome, every request is let
-- through, however many there are and whenever they come: the trial is not a single one.
pub allow_at-trials :
    (b : CircuitBreaker) (u t : ℕ) (ts : List ℕ) (now : ℕ)
    → b.inner.state ≡ opened
    → b.inner.open_until ≡ some u
    → u ≤ t
    → ((allow_at b t).1 ≡ true) × ((allow_at (run b (allows t ∷ map allows ts)) now).1 ≡ true)
unfolding run
allow_at-trials b u t ts now h k l =
    let trial = allows-half_open (step b (allows t)) ts (ground arith) in
    (ground arith, ground (arith, trial))
