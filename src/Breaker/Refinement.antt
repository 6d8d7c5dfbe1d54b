-- ===== src/Breaker/Refinement.antt =====
-- The breaker as the three phases that its module comment describes, and that the code with its
-- counter and its optional instant implements them.
use rust_api_gateway.Base.{
  ℕ, ◌+◌, ◌≤◌, ◌<◌, ◌≡◌, ◌≢◌, ◌∙◌, ap, refl, Bool, true, Option, none, some, List, [], ◌∷◌, arith,
  max, u32_mod, from_secs, length, leb, if◌then◌else◌,
}
use rust_api_gateway.Breaker.{
  BreakerState, closed, opened, half_open, CircuitBreaker, new, allow_at, Event, allows, succeeds,
  fails, step, run,
}
use rust_api_gateway.Breaker.Invariant.{IsSound, new-IsSound, step-IsSound, run-new-IsSound}

-- Closed after so many consecutive failures, open until an instant, or on trial.
pub data Phase : Type 0 where
  counting : (failures : ℕ) → Phase
  waiting : (until : ℕ) → Phase
  trying : Phase

-- What a phase answers to a request for a call.
abbrev pub admits : Phase → ℕ → Bool
admits (counting n) now = true
admits (waiting until) now = leb until now
admits trying now = true

module _ (threshold open_for : ℕ) where
  abbrev pub next : Phase → Event → Phase
  next p succeeds = counting 0
  next (counting n) (allows now) = counting n
  next (waiting until) (allows now) = if leb until now then trying else waiting until
  next trying (allows now) = trying
  next (counting n) (fails now) =
      if leb threshold (n + 1) then waiting (now + open_for) else counting (n + 1)
  next (waiting until) (fails now) = waiting (now + open_for)
  next trying (fails now) = waiting (now + open_for)

  abbrev pub next_all : Phase → List Event → Phase
  next_all p [] = p
  next_all p (e ∷ es) = next_all (next p e) es

abbrev until_of : Option ℕ → ℕ
until_of none = 0
until_of (some u) = u

abbrev phase_in : BreakerState → CircuitBreaker → Phase
phase_in closed b = counting b.inner.consecutive_failures
phase_in opened b = waiting (until_of b.inner.open_until)
phase_in half_open b = trying

abbrev pub phase_of : CircuitBreaker → Phase
phase_of b = phase_in b.inner.state b

-- After `n` calls the counter is at most `n`, and a breaker that is not closed has counted up to
-- its threshold.
record Counted (n : ℕ) (b : CircuitBreaker) : Type 0 where
  sound : IsSound b
  bounded : b.inner.consecutive_failures ≤ n
  tripped : b.inner.state ≢ closed → b.threshold ≤ b.inner.consecutive_failures

step-Counted :
    (n : ℕ) (b : CircuitBreaker) (e : Event)
    → n + 1 < u32_mod
    → Counted n b
    → Counted (n + 1) (step b e)
unfolding step
step-Counted n b (allows now) h c = record {
  sound = step-IsSound b (allows now) c.sound;
  bounded = ground arith;
  tripped = ground arith;
}
step-Counted n b succeeds h c = record {
  sound = step-IsSound b succeeds c.sound;
  bounded = ground arith;
  tripped = ground arith;
}
step-Counted n b (fails now) h c = record {
  sound = step-IsSound b (fails now) c.sound;
  bounded = ground arith;
  tripped = ground arith;
}

-- One call moves the breaker to the next phase, and its settings stay.
step-next :
    (n : ℕ) (b : CircuitBreaker) (e : Event)
    → n + 1 < u32_mod
    → Counted n b
    → (phase_of (step b e) ≡ next b.threshold b.open_for (phase_of b) e)
      × ((step b e).threshold ≡ b.threshold)
      × ((step b e).open_for ≡ b.open_for)
unfolding step
step-next n b (allows now) h c = (ground (arith, c.sound.ends), ground arith, ground arith)
step-next n b succeeds h c = (ground arith, ground arith, ground arith)
step-next n b (fails now) h c = (ground arith, ground arith, ground arith)

-- Along a run of fewer than 2^32 calls.
run-next :
    (n : ℕ) (b : CircuitBreaker) (es : List Event)
    → n + length es < u32_mod
    → Counted n b
    → (phase_of (run b es) ≡ next_all b.threshold b.open_for (phase_of b) es)
unfolding run
run-next n b [] h c = refl
run-next n b (e ∷ es) h c =
    let here = step-next n b e (omega arith) c in
    let later = run-next (n + 1) (step b e) es (omega arith) (step-Counted n b e (omega arith) c) in
    later ∙ (λ i. next_all (here.1 i) (here.2 i) (here.0 i) es)

new-Counted : (t secs : ℕ) → t < u32_mod → Counted 0 (new t secs)
unfolding new
new-Counted t secs h = record {
  sound = new-IsSound t secs h;
  bounded = omega arith;
  tripped = λ e. absurd (e refl);
}

allow_at-admits :
    (b : CircuitBreaker) (now : ℕ) → IsSound b → (allow_at b now).1 ≡ admits (phase_of b) now
unfolding allow_at
allow_at-admits b now v = ground (arith, v.ends)

-- Over fewer than 2^32 calls that return, in any order and with any clock readings, a breaker answers every
-- request as the three phases do: closed until the failures since the last success reach the
-- threshold (at least 1), then open for the cooldown (at least a second), in which each further
-- failure starts it anew, then on trial until a success or a failure.
pub allow_at-run :
    (t secs : ℕ) (es : List Event) (now : ℕ)
    → t < u32_mod
    → length es < u32_mod
    → (allow_at (run (new t secs) es) now).1
      ≡ admits (next_all (max t 1) (from_secs (max secs 1)) (counting 0) es) now
unfolding new
allow_at-run t secs es now h k =
    allow_at-admits (run (new t secs) es) now (run-new-IsSound t secs es h)
    ∙ ap (λ p. admits p now) (run-next 0 (new t secs) es (omega arith) (new-Counted t secs h))
