-- ===== src/Breaker/Tests.antt =====
-- Tests of the circuit breaker, after those of the source.
use rust_api_gateway.Base.{ℕ, ◌≡◌, refl, true, false, some, [], ◌∷◌, map, arith, from_secs}
use rust_api_gateway.Breaker.{
  closed, opened, half_open, CircuitBreaker, new, allow_at, record_success, after_failure, allows,
  succeeds, fails, step, run, state_code,
}
use rust_api_gateway.Breaker.Invariant.{IsSound, run-new-IsSound}
use rust_api_gateway.Breaker.Refinement.{allow_at-run}
use rust_api_gateway.Breaker.Opening.{allow_at-trials}

runs : Unit {0}
unfolding new allow_at record_success after_failure step run state_code
runs = tt

abbrev secs : ℕ → ℕ
secs = from_secs

-- Three failures in a row open a breaker with the threshold 3.
opens_after_threshold :
    ((run (new 3 10) (fails 0 ∷ fails 0 ∷ [])).inner.state ≡ closed)
    × ((run (new 3 10) (fails 0 ∷ fails 0 ∷ fails 0 ∷ [])).inner.state ≡ opened)
    × ((allow_at (run (new 3 10) (fails 0 ∷ fails 0 ∷ fails 0 ∷ [])) 1).1 ≡ false)
unfolding runs
opens_after_threshold = (refl, refl, refl)

abbrev open_breaker : CircuitBreaker
open_breaker = record {
  threshold = 1;
  open_for = secs 10;
  inner = record { state = opened; consecutive_failures = 1; open_until = some (secs 10) };
}

opens : run (new 1 10) (fails 0 ∷ []) ≡ open_breaker
unfolding runs
opens = refl

half_open_after_cooldown_then_closes_on_success :
    ((allow_at open_breaker (secs 9)).1 ≡ false)
    × ((run open_breaker (allows (secs 11) ∷ [])).inner.state ≡ half_open)
    × ((run open_breaker (allows (secs 11) ∷ succeeds ∷ [])).inner.state ≡ closed)
unfolding runs
half_open_after_cooldown_then_closes_on_success = (refl, refl, refl)

half_open_failure_reopens :
    (run open_breaker (allows (secs 11) ∷ fails (secs 11) ∷ [])).inner.state ≡ opened
unfolding runs
half_open_failure_reopens = refl

codes : (state_code closed ≡ 0) × (state_code half_open ≡ 1) × (state_code opened ≡ 2)
unfolding runs
codes = (refl, refl, refl)

run-new-IsSound_example : IsSound (run (new 3 10) (fails 0 ∷ allows 1 ∷ succeeds ∷ []))
run-new-IsSound_example = run-new-IsSound 3 10 (fails 0 ∷ allows 1 ∷ succeeds ∷ []) (omega arith)

allow_at-run_example : (allow_at (run (new 1 10) (fails 0 ∷ [])) (secs 9)).1 ≡ false
allow_at-run_example = allow_at-run 1 10 (fails 0 ∷ []) (secs 9) (omega arith) (omega arith)

allow_at-trials_example :
    ((allow_at open_breaker (secs 11)).1 ≡ true)
    × ((allow_at
          (run open_breaker (allows (secs 11) ∷ map allows (secs 11 ∷ secs 11 ∷ [])))
          (secs 11)).1
        ≡ true)
allow_at-trials_example =
    allow_at-trials open_breaker (secs 10) (secs 11) (secs 11 ∷ secs 11 ∷ []) (secs 11) refl refl
      (omega arith)
