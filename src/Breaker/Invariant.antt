-- ===== src/Breaker/Invariant.antt =====
-- What holds of a breaker after every sequence of calls.
use rust_api_gateway.Base.{ℕ, ◌≤◌, ◌<◌, ◌≡◌, ◌≢◌, none, List, [], ◌∷◌, arith, u32_mod}
use rust_api_gateway.Breaker.{
  closed, opened, CircuitBreaker, new, Event, allows, succeeds, fails, step, run,
}

-- A closed breaker has counted fewer failures than its threshold, so its counter does not wrap;
-- an open one has a time at which it will try again.
pub record IsSound (b : CircuitBreaker) : Type 0 where
  pub positive : 1 ≤ b.threshold
  pub fits : b.threshold < u32_mod
  pub below : b.inner.state ≡ closed → b.inner.consecutive_failures < b.threshold
  pub ends : b.inner.state ≡ opened → b.inner.open_until ≢ none

pub new-IsSound : (threshold secs : ℕ) → threshold < u32_mod → IsSound (new threshold secs)
unfolding new
new-IsSound threshold secs h = record {
  positive = omega arith;
  fits = omega arith;
  below = λ _. omega arith;
  ends = λ e. cc;
}

pub step-IsSound : (b : CircuitBreaker) (e : Event) → IsSound b → IsSound (step b e)
unfolding step
step-IsSound b (allows now) v = ground arith
step-IsSound b succeeds v = ground arith
step-IsSound b (fails now) v = ground arith

pub run-IsSound : (b : CircuitBreaker) (es : List Event) → IsSound b → IsSound (run b es)
unfolding run
run-IsSound b [] v = v
run-IsSound b (e ∷ es) v = run-IsSound (step b e) es (step-IsSound b e v)

-- From its creation on, after whatever calls that return, made whenever: a breaker that is closed has
-- counted fewer consecutive failures than its threshold, which is at least 1, and a breaker that
-- is open has a time at which it tries again.
pub run-new-IsSound :
    (threshold secs : ℕ) (es : List Event)
    → threshold < u32_mod
    → IsSound (run (new threshold secs) es)
run-new-IsSound threshold secs es h = run-IsSound _ es (new-IsSound threshold secs h)
