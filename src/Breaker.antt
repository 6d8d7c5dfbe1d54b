-- ===== src/Breaker.antt =====
-- The circuit breaker of crates/gateway/src/breaker.rs. Each method holds the mutex from its first
-- line to its last, so calls from many tasks are a sequence of these steps. The clock is read by
-- the caller.
pub mod Invariant
pub mod Refinement
pub mod Opening
pub mod Tests
use rust_api_gateway.Base.{
  ℕ, ◌+◌, max, Bool, true, false, ◌||◌, ◌&&◌, instant_end, Option, none, some, List, [], ◌∷◌,
  add_u32, from_secs, if◌then◌else◌, leb,
}

pub data BreakerState : Type 0 where
  closed opened half_open : BreakerState

-- The encoding for the gauge.
unfoldable pub state_code : BreakerState → ℕ
state_code closed = 0
state_code half_open = 1
state_code opened = 2

pub record Inner : Type 0 where
  pub state : BreakerState
  pub consecutive_failures : ℕ
  pub open_until : Option ℕ

pub record CircuitBreaker : Type 0 where
  pub threshold : ℕ
  pub open_for : ℕ
  pub inner : Inner

unfoldable pub new : ℕ → ℕ → CircuitBreaker
new failure_threshold open_secs = record {
  threshold = max failure_threshold 1;
  open_for = from_secs (max open_secs 1);
  inner = record { state = closed; consecutive_failures = 0; open_until = none };
}

-- `open_until.map(|u| now >= u).unwrap_or(true)`
abbrev elapsed : Option ℕ → ℕ → Bool
elapsed none now = true
elapsed (some u) now = leb u now

abbrev is_half_open : BreakerState → Bool
is_half_open half_open = true
is_half_open closed = false
is_half_open opened = false

allow_in : BreakerState → CircuitBreaker → ℕ → CircuitBreaker × Bool
allow_in closed b now = (b, true)
allow_in half_open b now = (b, true)
allow_in opened b now =
    if elapsed b.inner.open_until now
    then (record b { inner = record (b.inner) { state = half_open } }, true)
    else (b, false)

unfoldable pub allow_at : CircuitBreaker → ℕ → CircuitBreaker × Bool
unfolding allow_in
allow_at b now = allow_in b.inner.state b now

unfoldable pub record_success : CircuitBreaker → CircuitBreaker
record_success b = record b {
  inner = record { state = closed; consecutive_failures = 0; open_until = none };
}

-- What `record_failure_at` leaves, where it returns.
unfoldable pub after_failure : CircuitBreaker → ℕ → CircuitBreaker
after_failure b now =
    let failures = add_u32 b.inner.consecutive_failures 1 in
    let counted = record (b.inner) { consecutive_failures = failures } in
    if is_half_open b.inner.state || leb b.threshold failures
    then record b {
      inner = record counted { state = opened; open_until = some (now + b.open_for) };
    }
    else record b { inner = counted }

-- Whether a failure opens the breaker.
abbrev pub trips : CircuitBreaker → Bool
trips b = is_half_open b.inner.state || leb b.threshold (add_u32 b.inner.consecutive_failures 1)

-- The instant at which an open breaker tries again may be too late for an `Instant`: a panic.
unfoldable pub record_failure_at : CircuitBreaker → ℕ → Option CircuitBreaker
record_failure_at b now =
    if trips b && leb instant_end (now + b.open_for) then none else some (after_failure b now)

-- The calls that return, which tasks make of a shared breaker, each with its clock reading.
pub data Event : Type 0 where
  allows : (now : ℕ) → Event
  succeeds : Event
  fails : (now : ℕ) → Event

unfoldable pub step : CircuitBreaker → Event → CircuitBreaker
unfolding allow_at record_success after_failure
step b (allows now) = (allow_at b now).0
step b succeeds = record_success b
step b (fails now) = after_failure b now

unfoldable pub run : CircuitBreaker → List Event → CircuitBreaker
unfolding step
run b [] = b
run b (e ∷ es) = run (step b e) es
