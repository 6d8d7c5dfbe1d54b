-- ===== src/Proxy/Attempts.antt =====
-- The retry loop of `route_and_proxy` in crates/gateway/src/proxy.rs. The exchange with an upstream
-- and what other tasks do to the balancer while it is awaited are parameters.
use rust_api_gateway.Base.{
  ℕ, zero, suc, ◌+◌, Bool, true, false, ◌&&◌, ◌||◌, Option, none, some, List, [], ◌∷◌, ◌++◌, Str,
  get_elem?, if◌then◌else◌, ltb, set,
}
use rust_api_gateway.Breaker.{
  CircuitBreaker, record_success, after_failure, record_failure_at, state_code,
}
use rust_api_gateway.Balancer.{Upstream, Balancer, pick, drop_guard}
use rust_api_gateway.Proxy.{is_server_error, is_idempotent, max_attempts}

-- What sending a request to an upstream comes to: a response with its status, or an error that is
-- one of connecting or not.
pub data Exchange (R : Type 0) : Type 0 where
  responds : (status : ℕ) (response : R) → Exchange R
  fails : (is_connect : Bool) → Exchange R

-- How the loop ends: with a response to finish, or with one of its three errors.
pub data Outcome (R : Type 0) : Type 0 where
  finishes : (status : ℕ) (response : R) → Outcome R
  no_healthy_upstream : Outcome R
  upstream_unavailable : Outcome R
  all_attempts_failed : Outcome R

-- A change of a metric in the loop, without the time that is observed.
pub data Note : Type 0 where
  upstream_latency : Note
  circuit_state : (url : Str) (code : ℕ) → Note
  upstream_error : Note

-- The balancer that the loop leaves, the upstreams that it tried with what came of them, its notes
-- and its end.
pub record Ran (R : Type 0) : Type 0 where
  pub balancer : Balancer
  pub tried : List (ℕ × Exchange R)
  pub notes : List Note
  pub outcome : Outcome R

abbrev told : Upstream → Option CircuitBreaker → Option Upstream
told u none = none
told u (some b) = some (record u { breaker = b })

-- The report to the breaker of the upstream.
unfoldable pub report_to : {R : Type 0} → Exchange R → ℕ → Upstream → Option Upstream
report_to (responds status r) now u =
    if is_server_error status
    then told u (record_failure_at u.breaker now)
    else some (record u { breaker = record_success u.breaker })
report_to (fails c) now u = told u (record_failure_at u.breaker now)

-- What such a report leaves, where it returns.
abbrev pub report : {R : Type 0} → Exchange R → ℕ → Upstream → Upstream
report (responds status r) now u = record u {
  breaker =
      if is_server_error status then after_failure u.breaker now else record_success u.breaker;
}
report (fails c) now u = record u { breaker = after_failure u.breaker now }

abbrev pub errors : {R : Type 0} → Exchange R → List Note
errors (responds status r) = if is_server_error status then upstream_error ∷ [] else []
errors (fails c) = upstream_error ∷ []

-- `can_retry`, but for the number of attempts.
unfoldable pub retryable : {R : Type 0} → Bool → Exchange R → Bool
retryable idempotent (responds status r) = is_server_error status && idempotent
retryable idempotent (fails is_connect) = idempotent || is_connect

-- The answer where there is no retry.
unfoldable pub answer : {R : Type 0} → Exchange R → Outcome R
answer (responds status r) = finishes status r
answer (fails c) = upstream_unavailable

module _ {R : Type 0} (exchange : ℕ → Str → Exchange R) (during : ℕ → Balancer → Balancer)
    (clock : ℕ → ℕ → ℕ) (failed_at : ℕ → ℕ) (idempotent : Bool) (max : ℕ) where
  -- The balancer with the report on the upstream, once its guard is dropped, and the notes.
  unfoldable pub settle : Exchange R → ℕ → ℕ → Balancer → Option (Balancer × List Note)
  settle x attempt idx b = elim (get_elem? b.upstreams idx) [
    | none ↦ none
    | some u ↦ elim (report_to x (failed_at attempt) u) [
      | none ↦ none
      | some u' ↦ some (
        record b { upstreams = set b.upstreams idx (drop_guard u') },
        upstream_latency ∷ circuit_state u.url (state_code u.breaker.inner.state) ∷ errors x,
      )
    ]
  ]

  abbrev pub prepend : (ℕ × Exchange R) → List Note → Option (Ran R) → Option (Ran R)
  prepend t notes none = none
  prepend t notes (some r) = some (record r { tried = t ∷ r.tried; notes = notes ++ r.notes })

  -- The attempts that are left, from one on. A guard is held until the round or the response ends;
  -- the breaker is not asked in between.
  unfoldable pub attempts : (left attempt : ℕ) → List ℕ → Balancer → Option (Ran R)
  attempts zero attempt excluded b =
      some (record { balancer = b; tried = []; notes = []; outcome = all_attempts_failed })
  attempts (suc left) attempt excluded b = elim (pick (clock attempt) excluded b) [
    | none ↦ none
    | some (b', none) ↦
        some (record { balancer = b'; tried = []; notes = []; outcome = no_healthy_upstream })
    | some (b', some idx) ↦ elim (get_elem? b'.upstreams idx) [
      | none ↦ none
      | some u ↦
          let x = exchange attempt u.url in
          elim (settle x attempt idx (during attempt b')) [
            | none ↦ none
            | some (b'', notes) ↦ elim (retryable idempotent x && ltb (attempt + 1) max) [
              | true ↦
                  prepend (idx, x) notes (attempts left (attempt + 1) (excluded ++ (idx ∷ [])) b'')
              | false ↦ some (record {
                balancer = b'';
                tried = (idx, x) ∷ [];
                notes = notes;
                outcome = answer x;
              })
            ]
          ]
    ]
  ]

-- The loop as the handler runs it.
unfoldable pub retry_loop :
    {R : Type 0} (exchange : ℕ → Str → Exchange R) (during : ℕ → Balancer → Balancer)
    (clock : ℕ → ℕ → ℕ) (failed_at : ℕ → ℕ) (method : Str) (retries : ℕ)
    → Balancer
    → Option (Ran R)
retry_loop exchange during clock failed_at method retries b =
    let max = max_attempts retries in
    attempts exchange during clock failed_at (is_idempotent method) max max 0 [] b
