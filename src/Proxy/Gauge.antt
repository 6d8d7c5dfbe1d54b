-- ===== src/Proxy/Gauge.antt =====
-- The gauge of the breakers' states, which the retry loop of crates/gateway/src/proxy.rs sets.
use rust_api_gateway.Base.{
  ℕ, zero, suc, ◌+◌, ◌≡◌, ◌≢◌, refl, ap, ◌∙◌, inl, inr, Bool, ◌&&◌, Bool-cases, Option, none, some,
  Option-cases, List, [], ◌∷◌, ◌++◌, Str, All, All-append, get_elem?, get_elem?-set_self,
  lt-length_of_get, IsEarly, arith, ltb,
}
use rust_api_gateway.Breaker.{state_code, opened}
use rust_api_gateway.Balancer.{Upstream, Balancer, acquire_guard, pick}
use rust_api_gateway.Balancer.Order.{IsBalancer}
use rust_api_gateway.Balancer.Soundness.{Granted}
use rust_api_gateway.Balancer.Guards.{Granted-of_pick}
use rust_api_gateway.Proxy.{is_server_error, max_attempts, is_idempotent}
use rust_api_gateway.Proxy.Attempts.{
  Exchange, responds, fails, Ran, Note, upstream_latency, circuit_state, upstream_error, errors,
  report_to, retryable, settle, attempts, retry_loop,
}
use rust_api_gateway.Proxy.Instants.{IsBrief}
use rust_api_gateway.Proxy.Trail.{
  SameShape-IsBrief, SameShape, SameShape-trans, SameShape-IsBalancer, Granted-Turn,
  settle-SameShape,
}
use rust_api_gateway.Proxy.Retries.{retry_loop-Trail}

-- A note that does not set the gauge to that of an open breaker.
abbrev pub IsNotOpen : Note → Type 0
IsNotOpen upstream_latency = Unit
IsNotOpen (circuit_state url code) = code ≢ state_code opened
IsNotOpen upstream_error = Unit

-- The breaker of an upstream that was picked lets requests through.
Granted-lets_through :
    (exclude : List ℕ) (b b' : Balancer) (i : ℕ) (u : Upstream)
    → Granted exclude b b' i
    → get_elem? b'.upstreams i ≡ some u
    → u.breaker.inner.state ≢ opened
unfolding acquire_guard
Granted-lets_through exclude b b' i u g at =
    let c = g.chosen.upstream in
    let there : get_elem? b'.upstreams i ≡ some (acquire_guard c) =
      ap (λ x. get_elem? x.upstreams i) g.counted
      ∙ get_elem?-set_self g.before.upstreams i (acquire_guard c)
          (lt-length_of_get g.before.upstreams i c g.chosen.at) in
    let same : u ≡ acquire_guard c = ground (arith, at, there) in
    rw same g.chosen.ready.lets_through

state_code-opened :
    (u : Upstream)
    → u.breaker.inner.state ≢ opened
    → state_code u.breaker.inner.state ≢ state_code opened
unfolding state_code
state_code-opened u ready e = ground (arith, ready, e)

errors-IsNotOpen : {R : Type 0} (x : Exchange R) → All IsNotOpen (errors x)
errors-IsNotOpen (responds status r) = elim (Bool-cases (is_server_error status)) [
  | inl bad ↦ rw bad (tt, tt)
  | inr fine ↦ rw fine tt
]
errors-IsNotOpen (fails c) = (tt, tt)

module _ {R : Type 0} (exchange : ℕ → Str → Exchange R) (clock : ℕ → ℕ → ℕ) (failed_at : ℕ → ℕ)
    (idempotent : Bool) (max : ℕ) where
  -- Nobody else touches the balancer.
  abbrev alone : ℕ → Balancer → Balancer
  alone n b = b

  abbrev loop : ℕ → ℕ → List ℕ → Balancer → Option (Ran R)
  loop = attempts exchange alone clock failed_at idempotent max

  settle-IsNotOpen :
      (x : Exchange R) (n i : ℕ) (b b' : Balancer) (u : Upstream) (notes : List Note)
      → get_elem? b.upstreams i ≡ some u
      → u.breaker.inner.state ≢ opened
      → settle exchange alone clock failed_at idempotent max x n i b ≡ some (b', notes)
      → All IsNotOpen notes
  unfolding settle
  settle-IsNotOpen x n i b b' u notes at ready e =
      elim (Option-cases (report_to x (failed_at n) u)) [
        | inl panics ↦ absurd (ground (arith, e, at, panics))
        | inr (u', told) ↦
            let same : upstream_latency
                  ∷ circuit_state u.url (state_code u.breaker.inner.state)
                  ∷ errors x
                ≡ notes =
              ground (arith, e, at, told) in
            rw⁻¹ same (tt, (state_code-opened u ready, errors-IsNotOpen x))
      ]

  attempts-IsNotOpen :
      (left n : ℕ) (excluded : List ℕ) (b : Balancer) (r : Ran R)
      → ((m : ℕ) → IsEarly (failed_at m))
      → IsBalancer b
      → IsBrief b
      → loop left n excluded b ≡ some r
      → All IsNotOpen r.notes
  unfolding attempts
  attempts-IsNotOpen zero n excluded b r early v brief e =
      let none_noted : [] ≡ r.notes = ground (arith, e) in rw⁻¹ none_noted tt
  attempts-IsNotOpen (suc left) n excluded b r early v brief e =
      elim (Option-cases (pick (clock n) excluded b)) [
        | inl panics ↦ absurd (ground (arith, e, panics))
        | inr ((b', none), missed) ↦
            let none_noted : [] ≡ r.notes = ground (arith, e, missed) in rw⁻¹ none_noted tt
        | inr ((b', some i), hit) ↦
            let t =
              Granted-Turn excluded b b' i (Granted-of_pick (clock n) excluded b b' i v hit) in
            let x = exchange n t.upstream.url in
            let (b'', notes, done, shape) =
              settle-SameShape exchange alone clock failed_at idempotent max x n i b' (early n)
                (SameShape-IsBrief b b' t.shape brief)
                (lt-length_of_get b'.upstreams i t.upstream t.at) in
            let before =
              Granted-lets_through excluded b b' i t.upstream
                (Granted-of_pick (clock n) excluded b b' i v hit) t.at in
            let own = settle-IsNotOpen x n i b' b'' t.upstream notes t.at before done in
            let whole = SameShape-trans b b' b'' t.shape shape in
            let usable = SameShape-IsBalancer b b'' whole v in
            elim (Bool-cases (retryable idempotent x && ltb (n + 1) max)) [
              | inr no_more ↦
                  let noted : notes ≡ r.notes = ground (arith, e, hit, t.at, done, no_more) in
                  rw⁻¹ noted own
              | inl more ↦ elim (Option-cases (loop left (n + 1) (excluded ++ (i ∷ [])) b'')) [
                | inl panics ↦ absurd (ground (arith, e, hit, t.at, done, more, panics))
                | inr (q, runs) ↦
                    let noted : notes ++ q.notes ≡ r.notes =
                      ground (arith, e, hit, t.at, done, more, runs) in
                    rw⁻¹ noted (
                      All-append IsNotOpen notes q.notes own (
                        attempts-IsNotOpen left (n + 1) (excluded ++ (i ∷ [])) b'' q early usable
                          (SameShape-IsBrief b b'' whole brief) runs))
              ]
            ]
      ]

-- Where no other task touches a usable balancer, and no instant overflows (failures are reported before
-- 2^62 seconds and the cooldowns are at most that), the retry loop never sets the gauge of a breaker to
-- open: it is set before the breaker is told of the outcome, and a breaker whose upstream was picked lets
-- requests through.
pub retry_loop-IsNotOpen :
    {R : Type 0} (exchange : ℕ → Str → Exchange R) (clock : ℕ → ℕ → ℕ) (failed_at : ℕ → ℕ)
    (method : Str) (retries : ℕ) (b : Balancer)
    → ((m : ℕ) → IsEarly (failed_at m))
    → IsBalancer b
    → IsBrief b
    → (r : Ran R) × (retry_loop exchange (λ n c. c) clock failed_at method retries b ≡ some r)
      × All IsNotOpen r.notes
unfolding retry_loop
retry_loop-IsNotOpen exchange clock failed_at method retries b early v brief =
    let quiet : (n : ℕ) (c : Balancer) → SameShape c c =
      λ n c. record { same_order = refl; same_number = refl; same_cooldowns = refl } in
    let (r, runs, _, _) =
      retry_loop-Trail exchange (λ n c. c) clock failed_at method retries b quiet early v brief in
    (
      r,
      runs,
      attempts-IsNotOpen exchange clock failed_at (is_idempotent method) (max_attempts retries)
          (max_attempts retries) 0 [] b r early v brief runs,
    )
