-- ===== src/Proxy/Kept.antt =====
-- What a run of the retry loop of crates/gateway/src/proxy.rs that returns leaves, whatever the clock shows.
pub mod Handle
use rust_api_gateway.Base.{
  ℕ, zero, suc, ◌+◌, ◌≡◌, refl, sym, ap, ◌∙◌, inl, inr, Bool, Bool-cases, ◌&&◌, Option, none, some,
  Option-cases, List, [], ◌∷◌, ◌++◌, Str, length, get_elem?, set, arith, ltb,
}
use rust_api_gateway.Balancer.{Balancer, drop_guard}
use rust_api_gateway.Balancer.Order.{IsBalancer}
use rust_api_gateway.Balancer.Soundness.{pick-Granted}
use rust_api_gateway.Proxy.{is_idempotent, max_attempts}
use rust_api_gateway.Proxy.Attempts.{
  Exchange, Note, Ran, retryable, settle, attempts, prepend, retry_loop, report_to,
}
use rust_api_gateway.Proxy.Instants.{cooldowns, report-cooldown, report_to-report}
use rust_api_gateway.Proxy.Trail.{
  SameShape, SameShape-trans, SameShape-IsBalancer, set-SameShape, Scanned-SameShape, Granted-Turn,
}

module _ {R : Type 0} (exchange : ℕ → Str → Exchange R) (during : ℕ → Balancer → Balancer)
    (clock : ℕ → ℕ → ℕ) (failed_at : ℕ → ℕ) (idempotent : Bool) (max : ℕ)
    (quiet : (m : ℕ) (c : Balancer) → SameShape c (during m c)) where
  abbrev loop : ℕ → ℕ → List ℕ → Balancer → Option (Ran R)
  loop = attempts exchange during clock failed_at idempotent max

  settle-kept :
      (x : Exchange R) (n i : ℕ) (b b' : Balancer) (notes : List Note)
      → settle exchange during clock failed_at idempotent max x n i b ≡ some (b', notes)
      → SameShape b b'
  unfolding settle drop_guard
  settle-kept x n i b b' notes e = elim (Option-cases (get_elem? b.upstreams i)) [
    | inl gone ↦ absurd (ground (arith, e, gone))
    | inr (u, at) ↦ elim (Option-cases (report_to x (failed_at n) u)) [
      | inl panics ↦ absurd (ground (arith, e, at, panics))
      | inr (u', told) ↦
          let same = report_to-report x (failed_at n) u u' told in
          let kept =
            set-SameShape b i u (drop_guard u') at
              (ap (λ v. v.breaker.open_for) same ∙ report-cooldown x (failed_at n) u) in
          let left : record b { upstreams = set b.upstreams i (drop_guard u') } ≡ b' =
            ground (arith, e, at, told) in
          rw left at kept
    ]
  ]

  prepend-some :
      (t : ℕ × Exchange R) (notes : List Note) (o : Option (Ran R)) (r : Ran R)
      → prepend exchange during clock failed_at idempotent max t notes o ≡ some r
      → (q : Ran R) × (o ≡ some q) × (r.balancer ≡ q.balancer)
  prepend-some t notes none r e = absurd (ground (arith, e))
  prepend-some t notes (some q) r e = (q, refl, ground (arith, e))

  attempts-kept :
      (left n : ℕ) (excluded : List ℕ) (b : Balancer) (r : Ran R)
      → IsBalancer b
      → loop left n excluded b ≡ some r
      → SameShape b r.balancer
  unfolding attempts
  attempts-kept zero n excluded b r v e =
      let same : b ≡ r.balancer = ground (arith, e) in
      record {
        same_order = ap (λ x. x.rr_order) (sym same);
        same_number = ap (λ x. length x.upstreams) (sym same);
        same_cooldowns = ap (λ x. cooldowns x.upstreams) (sym same);
      }
  attempts-kept (suc left) n excluded b r v e =
      let (b', outcome) = pick-Granted (clock n) excluded b v in
      elim outcome [
        | inl (none_left, refused) ↦
            let same : b' ≡ r.balancer = ground (arith, e, none_left) in
            rw same at (Scanned-SameShape b b' refused.scanned)
        | inr (i, granted, g) ↦
            let t = Granted-Turn excluded b b' i g in
            let x = exchange n t.upstream.url in
            let waited = SameShape-trans b b' (during n b') t.shape (quiet n b') in
            elim (Option-cases
              (settle exchange during clock failed_at idempotent max x n i (during n b'))) [
                | inl panics ↦ absurd (ground (arith, e, granted, t.at, panics))
                | inr ((b'', notes), done) ↦
                    let whole =
                      SameShape-trans b (during n b') b'' waited
                        (settle-kept x n i (during n b') b'' notes done) in
                    elim (Bool-cases (retryable idempotent x && ltb (n + 1) max)) [
                      | inr no_more ↦
                          let same : b'' ≡ r.balancer =
                            ground (arith, e, granted, t.at, done, no_more) in
                          rw same at whole
                      | inl more ↦
                          let (q, runs, same) =
                            prepend-some (i, x) notes (loop left (n + 1) (excluded ++ (i ∷ [])) b'')
                              r (ground (arith, e, granted, t.at, done, more)) in
                          let rest =
                            attempts-kept left (n + 1) (excluded ++ (i ∷ [])) b'' q
                              (SameShape-IsBalancer b b'' whole v) runs in
                          rw same (SameShape-trans b b'' q.balancer whole rest)
                    ]
              ]
      ]

-- A loop that returns keeps the shape of the balancer.
pub retry_loop-kept :
    {R : Type 0} (exchange : ℕ → Str → Exchange R) (during : ℕ → Balancer → Balancer)
    (clock : ℕ → ℕ → ℕ) (failed_at : ℕ → ℕ) (method : Str) (retries : ℕ) (b : Balancer) (r : Ran R)
    → ((m : ℕ) (c : Balancer) → SameShape c (during m c))
    → IsBalancer b
    → retry_loop exchange during clock failed_at method retries b ≡ some r
    → SameShape b r.balancer
unfolding retry_loop
retry_loop-kept exchange during clock failed_at method retries b r quiet v e =
    attempts-kept exchange during clock failed_at (is_idempotent method) (max_attempts retries)
      quiet (max_attempts retries) 0 [] b r v e
