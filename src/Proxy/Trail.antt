-- ===== src/Proxy/Trail.antt =====
-- What the retry loop of `route_and_proxy` does, attempt by attempt.
use rust_api_gateway.Base.{
  ℕ, zero, suc, ◌+◌, ◌<◌, ◌≡◌, refl, ap, ◌∙◌, inl, inr, Bool, true, false, ◌&&◌, Bool-cases, Option,
  none, some, List, [], ◌∷◌, ◌++◌, Str, length, length-set, get_elem?, get_elem?-some, IsEarly,
  lt-length_of_get, set, arith, ltb,
}
use rust_api_gateway.Balancer.{Upstream, Balancer, contains_index, pick, acquire_guard, drop_guard}
use rust_api_gateway.Breaker.{state_code}
use rust_api_gateway.Balancer.Order.{IsBalancer}
use rust_api_gateway.Balancer.Probe.{Probes-length}
use rust_api_gateway.Balancer.Ran.{Scanned}
use rust_api_gateway.Balancer.Soundness.{Refused, Granted, pick-Granted}
use rust_api_gateway.Proxy.Instants.{
  cooldown, cooldowns, IsBrief, cooldown-IsShort, cooldowns-set, cooldowns-Probes, report-cooldown,
  report_to-returns,
}
use rust_api_gateway.Proxy.Attempts.{
  Exchange, Outcome, no_healthy_upstream, Ran, Note, retryable, answer, settle, attempts, prepend,
  report, errors, upstream_latency, circuit_state,
}

-- Nobody adds, removes or reorders the upstreams of a balancer, or changes how long their breakers
-- stay open.
pub record SameShape (b b' : Balancer) : Type 0 where
  pub same_order : b'.rr_order ≡ b.rr_order
  pub same_number : length b'.upstreams ≡ length b.upstreams
  pub same_cooldowns : cooldowns b'.upstreams ≡ cooldowns b.upstreams

pub SameShape-trans : (a b c : Balancer) → SameShape a b → SameShape b c → SameShape a c
SameShape-trans a b c s t = record {
  same_order = t.same_order ∙ s.same_order;
  same_number = t.same_number ∙ s.same_number;
  same_cooldowns = t.same_cooldowns ∙ s.same_cooldowns;
}

pub SameShape-IsBalancer : (b b' : Balancer) → SameShape b b' → IsBalancer b → IsBalancer b'
SameShape-IsBalancer b b' s v = record {
  ordered = rw s.same_order v.ordered;
  in_range = rw (s.same_number, s.same_order) v.in_range;
}

pub SameShape-IsBrief : (b b' : Balancer) → SameShape b b' → IsBrief b → IsBrief b'
SameShape-IsBrief b b' s v = rw s.same_cooldowns v

-- One upstream is written, and its breaker keeps its cooldown.
pub set-SameShape :
    (b : Balancer) (i : ℕ) (u v : Upstream)
    → get_elem? b.upstreams i ≡ some u
    → cooldown v ≡ cooldown u
    → SameShape b (record b { upstreams = set b.upstreams i v })
set-SameShape b i u v at same = record {
  same_order = refl;
  same_number = length-set b.upstreams i v;
  same_cooldowns = cooldowns-set b.upstreams i u v at same;
}

pub Scanned-SameShape : (b b' : Balancer) → Scanned b b' → SameShape b b'
Scanned-SameShape b b' s = record {
  same_order = s.order;
  same_number = Probes-length b.upstreams b'.upstreams s.probes;
  same_cooldowns = cooldowns-Probes b.upstreams b'.upstreams s.probes;
}

-- The upstream that a pick returned, and that it was not excluded.
pub record Turn (excluded : List ℕ) (b b' : Balancer) (i : ℕ) : Type 0 where
  pub shape : SameShape b b'
  pub included : contains_index excluded i ≡ false
  pub upstream : Upstream
  pub at : get_elem? b'.upstreams i ≡ some upstream

pub Granted-Turn :
    (excluded : List ℕ) (b b' : Balancer) (i : ℕ) → Granted excluded b b' i → Turn excluded b b' i
unfolding acquire_guard
Granted-Turn excluded b b' i g =
    let shape = Scanned-SameShape b g.before g.scanned in
    let number : length b'.upstreams ≡ length g.before.upstreams =
      ap (λ x. length x.upstreams) g.counted ∙ length-set g.before.upstreams i _ in
    let below = lt-length_of_get g.before.upstreams i g.chosen.upstream g.chosen.at in
    let (u, at') = get_elem?-some b'.upstreams i (omega (arith, number, below)) in
    record {
      shape = record {
        same_order = ap (λ x. x.rr_order) g.counted ∙ shape.same_order;
        same_number = number ∙ shape.same_number;
        same_cooldowns =
            ap (λ x. cooldowns x.upstreams) g.counted
            ∙ cooldowns-set g.before.upstreams i g.chosen.upstream (acquire_guard g.chosen.upstream)
                g.chosen.at refl
            ∙ shape.same_cooldowns;
      };
      included = g.chosen.included;
      upstream = u;
      at = at';
    }

module _ {R : Type 0} (exchange : ℕ → Str → Exchange R) (during : ℕ → Balancer → Balancer)
    (clock : ℕ → ℕ → ℕ) (failed_at : ℕ → ℕ) (idempotent : Bool) (max : ℕ) where
  abbrev loop : ℕ → ℕ → List ℕ → Balancer → Option (Ran R)
  loop = attempts exchange during clock failed_at idempotent max

  abbrev settled : Exchange R → ℕ → ℕ → Balancer → Option (Balancer × List Note)
  settled = settle exchange during clock failed_at idempotent max

  -- An attempt with a number and some upstreams excluded, from a balancer to another: the pick grants an
  -- upstream, which was not excluded; it is sent the request, and its breaker is told of the result.
  pub record Tried (n : ℕ) (excluded : List ℕ) (b b'' : Balancer) (i : ℕ) (x : Exchange R)
      : Type 0 where
    pub picked : Balancer
    pub hit : pick (clock n) excluded b ≡ some (picked, some i)
    pub granted : Granted excluded b picked i
    pub included : contains_index excluded i ≡ false
    pub upstream : Upstream
    pub at : get_elem? picked.upstreams i ≡ some upstream
    pub exchanged : x ≡ exchange n upstream.url
    pub notes : List Note
    pub told : settled x n i (during n picked) ≡ some (b'', notes)

  -- A trail of the loop, from an attempt on, with some upstreams excluded, and from a balancer to
  -- another: either the pick returns none, and then no upstream of the balancer that is not excluded
  -- is ready, or an upstream is tried. Its result is the answer, unless it can be retried and attempts
  -- are left; then the upstream is excluded from the trail after it.
  pub data Trail
      : ℕ → List ℕ → Balancer → List (ℕ × Exchange R) → Outcome R → Balancer → Type 0 where
    stops :
        (n : ℕ) (excluded : List ℕ) (b b' : Balancer)
        → pick (clock n) excluded b ≡ some (b', none)
        → Refused excluded b b'
        → Trail n excluded b [] no_healthy_upstream b'
    answers :
        (n : ℕ) (excluded : List ℕ) (b b' : Balancer) (i : ℕ) (x : Exchange R)
        → Tried n excluded b b' i x
        → (retryable idempotent x && ltb (n + 1) max) ≡ false
        → Trail n excluded b ((i, x) ∷ []) (answer x) b'
    retries :
        (n : ℕ) (excluded : List ℕ) (b b' b'' : Balancer) (i : ℕ) (x : Exchange R)
        (l : List (ℕ × Exchange R)) (o : Outcome R)
        → Tried n excluded b b' i x
        → (retryable idempotent x && ltb (n + 1) max) ≡ true
        → Trail (n + 1) (excluded ++ (i ∷ [])) b' l o b''
        → Trail n excluded b ((i, x) ∷ l) o b''

  -- The report does not panic, where it comes early and the upstream stays out briefly.
  pub settle-SameShape :
      (x : Exchange R) (n i : ℕ) (b : Balancer)
      → IsEarly (failed_at n)
      → IsBrief b
      → i < length b.upstreams
      → (b' : Balancer) × (notes : List Note) × (settled x n i b ≡ some (b', notes))
        × SameShape b b'
  unfolding settle drop_guard
  settle-SameShape x n i b early brief below =
      let (u, at) = get_elem?-some b.upstreams i below in
      let told = report x (failed_at n) u in
      let short = cooldown-IsShort b.upstreams i u brief at in
      let noted =
        upstream_latency ∷ circuit_state u.url (state_code u.breaker.inner.state) ∷ errors x in
      (
        record b { upstreams = set b.upstreams i (drop_guard told) },
        noted,
        rw (settle, at) (rw (report_to-returns x (failed_at n) u early short) refl),
        set-SameShape b i u (drop_guard told) at (report-cooldown x (failed_at n) u),
      )

  loop-missed :
      (left n : ℕ) (excluded : List ℕ) (b b' : Balancer)
      → pick (clock n) excluded b ≡ some (b', none)
      → loop (suc left) n excluded b
        ≡ some (record { balancer = b'; tried = []; notes = []; outcome = no_healthy_upstream })
  unfolding attempts
  loop-missed left n excluded b b' e = rw (e, attempts) refl

  module _ (left n : ℕ) (excluded : List ℕ) (b b' b'' : Balancer) (i : ℕ) (u : Upstream)
      (notes : List Note) (hit : pick (clock n) excluded b ≡ some (b', some i))
      (at : get_elem? b'.upstreams i ≡ some u)
      (done : settled (exchange n u.url) n i (during n b') ≡ some (b'', notes)) where
    loop-answers :
        (retryable idempotent (exchange n u.url) && ltb (n + 1) max) ≡ false
        → loop (suc left) n excluded b
          ≡ some (record {
            balancer = b'';
            tried = (i, exchange n u.url) ∷ [];
            notes = notes;
            outcome = answer (exchange n u.url);
          })
    unfolding attempts
    loop-answers no_more = rw (hit, attempts) (rw at (rw done (rw no_more refl)))

    loop-retries :
        (retryable idempotent (exchange n u.url) && ltb (n + 1) max) ≡ true
        → loop (suc left) n excluded b
          ≡ prepend exchange during clock failed_at idempotent max
              (i, exchange n u.url)
              notes
              (loop left (n + 1) (excluded ++ (i ∷ [])) b'')
    unfolding attempts
    loop-retries more = rw (hit, attempts) (rw at (rw done (rw more refl)))

  -- The loop, with an attempt left, ends, does not panic, and runs along a trail.
  pub attempts-Trail_from :
      (left n : ℕ) (excluded : List ℕ) (b : Balancer)
      → ((m : ℕ) (c : Balancer) → SameShape c (during m c))
      → ((m : ℕ) → IsEarly (failed_at m))
      → IsBalancer b
      → IsBrief b
      → n + left ≡ max
      → n < max
      → (r : Ran R) × (loop left n excluded b ≡ some r)
        × Trail n excluded b r.tried r.outcome r.balancer
        × SameShape b r.balancer
  attempts-Trail_from zero n excluded b quiet early v brief e lt = absurd (omega arith)
  attempts-Trail_from (suc left) n excluded b quiet early v brief e lt =
      let (b', outcome) = pick-Granted (clock n) excluded b v in
      elim outcome [
        | inl (missed, refused) ↦ (
          _,
          loop-missed left n excluded b b' missed,
          stops n excluded b b' missed refused,
          Scanned-SameShape b b' refused.scanned,
        )
        | inr (i, hit, g) ↦
            let t = Granted-Turn excluded b b' i g in
            let x = exchange n t.upstream.url in
            let waited = quiet n b' in
            let below = lt-length_of_get b'.upstreams i t.upstream t.at in
            let (b'', notes, done, shape) =
              settle-SameShape x n i (during n b') (early n)
                (SameShape-IsBrief b (during n b') (SameShape-trans b b' _ t.shape waited) brief)
                (omega (arith, below, waited.same_number)) in
            let whole =
              SameShape-trans b b' b'' t.shape
                (SameShape-trans b' (during n b') b'' waited shape) in
            let usable = SameShape-IsBalancer b b'' whole v in
            let tried : Tried n excluded b b'' i x = record {
              picked = b';
              hit = hit;
              granted = g;
              included = t.included;
              upstream = t.upstream;
              at = t.at;
              exchanged = refl;
              notes = notes;
              told = done;
            } in
            elim (Bool-cases (retryable idempotent x && ltb (n + 1) max)) [
              | inr no_more ↦ (
                _,
                loop-answers left n excluded b b' b'' i t.upstream notes hit t.at done no_more,
                answers n excluded b b'' i x tried no_more,
                whole,
              )
              | inl more ↦
                  let (r, runs, trail, rest) =
                    attempts-Trail_from left (n + 1) (excluded ++ (i ∷ [])) b'' quiet early usable
                      (SameShape-IsBrief b b'' whole brief) (omega arith) (ground arith) in
                  (
                    record r { tried = (i, x) ∷ r.tried; notes = notes ++ r.notes },
                    loop-retries left n excluded b b' b'' i t.upstream notes hit t.at done more
                        ∙ ap (prepend exchange during clock failed_at idempotent max (i, x) notes)
                            runs,
                    retries n excluded b b'' r.balancer i x r.tried r.outcome tried more trail,
                    SameShape-trans b b'' r.balancer whole rest,
                  )
            ]
      ]
