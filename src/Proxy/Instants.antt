-- ===== src/Proxy/Instants.antt =====
-- Where crates/gateway/src/proxy.rs adds to an `Instant`: the report of a failure to a breaker, and the
-- response that is stored in a cache.
use rust_api_gateway.Base.{
  ℕ, zero, suc, ◌≡◌, refl, ap, ◌∙◌, inl, inr, Bool, Bool-cases, Option, none, some, Option-cases,
  List, [], ◌∷◌, map, get_elem?, set, All, arith, IsEarly, IsShort, Str, HashMap,
}
use rust_api_gateway.Headers.{Http}
use rust_api_gateway.Breaker.{after_failure, record_failure_at, record_success}
use rust_api_gateway.Balancer.{Upstream, Balancer}
use rust_api_gateway.Balancer.Probe.{Probed, Probes}
use rust_api_gateway.Cache.{CachedResponse, ResponseCache, put}
use rust_api_gateway.State.{RouteRuntime}
use rust_api_gateway.Proxy.Attempts.{Exchange, responds, fails, report, report_to}
use rust_api_gateway.Proxy.Handler.{Times}
use rust_api_gateway.Proxy.Responses.{Answer, Served, is_stored, finish_response, finished_response}

abbrev pub cooldown : Upstream → ℕ
cooldown u = u.breaker.open_for

abbrev pub cooldowns : List Upstream → List ℕ
cooldowns us = map cooldown us

abbrev pub IsBrief : Balancer → Type 0
IsBrief b = All IsShort (cooldowns b.upstreams)

abbrev pub CacheBrief : Option ResponseCache → Type 0
CacheBrief none = Unit
CacheBrief (some c) = IsShort c.ttl

abbrev pub ttl_of : Option ResponseCache → Option ℕ
ttl_of none = none
ttl_of (some c) = some c.ttl

-- Nothing that the runtime adds to an instant is long.
pub record IsTimely (rt : RouteRuntime) : Type 0 where
  pub balancer : IsBrief rt.balancer
  pub cache : CacheBrief rt.cache

-- The durations of a runtime are those that it had.
pub record KeepsTimes (before after : RouteRuntime) : Type 0 where
  pub same_cooldowns : cooldowns after.balancer.upstreams ≡ cooldowns before.balancer.upstreams
  pub same_ttl : ttl_of after.cache ≡ ttl_of before.cache

CacheBrief-same : (c d : Option ResponseCache) → ttl_of d ≡ ttl_of c → CacheBrief c → CacheBrief d
CacheBrief-same none none e b = tt
CacheBrief-same none (some d) e b = cc
CacheBrief-same (some c) none e b = tt
CacheBrief-same (some c) (some d) e b = let same : d.ttl ≡ c.ttl = ground (arith, e) in rw same b

pub KeepsTimes-IsTimely : (rt rt' : RouteRuntime) → KeepsTimes rt rt' → IsTimely rt → IsTimely rt'
KeepsTimes-IsTimely rt rt' k t = record {
  balancer = rw k.same_cooldowns t.balancer;
  cache = CacheBrief-same rt.cache rt'.cache k.same_ttl t.cache;
}

pub KeepsTimes-refl : (rt : RouteRuntime) → KeepsTimes rt rt
KeepsTimes-refl rt = record { same_cooldowns = refl; same_ttl = refl }

pub KeepsTimes-trans : (a b c : RouteRuntime) → KeepsTimes a b → KeepsTimes b c → KeepsTimes a c
KeepsTimes-trans a b c k l = record {
  same_cooldowns = l.same_cooldowns ∙ k.same_cooldowns;
  same_ttl = l.same_ttl ∙ k.same_ttl;
}

-- The readings of the clock that are added to are early.
pub record IsEarlyAt (times : Times) : Type 0 where
  pub failures : (m : ℕ) → IsEarly (times.failed_at m)
  pub expiry : IsEarly times.expiry_from

pub cooldown-IsShort :
    (us : List Upstream) (i : ℕ) (u : Upstream)
    → All IsShort (cooldowns us)
    → get_elem? us i ≡ some u
    → IsShort (cooldown u)
cooldown-IsShort [] i u a e = absurd (ground (arith, e))
cooldown-IsShort (x ∷ us) zero u a e = let same : x ≡ u = cc in rw same at a.0
cooldown-IsShort (x ∷ us) (suc i) u a e = cooldown-IsShort us i u a.1 e

pub cooldowns-set :
    (us : List Upstream) (i : ℕ) (u v : Upstream)
    → get_elem? us i ≡ some u
    → cooldown v ≡ cooldown u
    → cooldowns (set us i v) ≡ cooldowns us
cooldowns-set [] i u v e c = refl
cooldowns-set (x ∷ us) zero u v e c =
    let same : x ≡ u = cc in ap (λ d. d ∷ cooldowns us) (c ∙ rw same refl)
cooldowns-set (x ∷ us) (suc i) u v e c = ap (λ ds. cooldown x ∷ ds) (cooldowns-set us i u v e c)

cooldown-Probed : (u v : Upstream) → Probed u v → cooldown v ≡ cooldown u
cooldown-Probed u v p = elim (p.breaker) [
  | inl same ↦ ap (λ b. b.open_for) same
  | inr (was, trial) ↦ ap (λ b. b.open_for) trial
]

pub cooldowns-Probes : (us vs : List Upstream) → Probes us vs → cooldowns vs ≡ cooldowns us
cooldowns-Probes [] [] p = refl
cooldowns-Probes [] (v ∷ vs) p = absurd p
cooldowns-Probes (u ∷ us) [] p = absurd p
cooldowns-Probes (u ∷ us) (v ∷ vs) p = rw (cooldown-Probed u v p.0, cooldowns-Probes us vs p.1) refl

module _ {R : Type 0} where
  pub report-cooldown :
      (x : Exchange R) (now : ℕ) (u : Upstream) → cooldown (report x now u) ≡ cooldown u
  unfolding after_failure record_success
  report-cooldown (responds status r) now u = ground arith
  report-cooldown (fails c) now u = ground arith

  pub report_to-report :
      (x : Exchange R) (now : ℕ) (u u' : Upstream)
      → report_to x now u ≡ some u'
      → u' ≡ report x now u
  unfolding report_to record_failure_at
  report_to-report (responds status r) now u u' e = ground (arith, e)
  report_to-report (fails c) now u u' e = ground (arith, e)

  pub report_to-returns :
      (x : Exchange R) (now : ℕ) (u : Upstream)
      → IsEarly now
      → IsShort (cooldown u)
      → report_to x now u ≡ some (report x now u)
  unfolding report_to record_failure_at
  report_to-returns (responds status r) now u early short = ground (arith, early, short)
  report_to-returns (fails c) now u early short = ground (arith, early, short)

module _ (h : Http) (iter : HashMap CachedResponse → HashMap CachedResponse) (now later : ℕ)
    (rt : RouteRuntime) (name method : Str) (status : ℕ) (a : Answer h) (enabled : Bool)
    (key id : Str) where
  pub finish_response-finished_response :
      (s : Served h)
      → finish_response h iter now later rt name method status a enabled key id ≡ some s
      → s ≡ finished_response h iter now later rt name method status a enabled key id
  unfolding finish_response finished_response put
  finish_response-finished_response s e = elim (Bool-cases (is_stored h rt status a enabled)) [
    | inr skipped ↦ ground (arith, e, skipped)
    | inl stored ↦ elim (Option-cases (a.body)) [
      | inl broken ↦ ground (arith, e, stored, broken)
      | inr (body, read) ↦ elim (Option-cases (rt.cache)) [
        | inl missing ↦ ground (arith, e, stored, read, missing)
        | inr (cache, there) ↦ ground (arith, e, stored, read, there)
      ]
    ]
  ]

  pub finish_response-returns :
      IsEarly later
      → CacheBrief rt.cache
      → finish_response h iter now later rt name method status a enabled key id
        ≡ some (finished_response h iter now later rt name method status a enabled key id)
  unfolding finish_response finished_response put
  finish_response-returns early brief = elim (Bool-cases (is_stored h rt status a enabled)) [
    | inr skipped ↦ ground (arith, skipped)
    | inl stored ↦ elim (Option-cases (a.body)) [
      | inl broken ↦ ground (arith, stored, broken)
      | inr (body, read) ↦ elim (Option-cases (rt.cache)) [
        | inl missing ↦ ground (arith, stored, read, missing)
        | inr (cache, there) ↦
            let short : IsShort cache.ttl = rw there at brief in
            ground (arith, stored, read, there, early, short)
      ]
    ]
  ]
