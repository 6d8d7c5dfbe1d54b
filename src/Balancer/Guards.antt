-- ===== src/Balancer/Guards.antt =====
-- The active-request counters under every interleaving of the tasks that share a balancer.
use rust_api_gateway.Base.{
  ℕ, zero, suc, ◌+◌, ◌%◌, ◌<◌, ◌≡◌, ◌≢◌, refl, sym, ap, subst, ◌∙◌, inl, inr, none, some, List, [],
  ◌∷◌, ◌++◌, length, get_elem?, get_elem?-some, lt-length_of_get, set, map, length-set,
  get_elem?-set_self, get_elem?-set_ne, arith, u64_mod, if◌then◌else◌, ◌==◌, Bool-cases, ==_iff,
}
use rust_api_gateway.Config.{CircuitBreakerConfig, UpstreamConfig, RouteConfig}
use rust_api_gateway.Balancer.{
  Upstream, Balancer, acquire_guard, drop_guard, set_healthy, pick, new_upstream, from_route,
}
use rust_api_gateway.Balancer.Probe.{Probes-get, Probes-length}
use rust_api_gateway.Balancer.Order.{IsBalancer, count, count-append, from_route-IsBalancer}
use rust_api_gateway.Balancer.Ran.{Scanned, Scanned-IsBalancer}
use rust_api_gateway.Balancer.Soundness.{Refused, Granted, pick-Granted}
use rust_api_gateway.Balancer.Tasks.{
  Shared, replace, Step, picks, misses, drops, reports, checks, Reach, here, next, IsCounted,
}

pub Granted-of_pick :
    (clock : ℕ → ℕ) (exclude : List ℕ) (b b' : Balancer) (i : ℕ)
    → IsBalancer b
    → pick clock exclude b ≡ some (b', some i)
    → Granted exclude b b' i
Granted-of_pick clock exclude b b' i v e =
    let (c, outcome) = pick-Granted clock exclude b v in
    elim outcome [
      | inl (none_found, _) ↦ absurd (ground arith)
      | inr (j, found, g) ↦
          let same_b : c ≡ b' = ground arith in
          let same_i : j ≡ i = ground arith in
          subst (λ x. Granted exclude b b' x) same_i (subst (λ x. Granted exclude b x j) same_b g)
    ]

Refused-of_pick :
    (clock : ℕ → ℕ) (exclude : List ℕ) (b b' : Balancer)
    → IsBalancer b
    → pick clock exclude b ≡ some (b', none)
    → Refused exclude b b'
Refused-of_pick clock exclude b b' v e =
    let (c, outcome) = pick-Granted clock exclude b v in
    elim outcome [
      | inl (found, r) ↦ let same : c ≡ b' = ground arith in subst (Refused exclude b) same r
      | inr (j, found, g) ↦ absurd (ground arith)
    ]

-- Writing one upstream.
replace-IsBalancer :
    (b : Balancer) (i : ℕ) (u : Upstream) → IsBalancer b → IsBalancer (replace b i u)
replace-IsBalancer b i u v = record {
  ordered = v.ordered;
  in_range = rw (length-set b.upstreams i u) v.in_range;
}

replace-counted :
    (b : Balancer) (i : ℕ) (u : Upstream) (held held' : List ℕ)
    → ((j : ℕ) (w : Upstream)
        → get_elem? b.upstreams j ≡ some w
        → w.active ≡ count j held % u64_mod)
    → i < length b.upstreams
    → u.active ≡ count i held' % u64_mod
    → ((j : ℕ) → i ≢ j → count j held' ≡ count j held)
    → (j : ℕ) (w : Upstream) → get_elem? (replace b i u).upstreams j ≡ some w
    → w.active ≡ count j held' % u64_mod
replace-counted b i u held held' c l e same j w at = elim (Bool-cases (i == j)) [
  | inl eq ↦
      let there : i ≡ j = (==_iff i j).0 eq in
      let mine : w ≡ u =
        ground (
          arith,
          get_elem?-set_self b.upstreams i u l,
          ap (get_elem? (set b.upstreams i u)) there,
        ) in
      ap (λ x. x.active) mine ∙ rw there at e
  | inr ne ↦
      let apart : i ≢ j = λ there. absurd (ground arith) in
      c j w (sym (get_elem?-set_ne b.upstreams i j u apart) ∙ at)
      ∙ sym (ap (λ n. n % u64_mod) (same j apart))
]

-- A probe leaves the counters.
Scanned-counted :
    (b b' : Balancer) (held : List ℕ)
    → Scanned b b'
    → ((j : ℕ) (w : Upstream)
        → get_elem? b.upstreams j ≡ some w
        → w.active ≡ count j held % u64_mod)
    → (j : ℕ) (w : Upstream) → get_elem? b'.upstreams j ≡ some w
    → w.active ≡ count j held % u64_mod
Scanned-counted b b' held s c j w at =
    let below : j < length b.upstreams =
      rw (Probes-length b.upstreams b'.upstreams s.probes) at
        (lt-length_of_get b'.upstreams j w at) in
    let (u, own) = get_elem?-some b.upstreams j below in
    let (v, there, p) = Probes-get b.upstreams b'.upstreams j u s.probes own in
    let same : w ≡ v = ground arith in ap (λ x. x.active) same ∙ p.active ∙ c j u own

count-cons_ne : (i j : ℕ) (held : List ℕ) → i ≢ j → count j (i ∷ held) ≡ count j held
count-cons_ne i j held h = ground arith

count-middle :
    (i j : ℕ) (xs ys : List ℕ)
    → count j (xs ++ (i ∷ ys)) ≡ count j (xs ++ ys) + (if i == j then 1 else 0)
count-middle i j xs ys = omega (arith, count-append j xs (i ∷ ys), count-append j xs ys)

grants-IsCounted :
    (exclude : List ℕ) (b b' : Balancer) (i : ℕ) (held : List ℕ)
    → Granted exclude b b' i
    → IsCounted (record { balancer = b; held = held })
    → IsCounted (record { balancer = b'; held = i ∷ held })
unfolding acquire_guard
grants-IsCounted exclude b b' i held g v =
    let u = g.chosen.upstream in
    let before = Scanned-counted b g.before held g.scanned v.counted in
    let was : u.active ≡ count i held % u64_mod = before i u g.chosen.at in
    let result : IsCounted
        (record { balancer = replace g.before i (acquire_guard u); held = i ∷ held }) =
      record {
        usable = replace-IsBalancer g.before i _ (Scanned-IsBalancer b g.before g.scanned v.usable);
        counted =
            replace-counted g.before i (acquire_guard u) held (i ∷ held) before
              (lt-length_of_get g.before.upstreams i u g.chosen.at) (ground (arith, was))
              (λ j ne. count-cons_ne i j held ne);
      } in
    subst (λ x. IsCounted (record { balancer = x; held = i ∷ held })) (sym g.counted) result

pub drops-IsCounted :
    (b : Balancer) (i : ℕ) (u : Upstream) (before after : List ℕ)
    → get_elem? b.upstreams i ≡ some u
    → IsCounted (record { balancer = b; held = before ++ (i ∷ after) })
    → IsCounted (record { balancer = replace b i (drop_guard u); held = before ++ after })
unfolding drop_guard
drops-IsCounted b i u before after at v = record {
  usable = replace-IsBalancer b i _ v.usable;
  counted =
      replace-counted b i (drop_guard u) (before ++ (i ∷ after)) (before ++ after) v.counted
        (lt-length_of_get b.upstreams i u at)
        (ground (arith, v.counted i u at, count-middle i i before after))
        (λ j ne. ground (arith, count-middle i j before after));
}

-- Writing anything but the counter of one upstream.
pub writes-IsCounted :
    (b : Balancer) (i : ℕ) (u u' : Upstream) (held : List ℕ)
    → get_elem? b.upstreams i ≡ some u
    → u'.active ≡ u.active
    → IsCounted (record { balancer = b; held = held })
    → IsCounted (record { balancer = replace b i u'; held = held })
writes-IsCounted b i u u' held at e v = record {
  usable = replace-IsBalancer b i u' v.usable;
  counted =
      replace-counted b i u' held held v.counted (lt-length_of_get b.upstreams i u at)
        (e ∙ v.counted i u at) (λ j ne. refl);
}

pub Step-IsCounted : {s t : Shared} → Step s t → IsCounted s → IsCounted t
unfolding set_healthy
Step-IsCounted (picks clock exclude b b' i held e) v =
    grants-IsCounted exclude b b' i held (Granted-of_pick clock exclude b b' i v.usable e) v
Step-IsCounted (misses clock exclude b b' held e) v =
    let r = Refused-of_pick clock exclude b b' v.usable e in
    record {
      usable = Scanned-IsBalancer b b' r.scanned v.usable;
      counted = Scanned-counted b b' held r.scanned v.counted;
    }
Step-IsCounted (drops b i u before after at) v = drops-IsCounted b i u before after at v
Step-IsCounted (reports b i u e held at) v = writes-IsCounted b i u _ held at refl v
Step-IsCounted (checks b i u h held at) v = writes-IsCounted b i u _ held at refl v

Reach-IsCounted : {s t : Shared} → IsCounted s → Reach s t → IsCounted t
Reach-IsCounted v here = v
Reach-IsCounted v (next r st) = Step-IsCounted st (Reach-IsCounted v r)

map-active :
    (c : CircuitBreakerConfig) (us : List UpstreamConfig) (j : ℕ) (u : Upstream)
    → get_elem? (map (new_upstream c) us) j ≡ some u
    → u.active ≡ 0
unfolding new_upstream
map-active c [] j u e = absurd (ground arith)
map-active c (x ∷ us) zero u e = ground arith
map-active c (x ∷ us) (suc j) u e = map-active c us j u e

fresh-active :
    (r : RouteConfig) (j : ℕ) (u : Upstream)
    → get_elem? (from_route r).upstreams j ≡ some u
    → u.active ≡ 0
unfolding from_route
fresh-active r j u e = map-active r.circuit_breaker r.upstreams j u e

-- A new balancer, with no guard held.
pub from_route-IsCounted :
    (r : RouteConfig) → r.upstreams ≢ [] → IsCounted (record { balancer = from_route r; held = [] })
from_route-IsCounted r h = record {
  usable = from_route-IsBalancer r h;
  counted = λ j u at. fresh-active r j u at;
}

-- However the tasks that share a route's balancer interleave, each counter holds the number of
-- guards that are held on its upstream (modulo 2^64), and the balancer stays usable, so that no
-- pick panics.
pub Reach-from_route :
    (r : RouteConfig) (s : Shared)
    → r.upstreams ≢ []
    → Reach (record { balancer = from_route r; held = [] }) s
    → IsCounted s
Reach-from_route r s h reach = Reach-IsCounted (from_route-IsCounted r h) reach
