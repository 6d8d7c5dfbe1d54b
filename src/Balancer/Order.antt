-- ===== src/Balancer/Order.antt =====
-- The selection order of the weighted round-robin: each index as often as its weight says.
use rust_api_gateway.Base.{
  ℕ, zero, suc, ◌+◌, ◌≤◌, ◌<◌, max, ◌≡◌, ◌≢◌, refl, ap, some, List, [], ◌∷◌, ◌++◌, map, length,
  get_elem?, replicate, All, All-append, arith, if◌then◌else◌, ◌==◌,
}
use native.Mathlib.Nat.{zero-add}
use rust_api_gateway.Config.{UpstreamConfig, RouteConfig}
use rust_api_gateway.Balancer.{Upstream, Balancer, new_upstream, expand, or_zero, from_route}

abbrev pub count : ℕ → List ℕ → ℕ
count i [] = 0
count i (j ∷ js) = (if j == i then 1 else 0) + count i js

pub count-append : (i : ℕ) (xs ys : List ℕ) → count i (xs ++ ys) ≡ count i xs + count i ys
count-append i [] ys = omega arith
count-append i (x ∷ xs) ys = omega (arith, count-append i xs ys)

count-replicate_self : (n i : ℕ) → count i (replicate n i) ≡ n
count-replicate_self zero i = refl
count-replicate_self (suc n) i = ground (arith, count-replicate_self n i)

count-replicate_ne : (n i j : ℕ) → j ≢ i → count i (replicate n j) ≡ 0
count-replicate_ne zero i j h = refl
count-replicate_ne (suc n) i j h = ground (arith, count-replicate_ne n i j h)

count-expand_below : (i k : ℕ) (us : List Upstream) → i < k → count i (expand k us) ≡ 0
unfolding expand
count-expand_below i k [] h = refl
count-expand_below i k (u ∷ us) h = omega (
  arith,
  count-append i (replicate u.weight k) (expand (suc k) us),
  count-replicate_ne u.weight i k (omega arith),
  count-expand_below i (suc k) us (omega arith),
)

count-expand :
    (k i : ℕ) (us : List Upstream) (u : Upstream)
    → get_elem? us i ≡ some u
    → count (k + i) (expand k us) ≡ u.weight
unfolding expand
count-expand k i [] u e = absurd (ground arith)
count-expand k zero (x ∷ us) u e =
    let same : x ≡ u = cc in
    let here : k + 0 ≡ k = omega arith in
    rw (same, here)
      (omega (
        arith,
        count-append k (replicate u.weight k) (expand (suc k) us),
        count-replicate_self u.weight k,
        count-expand_below k (suc k) us (omega arith),
      ))
count-expand k (suc i) (x ∷ us) u e =
    let next : k + suc i ≡ suc k + i = omega arith in
    rw next (
      omega (
        arith,
        count-append (suc k + i) (replicate x.weight k) (expand (suc k) us),
        count-replicate_ne x.weight (suc k + i) k (omega arith),
        count-expand (suc k) i us u e,
      ))

abbrev pub Below : ℕ → List ℕ → Type 0
Below n = All (λ i. i < n)

replicate-Below : (m n i : ℕ) → i < n → Below n (replicate m i)
replicate-Below zero n i h = tt
replicate-Below (suc m) n i h = (h, replicate-Below m n i h)

expand-Below : (k n : ℕ) (us : List Upstream) → k + length us ≤ n → Below n (expand k us)
unfolding expand
expand-Below k n [] h = tt
expand-Below k n (u ∷ us) h =
    All-append (λ i. i < n) (replicate u.weight k) (expand (suc k) us)
      (replicate-Below u.weight n k (omega arith)) (expand-Below (suc k) n us (omega arith))

-- There is an order, and each of its indices is one of an upstream.
pub record IsBalancer (b : Balancer) : Type 0 where
  pub ordered : 0 < length b.rr_order
  pub in_range : Below (length b.upstreams) b.rr_order

length-map_upstreams :
    (f : UpstreamConfig → Upstream) (us : List UpstreamConfig) → length (map f us) ≡ length us
length-map_upstreams f [] = refl
length-map_upstreams f (u ∷ us) = ap suc (length-map_upstreams f us)

get_elem?-map :
    (f : UpstreamConfig → Upstream) (us : List UpstreamConfig) (i : ℕ) (u : UpstreamConfig)
    → get_elem? us i ≡ some u
    → get_elem? (map f us) i ≡ some (f u)
get_elem?-map f [] i u e = absurd (ground arith)
get_elem?-map f (x ∷ us) zero u e = ground arith
get_elem?-map f (x ∷ us) (suc i) u e = get_elem?-map f us i u e

or_zero-Below : (n : ℕ) (is : List ℕ) → 0 < n → Below n is → Below n (or_zero is)
or_zero-Below n [] h b = (h, tt)
or_zero-Below n (i ∷ is) h b = b

or_zero-ordered : (is : List ℕ) → 0 < length (or_zero is)
or_zero-ordered [] = omega arith
or_zero-ordered (i ∷ is) = omega arith

nonempty : (us : List UpstreamConfig) → us ≢ [] → 0 < length us
nonempty [] h = absurd (h refl)
nonempty (u ∷ us) h = omega arith

-- The balancer of a route with an upstream has an order to go by, all of whose indices are in
-- range.
pub from_route-IsBalancer : (r : RouteConfig) → r.upstreams ≢ [] → IsBalancer (from_route r)
unfolding from_route
from_route-IsBalancer r h =
    let us = map (new_upstream r.circuit_breaker) r.upstreams in
    record {
      ordered = or_zero-ordered (expand 0 us);
      in_range =
          or_zero-Below (length us) (expand 0 us)
            (omega (
              arith,
              length-map_upstreams (new_upstream r.circuit_breaker) r.upstreams,
              nonempty r.upstreams h,
            ))
            (expand-Below 0 (length us) us (omega arith));
    }

count-or_zero : (i n : ℕ) (is : List ℕ) → 1 ≤ n → count i is ≡ n → count i (or_zero is) ≡ n
count-or_zero i n [] h e = absurd (omega arith)
count-or_zero i n (j ∷ is) h e = e

-- The order of a route's balancer holds the index of each upstream as often as the configured
-- weight says, once where that is 0.
pub count-from_route :
    (r : RouteConfig) (i : ℕ) (c : UpstreamConfig)
    → get_elem? r.upstreams i ≡ some c
    → count i (from_route r).rr_order ≡ max c.weight 1
unfolding from_route
count-from_route r i c e =
    let us = map (new_upstream r.circuit_breaker) r.upstreams in
    let u = new_upstream r.circuit_breaker c in
    let weighted : count i (expand 0 us) ≡ max c.weight 1 =
      rw (zero-add i) at (
        count-expand 0 i us u (get_elem?-map (new_upstream r.circuit_breaker) r.upstreams i c e)) in
    count-or_zero i (max c.weight 1) (expand 0 us) (omega arith) weighted
