-- ===== src/Balancer/Probe.antt =====
-- What asking an upstream whether it is eligible leaves of it.
use rust_api_gateway.Base.{
  ℕ, zero, suc, ◌≡◌, ◌≢◌, refl, ap, ◌∙◌, ◌⊎◌, ◌↔◌, inl, true, some, List, [], ◌∷◌, length,
  get_elem?, set, arith,
}
use rust_api_gateway.Breaker.{opened, half_open, CircuitBreaker, allow_at}
use rust_api_gateway.Balancer.{Upstream, eligible}

abbrev pub on_trial : CircuitBreaker → CircuitBreaker
on_trial b = record b { inner = record (b.inner) { state = half_open } }

-- A probe may put an open breaker on trial, and changes nothing else.
pub record Probed (u u' : Upstream) : Type 0 where
  pub url : u'.url ≡ u.url
  pub weight : u'.weight ≡ u.weight
  pub active : u'.active ≡ u.active
  pub healthy : u'.healthy ≡ u.healthy
  pub breaker :
      (u'.breaker ≡ u.breaker)
      ⊎ ((u.breaker.inner.state ≡ opened) × (u'.breaker ≡ on_trial u.breaker))

-- Healthy, with a breaker that lets requests through at any time.
pub record IsReady (u : Upstream) : Type 0 where
  pub healthy : u.healthy ≡ true
  pub lets_through : u.breaker.inner.state ≢ opened

pub Probed-refl : (u : Upstream) → Probed u u
Probed-refl u = record {
  url = refl;
  weight = refl;
  active = refl;
  healthy = refl;
  breaker = inl refl;
}

pub Probed-trans : (u v w : Upstream) → Probed u v → Probed v w → Probed u w
Probed-trans u v w p q = record {
  url = q.url ∙ p.url;
  weight = q.weight ∙ p.weight;
  active = q.active ∙ p.active;
  healthy = q.healthy ∙ p.healthy;
  breaker = ground (arith, p.breaker, q.breaker);
}

pub Probed-IsReady : (u v : Upstream) → Probed u v → IsReady u → IsReady v
Probed-IsReady u v p r = record {
  healthy = p.healthy ∙ r.healthy;
  lets_through = ground (arith, p.breaker, r.lets_through);
}

pub eligible-Probed : (u : Upstream) (now : ℕ) → Probed u (eligible u now).0
unfolding eligible allow_at
eligible-Probed u now = ground arith

-- An upstream that was found eligible is ready afterwards, and no other is.
pub eligible_iff :
    (u : Upstream) (now : ℕ) → ((eligible u now).1 ≡ true) ↔ IsReady (eligible u now).0
unfolding eligible allow_at
eligible_iff u now = ground arith

pub eligible-ready : (u : Upstream) (now : ℕ) → IsReady u → eligible u now ≡ (u, true)
unfolding eligible allow_at
eligible-ready u now r = ground (arith, r.healthy, r.lets_through)

-- Two lists of upstreams, one by one.
abbrev pub Probes : List Upstream → List Upstream → Type 0
Probes [] [] = Unit
Probes [] (v ∷ vs) = ⊥
Probes (u ∷ us) [] = ⊥
Probes (u ∷ us) (v ∷ vs) = Probed u v × Probes us vs

pub Probes-refl : (us : List Upstream) → Probes us us
Probes-refl [] = tt
Probes-refl (u ∷ us) = (Probed-refl u, Probes-refl us)

pub Probes-trans : (us vs ws : List Upstream) → Probes us vs → Probes vs ws → Probes us ws
Probes-trans [] [] [] p q = tt
Probes-trans [] [] (w ∷ ws) p q = q
Probes-trans [] (v ∷ vs) ws p q = absurd p
Probes-trans (u ∷ us) [] ws p q = absurd p
Probes-trans (u ∷ us) (v ∷ vs) [] p q = q
Probes-trans (u ∷ us) (v ∷ vs) (w ∷ ws) p q =
    (Probed-trans u v w p.0 q.0, Probes-trans us vs ws p.1 q.1)

pub Probes-set :
    (us : List Upstream) (i : ℕ) (u v : Upstream)
    → get_elem? us i ≡ some u
    → Probed u v
    → Probes us (set us i v)
Probes-set [] i u v e p = tt
Probes-set (x ∷ us) zero u v e p = let same : x ≡ u = cc in (rw same p, Probes-refl us)
Probes-set (x ∷ us) (suc i) u v e p = (Probed-refl x, Probes-set us i u v e p)

pub Probes-get :
    (us vs : List Upstream) (i : ℕ) (u : Upstream)
    → Probes us vs
    → get_elem? us i ≡ some u
    → (v : Upstream) × (get_elem? vs i ≡ some v) × Probed u v
Probes-get [] vs i u p e = absurd (ground arith)
Probes-get (x ∷ us) [] i u p e = absurd p
Probes-get (x ∷ us) (y ∷ vs) zero u p e = let same : x ≡ u = cc in (y, refl, rw same at p.0)
Probes-get (x ∷ us) (y ∷ vs) (suc i) u p e = Probes-get us vs i u p.1 e

pub Probes-length : (us vs : List Upstream) → Probes us vs → length vs ≡ length us
Probes-length [] [] p = refl
Probes-length [] (v ∷ vs) p = absurd p
Probes-length (u ∷ us) [] p = absurd p
Probes-length (u ∷ us) (v ∷ vs) p = ap suc (Probes-length us vs p.1)
