-- ===== src/Balancer/Tasks.antt =====
-- The tasks that share a balancer: every interleaving of picks, drops of guards, reports to the
-- breakers and health checks, each of which is a step of its own.
use rust_api_gateway.Base.{ℕ, ◌%◌, ◌≡◌, Bool, none, some, List, ◌∷◌, ◌++◌, get_elem?, set, u64_mod}
use rust_api_gateway.Breaker
use rust_api_gateway.Breaker.{Event}
use rust_api_gateway.Balancer.{Upstream, Balancer, drop_guard, set_healthy, pick}
use rust_api_gateway.Balancer.Order.{IsBalancer, count}

-- A balancer that many tasks share, and the indices of the guards that they hold.
pub record Shared : Type 0 where
  pub balancer : Balancer
  pub held : List ℕ

abbrev pub replace : Balancer → ℕ → Upstream → Balancer
replace b i u = record b { upstreams = set b.upstreams i u }

-- One atomic step of some task.
pub data Step : Shared → Shared → Type 0 where
  picks :
      (clock : ℕ → ℕ) (exclude : List ℕ) (b b' : Balancer) (i : ℕ) (held : List ℕ)
      → pick clock exclude b ≡ some (b', some i)
      → Step (record { balancer = b; held = held }) (record { balancer = b'; held = i ∷ held })
  misses :
      (clock : ℕ → ℕ) (exclude : List ℕ) (b b' : Balancer) (held : List ℕ)
      → pick clock exclude b ≡ some (b', none)
      → Step (record { balancer = b; held = held }) (record { balancer = b'; held = held })
  drops :
      (b : Balancer) (i : ℕ) (u : Upstream) (before after : List ℕ)
      → get_elem? b.upstreams i ≡ some u
      → Step
          (record { balancer = b; held = before ++ (i ∷ after) })
          (record { balancer = replace b i (drop_guard u); held = before ++ after })
  reports :
      (b : Balancer) (i : ℕ) (u : Upstream) (e : Event) (held : List ℕ)
      → get_elem? b.upstreams i ≡ some u
      → Step
          (record { balancer = b; held = held })
          (record {
            balancer = replace b i (record u { breaker = Breaker.step u.breaker e });
            held = held;
          })
  checks :
      (b : Balancer) (i : ℕ) (u : Upstream) (healthy : Bool) (held : List ℕ)
      → get_elem? b.upstreams i ≡ some u
      → Step
          (record { balancer = b; held = held })
          (record { balancer = replace b i (set_healthy u healthy); held = held })

pub data Reach (s : Shared) : Shared → Type 0 where
  here : Reach s s
  next : {t u : Shared} → Reach s t → Step t u → Reach s u

-- Each counter is the number of guards held on its upstream, as 64 bits hold it.
pub record IsCounted (s : Shared) : Type 0 where
  pub usable : IsBalancer s.balancer
  pub counted :
      (j : ℕ) (u : Upstream)
      → get_elem? s.balancer.upstreams j ≡ some u
      → u.active ≡ count j s.held % u64_mod
