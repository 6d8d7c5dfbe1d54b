-- ===== src/Main/Measure.antt =====
-- How far the process is from its end.
use rust_api_gateway.Base.{
  ℕ, zero, suc, ◌+◌, ◌<◌, ◌≡◌, ◌≢◌, refl, Bool, true, false, not, some, List, [], ◌∷◌, get_elem?,
  set, arith,
}
use rust_api_gateway.Headers.{Http}
use rust_api_gateway.Health.{Task}
use rust_api_gateway.Server.{BodyLimit}
use rust_api_gateway.Main.Lifecycle.{
  Phase, binding, serving, draining, ended, Point, at_proxy, at_admin, at_health, returned, Checker,
  System, checker, bound, Serving, answers, proxy_accepts, admin_accepts, ticks, Advance,
  proxy_drains, admin_drains, proxy_closed, admin_closed, signal_received, token_cancelled,
  proxy_bound, admin_bound, proxy_shut, admin_shut, checker_stops, health_returns, proxy_awaited,
  proxy_failed, admin_awaited, health_awaited,
}

abbrev unless : Bool → ℕ
unless true = 0
unless false = 1

abbrev of_phase : Phase → ℕ
of_phase binding = 3
of_phase serving = 2
of_phase draining = 1
of_phase (ended fine) = 0

abbrev of_point : Point → ℕ
of_point at_proxy = 3
of_point at_admin = 2
of_point at_health = 1
of_point (returned fine) = 0

abbrev running : List Checker → ℕ
running [] = 0
running (c ∷ cs) = unless (not c.runs) + running cs

-- A bound on the steps that are left before `main` returns, where no more connections are accepted.
unfoldable pub remaining : {L : Type 0} → System L → ℕ
remaining s =
    unless s.signalled
    + unless s.cancelled
    + of_phase s.proxy
    + s.proxy_open
    + of_phase s.admin
    + s.admin_open
    + running s.checkers
    + unless s.health_returned
    + of_point s.main

running-set :
    (cs : List Checker) (i : ℕ) (t : Task)
    → get_elem? cs i ≡ some (checker t)
    → running (set cs i (record { task = t; runs = false })) + 1 ≡ running cs
running-set [] i t e = absurd (ground arith)
running-set (c ∷ cs) zero t e = ground arith
running-set (c ∷ cs) (suc i) t e = omega (arith, running-set cs i t e)

bound-less : (fine : Bool) → of_phase (bound fine) < 3
bound-less true = omega arith
bound-less false = omega arith

module _ (h : Http) {L : Type 0} (limit : BodyLimit h) where
  -- Every step towards the end leaves fewer.
  pub Advance-remaining : (s s' : System L) → Advance h limit s s' → remaining s' < remaining s
  unfolding remaining
  Advance-remaining s _ (signal_received e) = ground (arith, e)
  Advance-remaining s _ (token_cancelled e f) = ground (arith, f)
  Advance-remaining s _ (proxy_bound fine e) = ground (arith, e, bound-less fine)
  Advance-remaining s _ (admin_bound fine e) = ground (arith, e, bound-less fine)
  Advance-remaining s _ (proxy_drains e c) = ground (arith, e)
  Advance-remaining s _ (admin_drains e c) = ground (arith, e)
  Advance-remaining s _ (proxy_closed n e) = omega (arith, e)
  Advance-remaining s _ (admin_closed n e) = omega (arith, e)
  Advance-remaining s _ (proxy_shut e f) = ground (arith, e)
  Advance-remaining s _ (admin_shut e f) = ground (arith, e)
  Advance-remaining s _ (checker_stops i t e at) = omega (arith, running-set s.checkers i t at)
  Advance-remaining s _ (health_returns e f a) = ground (arith, f)
  Advance-remaining s _ (proxy_awaited e f) = ground (arith, e)
  Advance-remaining s _ (proxy_failed e f) = ground (arith, e)
  Advance-remaining s _ (admin_awaited fine e f) = ground (arith, e)
  Advance-remaining s _ (health_awaited e f) = ground (arith, e)

  -- The others leave as many, once no more connections are accepted.
  pub Serving-remaining :
      (s s' : System L)
      → s.proxy ≢ serving
      → s.admin ≢ serving
      → Serving h limit s s'
      → remaining s' ≡ remaining s
  unfolding remaining
  Serving-remaining s _ p a (answers w req g r e o runs) = refl
  Serving-remaining s _ p a (proxy_accepts e) = absurd (p e)
  Serving-remaining s _ p a (admin_accepts e) = absurd (a e)
  Serving-remaining s _ p a (ticks reply i t at) = refl
