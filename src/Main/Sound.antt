-- ===== src/Main/Sound.antt =====
-- A sound process, and how its parts change.
use rust_api_gateway.Base.{
  ℕ, zero, suc, ◌≡◌, ◌≢◌, refl, inl, inr, Bool, true, false, Option-cases, List, [], ◌∷◌, All, set,
  Str, Option, arith, lookup,
}
use rust_api_gateway.State.{RouteRuntime, GatewayState}
use rust_api_gateway.Health.{Task, is_success, probed, probe}
use rust_api_gateway.Health.Spawned.{probed-config, probed-cache, probed-IsBalancer}
use rust_api_gateway.Proxy.Served.{IsRuntime}
use rust_api_gateway.Proxy.Wellformed.{IsWellformed, served_by-IsWellformed}
use rust_api_gateway.Main.Lifecycle.{
  Phase, binding, serving, draining, ended, Point, at_proxy, at_admin, at_health, returned, Checker,
  System, launch, bound,
}

probed-IsRuntime :
    (healthy : Bool) (i : ℕ) (rt : RouteRuntime) → IsRuntime rt → IsRuntime (probed healthy i rt)
probed-IsRuntime healthy i rt v = record {
  usable = probed-IsBalancer healthy i rt v.usable;
  bounded = rw (probed-cache healthy i rt) v.bounded;
}

-- A tick of a health check keeps the gateway well formed.
pub probe-IsWellformed :
    {L : Type 0} (reply : Str → ℕ → Option ℕ) (t : Task) (s : GatewayState L)
    → IsWellformed s
    → IsWellformed (record s { routes = probe reply t s.routes })
unfolding probe
probe-IsWellformed reply t s v = elim (Option-cases (lookup t.route s.routes)) [
  | inl gone ↦ rw (gone, probe) v
  | inr (rt, there) ↦
      let healthy = is_success (reply t.url t.timeout_ms) in
      rw (there, probe)
        (served_by-IsWellformed s t.route rt (probed healthy t.index rt) s.limiter v there
          (probed-IsRuntime healthy t.index rt (v.sound t.route rt there))
          (probed-config healthy t.index rt))
]

pub All-set :
    (cs : List Checker) (i : ℕ) (t : Task)
    → All (λ c. c.runs ≡ false) cs
    → All (λ c. c.runs ≡ false) (set cs i (record { task = t; runs = false }))
All-set [] i t a = tt
All-set (c ∷ cs) zero t a = (refl, a.1)
All-set (c ∷ cs) (suc i) t a = (a.0, All-set cs i t a.1)

-- Where `main` stands, the tasks that it has waited for have ended: the proxy, the admin app and the
-- health checks.
abbrev pub IsAwaited : Point → (proxy admin : Phase) → (health_returned : Bool) → Type 0
IsAwaited at_proxy proxy admin health_returned = Unit
IsAwaited at_admin proxy admin health_returned = proxy ≡ ended true
IsAwaited at_health proxy admin health_returned =
    (proxy ≡ ended true) × ((fine : Bool) × (admin ≡ ended fine))
IsAwaited (returned true) proxy admin health_returned =
    (proxy ≡ ended true) × ((fine : Bool) × (admin ≡ ended fine)) × (health_returned ≡ true)
IsAwaited (returned false) proxy admin health_returned = proxy ≡ ended false

-- A server stops accepting connections only once the token is cancelled, and ends without an error only
-- with no connection open.
abbrev pub IsShutDown : Phase → (cancelled : Bool) → (connections : ℕ) → Type 0
IsShutDown binding cancelled connections = Unit
IsShutDown serving cancelled connections = Unit
IsShutDown draining cancelled connections = cancelled ≡ true
IsShutDown (ended true) cancelled connections = (cancelled ≡ true) × (connections ≡ 0)
IsShutDown (ended false) cancelled connections = Unit

pub IsShutDown-cancelled : (p : Phase) (b : Bool) (n : ℕ) → IsShutDown p b n → IsShutDown p true n
IsShutDown-cancelled binding b n v = tt
IsShutDown-cancelled serving b n v = tt
IsShutDown-cancelled draining b n v = refl
IsShutDown-cancelled (ended true) b n v = (refl, v.1)
IsShutDown-cancelled (ended false) b n v = tt

pub IsShutDown-closed : (p : Phase) (b : Bool) (n : ℕ) → IsShutDown p b (suc n) → IsShutDown p b n
IsShutDown-closed binding b n v = tt
IsShutDown-closed serving b n v = tt
IsShutDown-closed draining b n v = v
IsShutDown-closed (ended true) b n v = absurd (omega (arith, v.1))
IsShutDown-closed (ended false) b n v = tt

pub IsShutDown-bound : (fine b : Bool) (n : ℕ) → IsShutDown (bound fine) b n
IsShutDown-bound true b n = tt
IsShutDown-bound false b n = tt

-- The gateway serves, nothing is shut down unless a signal has arrived, and `main` waits for its tasks.
pub record IsSound {L : Type 0} (s : System L) : Type 0 where
  pub wellformed : IsWellformed s.gateway.state
  pub signalled : s.cancelled ≡ true → s.signalled ≡ true
  pub proxy_shut_down : IsShutDown s.proxy s.cancelled s.proxy_open
  pub admin_shut_down : IsShutDown s.admin s.cancelled s.admin_open
  pub checks_stopped :
      s.health_returned ≡ true → (s.cancelled ≡ true) × All (λ c. c.runs ≡ false) s.checkers
  pub awaited : IsAwaited s.main s.proxy s.admin s.health_returned

pub launch-IsSound : {L : Type 0} (s : GatewayState L) → IsWellformed s → IsSound (launch s)
unfolding launch
launch-IsSound s v = record {
  wellformed = v;
  signalled = λ e. absurd (ground (arith, e));
  proxy_shut_down = tt;
  admin_shut_down = tt;
  checks_stopped = λ e. absurd (ground (arith, e));
  awaited = tt;
}

pub IsAwaited-proxy :
    (m : Point) (p q a : Phase) (b : Bool)
    → ((fine : Bool) → p ≢ ended fine)
    → IsAwaited m p a b
    → IsAwaited m q a b
IsAwaited-proxy at_proxy p q a b runs w = tt
IsAwaited-proxy at_admin p q a b runs w = absurd (runs true w)
IsAwaited-proxy at_health p q a b runs w = absurd (runs true w.0)
IsAwaited-proxy (returned true) p q a b runs w = absurd (runs true w.0)
IsAwaited-proxy (returned false) p q a b runs w = absurd (runs false w)

pub IsAwaited-admin :
    (m : Point) (p a c : Phase) (b : Bool)
    → ((fine : Bool) → a ≢ ended fine)
    → IsAwaited m p a b
    → IsAwaited m p c b
IsAwaited-admin at_proxy p a c b runs w = tt
IsAwaited-admin at_admin p a c b runs w = w
IsAwaited-admin at_health p a c b runs w = absurd (runs w.1.0 w.1.1)
IsAwaited-admin (returned true) p a c b runs w = absurd (runs w.1.0 w.1.1)
IsAwaited-admin (returned false) p a c b runs w = w

pub IsAwaited-health :
    (m : Point) (p a : Phase) (b : Bool) → IsAwaited m p a b → IsAwaited m p a true
IsAwaited-health at_proxy p a b w = tt
IsAwaited-health at_admin p a b w = w
IsAwaited-health at_health p a b w = w
IsAwaited-health (returned true) p a b w = (w.0, w.1, refl)
IsAwaited-health (returned false) p a b w = w

-- `main` goes on to another point.
pub moved :
    {L : Type 0} (s : System L) (m : Point)
    → IsAwaited m s.proxy s.admin s.health_returned
    → IsSound s
    → IsSound (record s { main = m })
moved s m w v = record {
  wellformed = v.wellformed;
  signalled = v.signalled;
  proxy_shut_down = v.proxy_shut_down;
  admin_shut_down = v.admin_shut_down;
  checks_stopped = v.checks_stopped;
  awaited = w;
}
