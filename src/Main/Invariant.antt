-- ===== src/Main/Invariant.antt =====
-- What holds of the process at every point.
use rust_api_gateway.Base.{◌≡◌, refl, true, false}
use rust_api_gateway.Headers.{Http}
use rust_api_gateway.State.{GatewayState}
use rust_api_gateway.Proxy.Wellformed.{IsWellformed}
use rust_api_gateway.Server.{BodyLimit}
use rust_api_gateway.Server.Routers.{proxy_router-IsWellformed}
use rust_api_gateway.Config.{ok}
use rust_api_gateway.Telemetry.{Prometheus, PrometheusLaws}
use rust_api_gateway.Main.{Environment, Started, start}
use rust_api_gateway.Main.Start.{start-IsWellformed}
use rust_api_gateway.Main.Sound.{
  probe-IsWellformed, All-set, IsSound, IsAwaited, launch-IsSound, IsAwaited-proxy, IsAwaited-admin,
  IsAwaited-health, IsShutDown-cancelled, IsShutDown-closed, IsShutDown-bound, moved,
}
use rust_api_gateway.Main.Lifecycle.{
  ended, at_admin, at_health, returned, System, launch, bound, Serving, answers, proxy_accepts,
  admin_accepts, ticks, Advance, draining, proxy_drains, admin_drains, proxy_closed, admin_closed,
  signal_received, token_cancelled, proxy_bound, admin_bound, proxy_shut, admin_shut, checker_stops,
  health_returns, proxy_awaited, proxy_failed, admin_awaited, health_awaited, serves, advances,
  Steps, here, and_then,
}

module _ (h : Http) {L : Type 0} (limit : BodyLimit h) where
  Serving-IsSound : (s s' : System L) → Serving h limit s s' → IsSound s → IsSound s'
  Serving-IsSound s _ (answers w req g r e o runs) v = record {
    wellformed = proxy_router-IsWellformed h limit w req s.gateway g r o v.wellformed runs;
    signalled = v.signalled;
    proxy_shut_down = v.proxy_shut_down;
    admin_shut_down = v.admin_shut_down;
    checks_stopped = v.checks_stopped;
    awaited = v.awaited;
  }
  Serving-IsSound s _ (proxy_accepts e) v = record {
    wellformed = v.wellformed;
    signalled = v.signalled;
    proxy_shut_down = rw e tt;
    admin_shut_down = v.admin_shut_down;
    checks_stopped = v.checks_stopped;
    awaited = v.awaited;
  }
  Serving-IsSound s _ (admin_accepts e) v = record {
    wellformed = v.wellformed;
    signalled = v.signalled;
    proxy_shut_down = v.proxy_shut_down;
    admin_shut_down = rw e tt;
    checks_stopped = v.checks_stopped;
    awaited = v.awaited;
  }
  Serving-IsSound s _ (ticks reply i t at) v = record {
    wellformed = probe-IsWellformed reply t s.gateway.state v.wellformed;
    signalled = v.signalled;
    proxy_shut_down = v.proxy_shut_down;
    admin_shut_down = v.admin_shut_down;
    checks_stopped = v.checks_stopped;
    awaited = v.awaited;
  }

  Advance-IsSound : (s s' : System L) → Advance h limit s s' → IsSound s → IsSound s'
  Advance-IsSound s _ (signal_received e) v = record {
    wellformed = v.wellformed;
    signalled = λ _. refl;
    proxy_shut_down = v.proxy_shut_down;
    admin_shut_down = v.admin_shut_down;
    checks_stopped = v.checks_stopped;
    awaited = v.awaited;
  }
  Advance-IsSound s _ (token_cancelled e f) v = record {
    wellformed = v.wellformed;
    signalled = λ _. e;
    proxy_shut_down = IsShutDown-cancelled s.proxy s.cancelled s.proxy_open v.proxy_shut_down;
    admin_shut_down = IsShutDown-cancelled s.admin s.cancelled s.admin_open v.admin_shut_down;
    checks_stopped = λ b. (refl, (v.checks_stopped b).1);
    awaited = v.awaited;
  }
  Advance-IsSound s _ (proxy_bound fine e) v = record {
    wellformed = v.wellformed;
    signalled = v.signalled;
    proxy_shut_down = IsShutDown-bound fine s.cancelled s.proxy_open;
    admin_shut_down = v.admin_shut_down;
    checks_stopped = v.checks_stopped;
    awaited =
        IsAwaited-proxy s.main s.proxy (bound fine) s.admin s.health_returned (λ b x. cc) v.awaited;
  }
  Advance-IsSound s _ (admin_bound fine e) v = record {
    wellformed = v.wellformed;
    signalled = v.signalled;
    proxy_shut_down = v.proxy_shut_down;
    admin_shut_down = IsShutDown-bound fine s.cancelled s.admin_open;
    checks_stopped = v.checks_stopped;
    awaited =
        IsAwaited-admin s.main s.proxy s.admin (bound fine) s.health_returned (λ b x. cc) v.awaited;
  }
  Advance-IsSound s _ (proxy_drains e c) v = record {
    wellformed = v.wellformed;
    signalled = v.signalled;
    proxy_shut_down = c;
    admin_shut_down = v.admin_shut_down;
    checks_stopped = v.checks_stopped;
    awaited =
        IsAwaited-proxy s.main s.proxy draining s.admin s.health_returned (λ b x. cc) v.awaited;
  }
  Advance-IsSound s _ (admin_drains e c) v = record {
    wellformed = v.wellformed;
    signalled = v.signalled;
    proxy_shut_down = v.proxy_shut_down;
    admin_shut_down = c;
    checks_stopped = v.checks_stopped;
    awaited =
        IsAwaited-admin s.main s.proxy s.admin draining s.health_returned (λ b x. cc) v.awaited;
  }
  Advance-IsSound s _ (proxy_closed n e) v = record {
    wellformed = v.wellformed;
    signalled = v.signalled;
    proxy_shut_down = IsShutDown-closed s.proxy s.cancelled n (rw e at v.proxy_shut_down);
    admin_shut_down = v.admin_shut_down;
    checks_stopped = v.checks_stopped;
    awaited = v.awaited;
  }
  Advance-IsSound s _ (admin_closed n e) v = record {
    wellformed = v.wellformed;
    signalled = v.signalled;
    proxy_shut_down = v.proxy_shut_down;
    admin_shut_down = IsShutDown-closed s.admin s.cancelled n (rw e at v.admin_shut_down);
    checks_stopped = v.checks_stopped;
    awaited = v.awaited;
  }
  Advance-IsSound s _ (proxy_shut e f) v = record {
    wellformed = v.wellformed;
    signalled = v.signalled;
    proxy_shut_down = (rw e at v.proxy_shut_down, f);
    admin_shut_down = v.admin_shut_down;
    checks_stopped = v.checks_stopped;
    awaited =
        IsAwaited-proxy s.main s.proxy (ended true) s.admin s.health_returned (λ b x. cc) v.awaited;
  }
  Advance-IsSound s _ (admin_shut e f) v = record {
    wellformed = v.wellformed;
    signalled = v.signalled;
    proxy_shut_down = v.proxy_shut_down;
    admin_shut_down = (rw e at v.admin_shut_down, f);
    checks_stopped = v.checks_stopped;
    awaited =
        IsAwaited-admin s.main s.proxy s.admin (ended true) s.health_returned (λ b x. cc) v.awaited;
  }
  Advance-IsSound s _ (checker_stops i t e at) v = record {
    wellformed = v.wellformed;
    signalled = v.signalled;
    proxy_shut_down = v.proxy_shut_down;
    admin_shut_down = v.admin_shut_down;
    checks_stopped = λ b. (e, All-set s.checkers i t (v.checks_stopped b).1);
    awaited = v.awaited;
  }
  Advance-IsSound s _ (health_returns e f a) v = record {
    wellformed = v.wellformed;
    signalled = v.signalled;
    proxy_shut_down = v.proxy_shut_down;
    admin_shut_down = v.admin_shut_down;
    checks_stopped = λ _. (e, a);
    awaited = IsAwaited-health s.main s.proxy s.admin s.health_returned v.awaited;
  }
  Advance-IsSound s _ (proxy_awaited e f) v = moved s at_admin f v
  Advance-IsSound s _ (proxy_failed e f) v = moved s (returned false) f v
  Advance-IsSound s _ (admin_awaited fine e f) v =
      moved s at_health (rw e at v.awaited, (fine, f)) v
  Advance-IsSound s _ (health_awaited e f) v =
      let w : IsAwaited at_health s.proxy s.admin s.health_returned = rw e at v.awaited in
      moved s (returned true) (w.0, w.1, f) v

  -- What holds of the process at every point from its launch on.
  pub Steps-IsSound :
      (start : GatewayState L) (s : System L)
      → IsWellformed start
      → Steps h limit (launch start) s
      → IsSound s
  Steps-IsSound start _ v here = launch-IsSound start v
  Steps-IsSound start s v (and_then t _ steps (serves live a)) =
      Serving-IsSound t s a (Steps-IsSound start t v steps)
  Steps-IsSound start s v (and_then t _ steps (advances live a)) =
      Advance-IsSound t s a (Steps-IsSound start t v steps)

  -- Once the binary has started, at every point of every interleaving of connections, requests that are
  -- answered, ticks of health checks, the signal, the two servers and main, the gateway is well formed,
  -- nothing is shut down before the signal, a server has ended without an error only with no connection
  -- open, the health checks have returned only when each has stopped, and main has moved on only past
  -- what has ended.
  pub Steps-start :
      (env : Environment L) (p : Prometheus) (laws : PrometheusLaws p) (st : Started env p)
      (s : System L)
      → start env p ≡ ok st
      → Steps h limit (launch st.state) s
      → IsSound s
  Steps-start env p laws st s e steps =
      Steps-IsSound st.state s (start-IsWellformed env p laws st e) steps
