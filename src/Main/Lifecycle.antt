-- ===== src/Main/Lifecycle.antt =====
-- The tasks of crates/gateway/src/main.rs once it has started: the proxy server, the admin server, the
-- health checks with a task for each upstream, the task that waits for a signal, and `main` itself.
-- A step is what one of them does between two points where it waits. A request is one step, on a
-- connection that is open; what other tasks do to its balancer meanwhile is in the world that it meets.
-- A server that is told to shut down accepts no more connections, and ends once all are closed.
use rust_api_gateway.Base.{
  ℕ, suc, ◌+◌, ◌<◌, ◌≡◌, ◌≢◌, Bool, true, false, some, List, [], All, get_elem?, set, if◌then◌else◌,
  Str, Option, map,
}
use rust_api_gateway.Headers.{Http}
use rust_api_gateway.State.{GatewayState}
use rust_api_gateway.Health.{Task, spawn, probe}
use rust_api_gateway.Proxy.Responses.{Response}
use rust_api_gateway.Proxy.Handler.{Request}
use rust_api_gateway.Proxy.Gateway.{Gateway, World}
use rust_api_gateway.Proxy.Wellformed.{IsOrderly}
use rust_api_gateway.Server.{BodyLimit, proxy_router}

-- A server: before its address is bound, while it accepts connections, while it waits for those that are
-- open to be closed, and once it has ended, with an error or not.
pub data Phase : Type 0 where
  binding serving draining : Phase
  ended : (fine : Bool) → Phase

-- Where `main` stands: at the proxy server, at the two tasks that it waits for, or at its result.
pub data Point : Type 0 where
  at_proxy at_admin at_health : Point
  returned : (fine : Bool) → Point

-- The loop of a health check, and whether it still runs.
pub record Checker : Type 0 where
  pub task : Task
  pub runs : Bool

pub record System (L : Type 0) : Type 0 where
  pub gateway : Gateway L
  pub signalled : Bool
  pub cancelled : Bool
  pub proxy : Phase
  pub proxy_open : ℕ
  pub admin : Phase
  pub admin_open : ℕ
  pub checkers : List Checker
  pub health_returned : Bool
  pub main : Point

abbrev pub checker : Task → Checker
checker t = record { task = t; runs = true }

-- `main` once it has built the state and spawned the tasks.
unfoldable pub launch : {L : Type 0} → GatewayState L → System L
launch s = record {
  gateway = record { state = s; metrics = [] };
  signalled = false;
  cancelled = false;
  proxy = binding;
  proxy_open = 0;
  admin = binding;
  admin_open = 0;
  checkers = map checker (spawn s.routes);
  health_returned = false;
  main = at_proxy;
}

-- `bind(addr).await?`
abbrev pub bound : Bool → Phase
bound fine = if fine then serving else ended false

-- A tick of a health check in the gateway.
abbrev pub ticked : {L : Type 0} → (Str → ℕ → Option ℕ) → Task → Gateway L → Gateway L
ticked reply t g = record g { state = record (g.state) { routes = probe reply t g.state.routes } }

module _ (h : Http) {L : Type 0} (limit : BodyLimit h) where
  -- What the servers and the health checks do for as long as they run: connections that are accepted,
  -- requests on them, and ticks.
  pub data Serving (s : System L) : System L → Type 0 where
    answers :
        (w : World h L) (req : Request h) (g : Gateway L) (r : Response h)
        → 0 < s.proxy_open
        → IsOrderly h w
        → proxy_router h limit w req s.gateway ≡ some (g, r)
        → Serving s (record s { gateway = g })
    proxy_accepts : s.proxy ≡ serving → Serving s (record s { proxy_open = s.proxy_open + 1 })
    admin_accepts : s.admin ≡ serving → Serving s (record s { admin_open = s.admin_open + 1 })
    ticks :
        (reply : Str → ℕ → Option ℕ) (i : ℕ) (t : Task)
        → get_elem? s.checkers i ≡ some (checker t)
        → Serving s (record s { gateway = ticked reply t s.gateway })

  -- What brings the process from its start to its end. A connection is closed by its client or its server.
  pub data Advance (s : System L) : System L → Type 0 where
    signal_received : s.signalled ≡ false → Advance s (record s { signalled = true })
    token_cancelled :
        s.signalled ≡ true → s.cancelled ≡ false → Advance s (record s { cancelled = true })
    proxy_bound : (fine : Bool) → s.proxy ≡ binding → Advance s (record s { proxy = bound fine })
    admin_bound : (fine : Bool) → s.admin ≡ binding → Advance s (record s { admin = bound fine })
    proxy_drains :
        s.proxy ≡ serving → s.cancelled ≡ true → Advance s (record s { proxy = draining })
    admin_drains :
        s.admin ≡ serving → s.cancelled ≡ true → Advance s (record s { admin = draining })
    proxy_closed : (n : ℕ) → s.proxy_open ≡ suc n → Advance s (record s { proxy_open = n })
    admin_closed : (n : ℕ) → s.admin_open ≡ suc n → Advance s (record s { admin_open = n })
    proxy_shut : s.proxy ≡ draining → s.proxy_open ≡ 0 → Advance s (record s { proxy = ended true })
    admin_shut : s.admin ≡ draining → s.admin_open ≡ 0 → Advance s (record s { admin = ended true })
    checker_stops :
        (i : ℕ) (t : Task)
        → s.cancelled ≡ true
        → get_elem? s.checkers i ≡ some (checker t)
        → Advance s (record s { checkers = set s.checkers i (record { task = t; runs = false }) })
    health_returns :
        s.cancelled ≡ true
        → s.health_returned ≡ false
        → All (λ c. c.runs ≡ false) s.checkers
        → Advance s (record s { health_returned = true })
    proxy_awaited :
        s.main ≡ at_proxy → s.proxy ≡ ended true → Advance s (record s { main = at_admin })
    proxy_failed :
        s.main ≡ at_proxy → s.proxy ≡ ended false → Advance s (record s { main = returned false })
    admin_awaited :
        (fine : Bool)
        → s.main ≡ at_admin
        → s.admin ≡ ended fine
        → Advance s (record s { main = at_health })
    health_awaited :
        s.main ≡ at_health
        → s.health_returned ≡ true
        → Advance s (record s { main = returned true })

  -- A step of the process, which ends when `main` returns.
  pub data Step (s s' : System L) : Type 0 where
    serves : ((fine : Bool) → s.main ≢ returned fine) → Serving s s' → Step s s'
    advances : ((fine : Bool) → s.main ≢ returned fine) → Advance s s' → Step s s'

  -- Any number of steps.
  pub data Steps (s : System L) : System L → Type 0 where
    here : Steps s s
    and_then : (t u : System L) → Steps s t → Step t u → Steps s u
