-- ===== src/Health.antt =====
-- The active health checks of crates/gateway/src/health.rs: the tasks that `run` spawns, and a tick of
-- one. The reply to a probe is an argument; when the ticks come and the tasks end is for the steps of
-- Main/Lifecycle.antt.
pub mod Rounds
pub mod Spawned
pub mod Tests
use rust_api_gateway.Base.{
  ℕ, ◌+◌, max, Bool, true, false, ◌&&◌, Option, none, some, List, [], ◌∷◌, ◌++◌, map, Str,
  from_secs, leb, ltb, get_elem?, set, HashMap, lookup, insert,
}
use rust_api_gateway.Config.{HealthCheckConfig}
use rust_api_gateway.Balancer.{Upstream, Balancer, set_healthy}
use rust_api_gateway.State.{RouteRuntime}

-- `r.status().is_success()` of a reply, and a failure without one.
abbrev pub is_success : Option ℕ → Bool
is_success none = false
is_success (some status) = leb 200 status && ltb status 300

abbrev pub probe_url : HealthCheckConfig → Upstream → Str
probe_url hc u = u.url ++ hc.path

-- The period and the timeout of the probes.
abbrev pub interval : HealthCheckConfig → ℕ
interval hc = from_secs (max hc.interval_secs 1)

abbrev pub timeout_ms : HealthCheckConfig → ℕ
timeout_ms hc = max hc.timeout_ms 100

module _ (reply : Str → ℕ → Option ℕ) where
  -- One tick of the task of an upstream.
  unfoldable pub tick : HealthCheckConfig → Upstream → Upstream
  tick hc u = set_healthy u (is_success (reply (probe_url hc u) (timeout_ms hc)))

  -- A tick of each task of a route, of which there are some only if it configures a check.
  unfoldable pub round : RouteRuntime → RouteRuntime
  round runtime = elim (runtime.config.health_check) [
    | none ↦ runtime
    | some hc ↦ record runtime {
      balancer = record (runtime.balancer) { upstreams = map (tick hc) runtime.balancer.upstreams };
    }
  ]

-- A task that is spawned for an upstream, which it shares with the balancer of its route.
pub record Task : Type 0 where
  pub route : Str
  pub index : ℕ
  pub url : Str
  pub interval : ℕ
  pub timeout_ms : ℕ

unfoldable pub spawn_upstreams : Str → HealthCheckConfig → ℕ → List Upstream → List Task
spawn_upstreams name hc i [] = []
spawn_upstreams name hc i (u ∷ us) =
    record {
      route = name;
      index = i;
      url = probe_url hc u;
      interval = interval hc;
      timeout_ms = timeout_ms hc;
    }
    ∷ spawn_upstreams name hc (i + 1) us

-- The tasks of a route, of which there are none unless it configures a check.
unfoldable pub spawn_route : Str → RouteRuntime → List Task
spawn_route name runtime = elim (runtime.config.health_check) [
  | none ↦ []
  | some hc ↦ spawn_upstreams name hc 0 runtime.balancer.upstreams
]

-- The loop of `run` over the routes.
unfoldable pub spawn : HashMap RouteRuntime → List Task
spawn [] = []
spawn ((name, runtime) ∷ routes) = spawn_route name runtime ++ spawn routes

-- What a tick stores in the upstream of a task.
unfoldable pub probed : Bool → ℕ → RouteRuntime → RouteRuntime
probed healthy i runtime = elim (get_elem? runtime.balancer.upstreams i) [
  | none ↦ runtime
  | some u ↦ record runtime {
    balancer = record (runtime.balancer) {
      upstreams = set runtime.balancer.upstreams i (set_healthy u healthy);
    };
  }
]

module _ (reply : Str → ℕ → Option ℕ) where
  -- A tick of a task, in the routes of the gateway.
  unfoldable pub probe : Task → HashMap RouteRuntime → HashMap RouteRuntime
  probe t routes = elim (lookup t.route routes) [
    | none ↦ routes
    | some runtime ↦
        insert t.route (probed (is_success (reply t.url t.timeout_ms)) t.index runtime) routes
  ]

  -- A tick of each of some tasks of one route, in their order.
  unfoldable pub probe_route : List Task → RouteRuntime → RouteRuntime
  probe_route [] runtime = runtime
  probe_route (t ∷ ts) runtime =
      probe_route ts (probed (is_success (reply t.url t.timeout_ms)) t.index runtime)
