-- ===== src/Interleaved.antt =====
-- The handler of crates/gateway/src/proxy.rs as tasks that interleave: a task stands at a point of
-- `route_and_proxy` between two accesses to what the tasks share, which are the limiter, the cache and
-- the balancer of a route, and the metrics. A step is the access and what follows up to the next one.
pub mod Loop
pub mod Local
pub mod Stages
pub mod Rounds
pub mod Effects
pub mod Advance
pub mod Tasks
pub mod Shifts
pub mod Abandoned
pub mod Invariant
pub mod Steady
pub mod Built
pub mod Alone
pub mod Tests
use rust_api_gateway.Base.{
  ℕ, zero, suc, ◌+◌, Bool, true, false, ◌&&◌, Option, none, some, List, [], ◌∷◌, ◌++◌, map, Str,
  str, get_elem?, set, lookup, insert, from_secs, if◌then◌else◌, ltb,
}
use rust_api_gateway.Config.{ok, err}
use rust_api_gateway.Headers.{Http}
use rust_api_gateway.Router.{match_route}
use rust_api_gateway.Breaker.{state_code}
use rust_api_gateway.Balancer.{Upstream, pick, drop_guard}
use rust_api_gateway.Cache
use rust_api_gateway.Auth.{authorize}
use rust_api_gateway.State.{RouteRuntime, GatewayState, route}
use rust_api_gateway.Proxy.{is_idempotent, max_attempts, client_ip, rate_key}
use rust_api_gateway.Proxy.Attempts.{
  Exchange, responds, fails, upstream_latency, circuit_state, report, errors, retryable,
}
use rust_api_gateway.Proxy.Responses.{
  Metric, connection_opened, connection_closed, request_counted, auth_rejection, cache_hit,
  cache_miss, in_loop, Response, Answer, Served, record_request, error, cached_response,
  finished_response, status_or_ok,
}
use rust_api_gateway.Proxy.Handler.{
  Request, host_of, correlation_of, note, refuse, forwarded, uses_cache, key_of,
}
use rust_api_gateway.Proxy.Gateway.{Gateway, World, reject}

-- What a request carries through the retry loop: whether its answer may be stored, its body, the
-- attempts that are left and the number of this one, and the upstreams that have failed.
pub record Round : Type 0 where
  pub enabled : Bool
  pub body : Str
  pub left : ℕ
  pub attempt : ℕ
  pub excluded : List ℕ

module _ (h : Http) where
  -- Where a task stands. From `at_send` to `at_release` it holds a guard on the upstream with an index.
  pub data Point : Type 0 where
    entered : Point
    at_auth at_limit at_cache : (name : Str) → Point
    at_body : (name : Str) (enabled : Bool) → Point
    at_pick : (name : Str) (round : Round) → Point
    at_send : (name : Str) (round : Round) (idx : ℕ) → Point
    at_report : (name : Str) (round : Round) (idx : ℕ) (x : Exchange (Answer h)) → Point
    at_finish : (name : Str) (enabled : Bool) (idx status : ℕ) (answer : Answer h) → Point
    at_store : (name : Str) (idx status : ℕ) (answer : Answer h) → Point
    retrying : (name : Str) (round : Round) (idx : ℕ) → Point
    at_release : (name : Str) (idx : ℕ) (response : Response h) → Point
    closing : (response : Response h) → Point
    answered : (response : Response h) → Point

  -- The route whose runtime the next step is about.
  abbrev pub route_of : Point → Option Str
  route_of entered = none
  route_of (at_auth name) = some name
  route_of (at_limit name) = some name
  route_of (at_cache name) = some name
  route_of (at_body name enabled) = some name
  route_of (at_pick name round) = some name
  route_of (at_send name round idx) = some name
  route_of (at_report name round idx x) = some name
  route_of (at_finish name enabled idx status answer) = some name
  route_of (at_store name idx status answer) = some name
  route_of (retrying name round idx) = some name
  route_of (at_release name idx response) = some name
  route_of (closing response) = none
  route_of (answered response) = none

  -- What a step leaves of the runtime and the limiter, what it counts, and where the task stands then.
  pub record Moved (L : Type 0) : Type 0 where
    pub runtime : RouteRuntime
    pub limiter : L
    pub metrics : List Metric
    pub next : Point

  module _ {L : Type 0} (w : World h L) (req : Request h) (s : GatewayState L) (name : Str)
      (rt : RouteRuntime) where
    abbrev pub refused : ℕ → Str → Served h
    refused =
        refuse h w.iter w.times w.during w.send s.config.server.default_timeout_ms
          s.config.server.max_body_bytes name req rt

    -- Nothing but the task moves.
    abbrev pub go_to : Point → Moved L
    go_to p = record { runtime = rt; limiter = s.limiter; metrics = []; next = p }

    -- The task has a response, and holds no guard.
    abbrev pub respond : Served h → Moved L
    respond served = record {
      runtime = served.runtime;
      limiter = s.limiter;
      metrics = served.metrics;
      next = closing served.response;
    }

    unfoldable pub auth_stage : Moved L
    auth_stage = elim (authorize h w.decode rt.config.auth req.headers) [
      | ok _ ↦ go_to (at_limit name)
      | err reason ↦ respond (note h (auth_rejection name ∷ []) (refused 401 reason))
    ]

    unfoldable pub limit_stage : Moved L
    limit_stage = elim (rt.config.rate_limit) [
      | none ↦ go_to (at_cache name)
      | some rl ↦
          let key = rate_key h rl.scope name (client_ip h req.headers req.peer_ip) req.headers in
          let (limiter, d) = w.check s.limiter key rl.limit (from_secs rl.window_secs) in
          if d.allowed
          then record (go_to (at_cache name)) { limiter = limiter }
          else record (respond (reject h w req s name rt d)) { limiter = limiter }
    ]

    abbrev pub cache_used : Bool
    cache_used =
        uses_cache h w.iter w.times w.during w.send s.config.server.default_timeout_ms
          s.config.server.max_body_bytes name req rt

    abbrev pub cache_key : Str
    cache_key =
        key_of h w.iter w.times w.during w.send s.config.server.default_timeout_ms
          s.config.server.max_body_bytes name req

    unfoldable pub cache_stage : Moved L
    cache_stage = elim cache_used [
      | false ↦ go_to (at_body name false)
      | true ↦ elim (rt.cache) [
        | none ↦ go_to (at_body name true)
        | some cache ↦
            let (cache', found) = Cache.get cache cache_key w.times.looked_up in
            let rt' = record rt { cache = some cache' } in
            elim found [
              | some hit ↦ respond (record {
                runtime = rt';
                metrics = cache_hit name ∷ record_request name req.method (status_or_ok hit.status);
                response = cached_response h hit rt' (correlation_of h req);
              })
              | none ↦ record (go_to (at_body name true)) {
                runtime = rt';
                metrics = cache_miss name ∷ [];
              }
            ]
      ]
    ]

    abbrev pub attempts_of : ℕ
    attempts_of = max_attempts rt.config.retries

    unfoldable pub body_stage : Bool → Moved L
    body_stage enabled = elim (req.body s.config.server.max_body_bytes) [
      | none ↦ respond (refused 413 (str "request body too large"))
      | some body ↦ go_to (
          at_pick name (record {
            enabled = enabled;
            body = body;
            left = attempts_of;
            attempt = 0;
            excluded = [];
          }))
    ]
