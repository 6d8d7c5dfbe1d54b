-- ===== src/Interleaved/Loop.antt =====
-- The stages of the retry loop, and a step of a task.
use rust_api_gateway.Base.{
  ℕ, zero, suc, ◌+◌, Bool, true, false, List, ◌&&◌, Option, none, some, [], ◌∷◌, ◌++◌, map, Str,
  str, get_elem?, set, lookup, insert, ltb, if◌then◌else◌,
}
use rust_api_gateway.Headers.{Http}
use rust_api_gateway.Router.{match_route}
use rust_api_gateway.Breaker.{state_code}
use rust_api_gateway.Balancer.{Upstream, Balancer, pick, drop_guard}
use rust_api_gateway.State.{RouteRuntime, GatewayState, route}
use rust_api_gateway.Proxy.{is_idempotent}
use rust_api_gateway.Proxy.Attempts.{
  Exchange, responds, fails, upstream_latency, circuit_state, report_to, errors, retryable,
}
use rust_api_gateway.Proxy.Responses.{
  connection_opened, connection_closed, request_counted, in_loop, Metric, Answer, Served, error,
  is_stored, record_request, finish_response,
}
use rust_api_gateway.Proxy.Handler.{Request, host_of, correlation_of, forwarded}
use rust_api_gateway.Proxy.Gateway.{Gateway, World}
use rust_api_gateway.Interleaved.{
  Round, Point, entered, at_auth, at_limit, at_cache, at_body, at_pick, at_send, at_report,
  at_finish, at_store, retrying, at_release, closing, answered, Moved, refused, respond, go_to,
  auth_stage, limit_stage, cache_stage, cache_key, attempts_of, body_stage,
}

-- A runtime with the upstreams, or the balancer, changed.
abbrev pub with_balancer : RouteRuntime → Balancer → RouteRuntime
with_balancer rt b = record rt { balancer = b }

abbrev pub with_upstream : RouteRuntime → ℕ → Upstream → RouteRuntime
with_upstream rt i u =
    with_balancer rt (record (rt.balancer) { upstreams = set rt.balancer.upstreams i u })

module _ (h : Http) {L : Type 0} (w : World h L) (req : Request h) where
  module _ (s : GatewayState L) (name : Str) (rt : RouteRuntime) where
    abbrev stay : Point h → Moved h L
    stay = go_to h w req s name rt

    unfoldable pub pick_stage : Round → Option (Moved h L)
    pick_stage round = elim (round.left) [
      | zero ↦ some (
          respond h w req s name rt
            (refused h w req s name rt 502 (str "all upstream attempts failed")))
      | suc left ↦ elim (pick (w.times.picks round.attempt) round.excluded rt.balancer) [
        | none ↦ none
        | some (b, none) ↦ some (
            respond h w req s name (with_balancer rt b)
              (refused h w req s name (with_balancer rt b) 503 (str "no healthy upstream")))
        | some (b, some idx) ↦
            some (record (stay (at_send name (record round { left = left }) idx)) {
              runtime = with_balancer rt b;
            })
      ]
    ]

    unfoldable pub send_stage : Round → ℕ → Option (Moved h L)
    send_stage round idx = elim (get_elem? rt.balancer.upstreams idx) [
      | none ↦ none
      | some u ↦
          let request =
            forwarded h w.iter w.times w.during w.send s.config.server.default_timeout_ms
              s.config.server.max_body_bytes name req rt round.body u.url in
          some (stay (at_report name round idx (w.send round.attempt request)))
    ]

    -- Where a task stands after its report: at the next attempt, or at the end of the request.
    unfoldable pub after_report : Round → ℕ → Exchange (Answer h) → RouteRuntime → Moved h L
    after_report round idx (responds status answer) rt' =
        if retryable (is_idempotent req.method) (responds status answer)
          && ltb (round.attempt + 1) (attempts_of h w req s name rt)
        then go_to h w req s name rt' (retrying name round idx)
        else go_to h w req s name rt' (at_finish name round.enabled idx status answer)
    after_report round idx (fails c) rt' =
        if retryable {R = Answer h} (is_idempotent req.method) (fails c)
          && ltb (round.attempt + 1) (attempts_of h w req s name rt)
        then go_to h w req s name rt' (retrying name round idx)
        else (let gone = refused h w req s name rt' 502 (str "upstream unavailable") in
            record (go_to h w req s name rt' (at_release name idx gone.response)) {
              metrics = gone.metrics;
            })

    unfoldable pub report_stage : Round → ℕ → Exchange (Answer h) → Option (Moved h L)
    report_stage round idx x = elim (get_elem? rt.balancer.upstreams idx) [
      | none ↦ none
      | some u ↦ elim (report_to x (w.times.failed_at round.attempt) u) [
        | none ↦ none
        | some u' ↦
            let rt' = with_upstream rt idx u' in
            let notes =
              upstream_latency
              ∷ circuit_state u.url (state_code u.breaker.inner.state)
              ∷ errors x in
            let after = after_report round idx x rt' in
            some (record after { metrics = map (in_loop name) notes ++ after.metrics })
      ]
    ]

    -- What `finish_response` comes to on the route.
    abbrev pub finish : Bool → ℕ → Answer h → Option (Served h)
    finish enabled status answer =
        finish_response h w.iter w.times.stored w.times.expiry_from rt name req.method status answer
          enabled (cache_key h w req s name rt) (correlation_of h req)

    abbrev pub held_on : ℕ → List Metric → Served h → Moved h L
    held_on idx metrics served = record (respond h w req s name rt served) {
      metrics = metrics;
      next = at_release name idx served.response;
    }

    abbrev pub finished_at : ℕ → Option (Served h) → Option (Moved h L)
    finished_at idx none = none
    finished_at idx (some served) = some (held_on idx served.metrics served)

    abbrev pub stored_at : ℕ → Option (Served h) → Option (Moved h L)
    stored_at idx none = none
    stored_at idx (some served) = some (held_on idx [] served)

    -- `finish_response`, up to the body of a response that is stored.
    unfoldable pub finish_stage : Bool → ℕ → ℕ → Answer h → Option (Moved h L)
    finish_stage enabled idx status answer = elim (is_stored h rt status answer enabled) [
      | true ↦ some (record (stay (at_store name idx status answer)) {
        metrics = record_request name req.method status;
      })
      | false ↦ finished_at idx (finish enabled status answer)
    ]

    -- The rest of it, once the body is there: the request has been counted.
    unfoldable pub store_stage : ℕ → ℕ → Answer h → Option (Moved h L)
    store_stage idx status answer = stored_at idx (finish true status answer)

    -- The guard is dropped, and the task goes on.
    unfoldable pub release_stage : ℕ → Point h → Option (Moved h L)
    release_stage idx next = elim (get_elem? rt.balancer.upstreams idx) [
      | none ↦ none
      | some u ↦ some (record (stay next) { runtime = with_upstream rt idx (drop_guard u) })
    ]

    -- The next attempt, without the upstream that has failed.
    abbrev pub next_round : Round → ℕ → Round
    next_round round idx = record round {
      attempt = round.attempt + 1;
      excluded = round.excluded ++ (idx ∷ []);
    }

    unfoldable pub stage : Point h → Option (Moved h L)
    stage (at_auth _) = some (auth_stage h w req s name rt)
    stage (at_limit _) = some (limit_stage h w req s name rt)
    stage (at_cache _) = some (cache_stage h w req s name rt)
    stage (at_body _ enabled) = some (body_stage h w req s name rt enabled)
    stage (at_pick _ round) = pick_stage round
    stage (at_send _ round idx) = send_stage round idx
    stage (at_report _ round idx x) = report_stage round idx x
    stage (at_finish _ enabled idx status answer) = finish_stage enabled idx status answer
    stage (at_store _ idx status answer) = store_stage idx status answer
    stage (retrying _ round idx) = release_stage idx (at_pick name (next_round round idx))
    stage (at_release _ idx response) = release_stage idx (closing response)
    stage entered = none
    stage (closing response) = none
    stage (answered response) = none

  -- What a step on a route does to the gateway.
  abbrev pub commit_moved : Gateway L → Str → Option (Moved h L) → Option (Gateway L × Point h)
  commit_moved g name none = none
  commit_moved g name (some m) = some (
    record {
      state = record (g.state) {
        routes = insert name m.runtime g.state.routes;
        limiter = m.limiter;
      };
      metrics = g.metrics ++ m.metrics;
    },
    m.next,
  )

  unfoldable pub enter : Gateway L → Gateway L × Point h
  enter g =
      let opened = record g { metrics = g.metrics ++ (connection_opened ∷ []) } in
      elim (match_route g.state.config (some (host_of h req)) req.path) [
        | none ↦ (
          record opened {
            metrics = opened.metrics ++ (request_counted (str "none") req.method 404 ∷ []);
          },
          closing (error h 404 (str "no matching route") (correlation_of h req)),
        )
        | some r ↦ elim (route g.state r.name) [
          | none ↦
              (opened, closing (error h 500 (str "route runtime missing") (correlation_of h req)))
          | some rt ↦ (opened, at_auth r.name)
        ]
      ]

  -- A step on the route of the point.
  abbrev pub move_on : Gateway L → Point h → Str → Option (Gateway L × Point h)
  move_on g p name = elim (lookup name g.state.routes) [
    | none ↦ none
    | some rt ↦ commit_moved g name (stage g.state name rt p)
  ]

  -- A step of the task at a point; a panic is none, and an answered request takes no step.
  unfoldable pub advance : Gateway L → Point h → Option (Gateway L × Point h)
  advance g entered = some (enter g)
  advance g (closing response) =
      some (record g { metrics = g.metrics ++ (connection_closed ∷ []) }, answered response)
  advance g (answered response) = none
  advance g (at_auth name) = move_on g (at_auth name) name
  advance g (at_limit name) = move_on g (at_limit name) name
  advance g (at_cache name) = move_on g (at_cache name) name
  advance g (at_body name enabled) = move_on g (at_body name enabled) name
  advance g (at_pick name round) = move_on g (at_pick name round) name
  advance g (at_send name round idx) = move_on g (at_send name round idx) name
  advance g (at_report name round idx x) = move_on g (at_report name round idx x) name
  advance g (at_finish name enabled idx status answer) =
      move_on g (at_finish name enabled idx status answer) name
  advance g (at_store name idx status answer) = move_on g (at_store name idx status answer) name
  advance g (retrying name round idx) = move_on g (retrying name round idx) name
  advance g (at_release name idx response) = move_on g (at_release name idx response) name
