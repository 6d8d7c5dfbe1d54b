-- ===== src/Interleaved/Rounds.antt =====
-- The stages of the retry loop fit, and do not panic.
use rust_api_gateway.Base.{
  ℕ, zero, suc, ◌*◌, ◌+◌, ◌<◌, ◌≡◌, refl, ap, ◌∙◌, inl, inr, Bool, true, ◌&&◌, Bool-cases, Option,
  some, List, Option-cases, get_elem?, [], ◌∷◌, ◌++◌, Str, str, HashMap, length, length-set,
  get_elem?-some, lt-length_of_get, arith, ltb, map,
}
use rust_api_gateway.Headers.{Http}
use rust_api_gateway.Balancer.{Upstream, drop_guard}
use rust_api_gateway.Balancer.Soundness.{pick-Granted}
use rust_api_gateway.Balancer.Tasks.{picks, misses}
use rust_api_gateway.Balancer.Guards.{Step-IsCounted, drops-IsCounted, writes-IsCounted}
use rust_api_gateway.Cache.{CachedResponse, Iterates}
use rust_api_gateway.State.{RouteRuntime, GatewayState}
use rust_api_gateway.Proxy.Attempts.{
  Exchange, responds, fails, upstream_latency, circuit_state, report, report_to, errors, retryable,
}
use rust_api_gateway.Breaker.{state_code}
use rust_api_gateway.Proxy.{is_idempotent}
use rust_api_gateway.Proxy.Instants.{
  ttl_of, IsTimely, IsEarlyAt, cooldown-IsShort, report-cooldown, report_to-report,
  report_to-returns, finish_response-finished_response, finish_response-returns,
}
use rust_api_gateway.Proxy.Trail.{set-SameShape, Scanned-SameShape, Granted-Turn}
use rust_api_gateway.Proxy.Responses.{
  Metric, Served, is_stored, Answer, in_loop, record_request, finished_response,
}
use rust_api_gateway.Proxy.Handler.{Request, correlation_of, refuse, forwarded}
use rust_api_gateway.Proxy.Served.{
  IsRuntime, connections, connections-append, connections-notes, finished_response-IsServed,
}
use rust_api_gateway.Proxy.Gateway.{World}
use rust_api_gateway.Interleaved.{
  Round, Point, at_pick, at_send, at_report, at_finish, at_store, at_release, route_of, Moved,
  refused, respond, go_to, cache_key, attempts_of,
}
use rust_api_gateway.Interleaved.Loop.{
  with_balancer, with_upstream, pick_stage, send_stage, after_report, report_stage, finish_stage,
  store_stage, finish, held_on, finished_at, stored_at, release_stage,
}
use rust_api_gateway.Interleaved.Local.{guard, cost, IsOn, Fits, Keeps-balancer}
use rust_api_gateway.Interleaved.Stages.{go_to-Fits, respond-Fits}

report-active :
    {R : Type 0} (x : Exchange R) (now : ℕ) (u : Upstream) → (report x now u).active ≡ u.active
report-active (responds status r) now u = refl
report-active (fails c) now u = refl

module _ (h : Http) {L : Type 0} (w : World h L) (req : Request h) (s : GatewayState L) (name : Str)
    (rt : RouteRuntime) (v : IsRuntime rt) where
  -- A stage that does not panic, and fits.
  abbrev pub Moves : Point h → Option (Moved h L) → Type 0
  Moves p result = (m : Moved h L) × (result ≡ some m) × Fits h name p rt m

  pub pick_stage-Moves :
      (round : Round) (left : ℕ)
      → round.left ≡ left
      → Moves (at_pick name round) (pick_stage h w req s name rt round)
  unfolding pick_stage refuse record_request
  pick_stage-Moves round zero e =
      let m =
        respond h w req s name rt
          (refused h w req s name rt 502 (str "all upstream attempts failed")) in
      (
        m,
        ground (arith, e),
        respond-Fits h w req s name rt v.bounded (at_pick name round) _ refl refl refl
            (omega arith),
      )
  pick_stage-Moves round (suc left) e =
      let clock = w.times.picks round.attempt in
      let (b, outcome) = pick-Granted clock round.excluded rt.balancer v.usable in
      elim outcome [
        | inl (missed, refusal) ↦
            let rt' = with_balancer rt b in
            let sv = refused h w req s name rt' 503 (str "no healthy upstream") in
            (
              respond h w req s name rt' sv,
              ground (arith, e, missed),
              record {
                keeps = record {
                  same_config = refl;
                  bounded = v.bounded;
                  same_shape = Scanned-SameShape rt.balancer b refusal.scanned;
                  same_ttl = refl;
                  guards = λ held c.
                      Step-IsCounted (misses clock round.excluded rt.balancer b held missed) c;
                };
                on = inr (sv.response, refl);
                below = tt;
                no_connections = refl;
                nearer = omega arith;
              },
            )
        | inr (i, hit, granted) ↦
            let t = Granted-Turn round.excluded rt.balancer b i granted in
            let q = at_send name (record round { left = left }) i in
            (
              record (go_to h w req s name rt q) { runtime = with_balancer rt b },
              ground (arith, e, hit),
              record {
                keeps = record {
                  same_config = refl;
                  bounded = v.bounded;
                  same_shape = t.shape;
                  same_ttl = refl;
                  guards = λ held c.
                      Step-IsCounted (picks clock round.excluded rt.balancer b i held hit) c;
                };
                on = inl refl;
                below = (lt-length_of_get b.upstreams i t.upstream t.at, tt);
                no_connections = refl;
                nearer = omega (arith, e);
              },
            )
      ]

  pub send_stage-Moves :
      (round : Round) (idx : ℕ)
      → idx < length rt.balancer.upstreams
      → Moves (at_send name round idx) (send_stage h w req s name rt round idx)
  unfolding send_stage
  send_stage-Moves round idx below =
      let (u, at) = get_elem?-some rt.balancer.upstreams idx below in
      let request =
        forwarded h w.iter w.times w.during w.send s.config.server.default_timeout_ms
          s.config.server.max_body_bytes name req rt round.body u.url in
      let q = at_report name round idx (w.send round.attempt request) in
      (
        go_to h w req s name rt q,
        ground (arith, at),
        go_to-Fits h w req s name rt v.bounded (at_send name round idx) q refl (inl refl)
            (below, tt) (omega arith),
      )

  pub release_stage-Moves :
      (p q : Point h) (idx : ℕ)
      → guard h p ≡ idx ∷ []
      → guard h q ≡ []
      → IsOn h name q
      → cost h q < cost h p
      → idx < length rt.balancer.upstreams
      → Moves p (release_stage h w req s name rt idx q)
  unfolding release_stage drop_guard
  release_stage-Moves p q idx held free on nearer below =
      let (u, at) = get_elem?-some rt.balancer.upstreams idx below in
      (
        record (go_to h w req s name rt q) { runtime = with_upstream rt idx (drop_guard u) },
        ground (arith, at),
        record {
          keeps = record {
            same_config = refl;
            bounded = v.bounded;
            same_shape = set-SameShape rt.balancer idx u (drop_guard u) at refl;
            same_ttl = refl;
            guards =
                λ others c. rw free (drops-IsCounted rt.balancer idx u [] others at (rw held at c));
          };
          on = on;
          below = rw free tt;
          no_connections = refl;
          nearer = nearer;
        },
      )

  -- Where a report leaves the task: still with its guard, at one of three points.
  record Reported (round : Round) (idx : ℕ) (rt' : RouteRuntime) (m : Moved h L) : Type 0 where
    runtime : m.runtime ≡ rt'
    held : guard h m.next ≡ idx ∷ []
    on : route_of h m.next ≡ some name
    quiet : connections m.metrics ≡ []
    nearer : cost h m.next < 4 * round.left + 6

  after_report-Reported :
      (round : Round) (idx : ℕ) (x : Exchange (Answer h)) (rt' : RouteRuntime)
      → Reported round idx rt' (after_report h w req s name rt round idx x rt')
  unfolding after_report refuse record_request
  after_report-Reported round idx (responds status answer) rt' =
      elim (Bool-cases (
        retryable (is_idempotent req.method) (responds status answer)
        && ltb (round.attempt + 1) (attempts_of h w req s name rt))) [
          | inl again ↦ rw again (record {
            runtime = refl;
            held = refl;
            on = refl;
            quiet = refl;
            nearer = omega arith;
          })
          | inr no_more ↦ rw no_more (record {
            runtime = refl;
            held = refl;
            on = refl;
            quiet = refl;
            nearer = omega arith;
          })
        ]
  after_report-Reported round idx (fails c) rt' =
      elim (Bool-cases (
        retryable {R = Answer h} (is_idempotent req.method) (fails c)
        && ltb (round.attempt + 1) (attempts_of h w req s name rt))) [
          | inl again ↦ rw again (record {
            runtime = refl;
            held = refl;
            on = refl;
            quiet = refl;
            nearer = omega arith;
          })
          | inr no_more ↦ rw no_more (record {
            runtime = refl;
            held = refl;
            on = refl;
            quiet = refl;
            nearer = omega arith;
          })
        ]

  -- A stage that fits, if it does not panic.
  abbrev pub FitsIf : Point h → Option (Moved h L) → Type 0
  FitsIf p result = (m : Moved h L) → result ≡ some m → Fits h name p rt m

  pub Moves-FitsIf : (p : Point h) (result : Option (Moved h L)) → Moves p result → FitsIf p result
  Moves-FitsIf p result (m, runs, fits) m' e =
      let same : m ≡ m' = ground (arith, runs, e) in rw same at fits

  abbrev reported : Round → ℕ → Exchange (Answer h) → Upstream → Moved h L
  reported round idx x u =
      let after =
        after_report h w req s name rt round idx x
          (with_upstream rt idx (report x (w.times.failed_at round.attempt) u)) in
      let notes =
        upstream_latency ∷ circuit_state u.url (state_code u.breaker.inner.state) ∷ errors x in
      record after { metrics = map (in_loop name) notes ++ after.metrics }

  reported-Fits :
      (round : Round) (idx : ℕ) (x : Exchange (Answer h)) (u : Upstream)
      → get_elem? rt.balancer.upstreams idx ≡ some u
      → Fits h name (at_report name round idx x) rt (reported round idx x u)
  reported-Fits round idx x u at =
      let now = w.times.failed_at round.attempt in
      let rt' = with_upstream rt idx (report x now u) in
      let notes =
        upstream_latency ∷ circuit_state u.url (state_code u.breaker.inner.state) ∷ errors x in
      let after = after_report h w req s name rt round idx x rt' in
      let r = after_report-Reported round idx x rt' in
      let still : idx < length rt'.balancer.upstreams =
        rw (length-set rt.balancer.upstreams idx (report x now u))
          (lt-length_of_get rt.balancer.upstreams idx u at) in
      record {
        keeps = record {
          same_config = ap (λ y. y.config) r.runtime;
          bounded = rw r.runtime v.bounded;
          same_shape =
              rw r.runtime
                (set-SameShape rt.balancer idx u (report x now u) at (report-cooldown x now u));
          same_ttl = ap (λ y. ttl_of y.cache) r.runtime;
          guards = λ others c.
              rw (r.runtime, r.held)
                (writes-IsCounted rt.balancer idx u (report x now u) (idx ∷ others) at
                  (report-active x now u) c);
        };
        on = inl r.on;
        below = rw (r.held, r.runtime) (still, tt);
        no_connections =
            connections-append (map (in_loop name) notes) after.metrics
            ∙ rw (connections-notes name notes) r.quiet;
        nearer = r.nearer;
      }

  pub report_stage-FitsIf :
      (round : Round) (idx : ℕ) (x : Exchange (Answer h))
      → FitsIf (at_report name round idx x) (report_stage h w req s name rt round idx x)
  unfolding report_stage
  report_stage-FitsIf round idx x m e = elim (Option-cases (get_elem? rt.balancer.upstreams idx)) [
    | inl gone ↦ absurd (ground (arith, e, gone))
    | inr (u, at) ↦ elim (Option-cases (report_to x (w.times.failed_at round.attempt) u)) [
      | inl panics ↦ absurd (ground (arith, e, at, panics))
      | inr (u', told) ↦
          let one = report_to-report x (w.times.failed_at round.attempt) u u' told in
          let same : reported round idx x u ≡ m = ground (arith, e, at, told, one) in
          rw same at (reported-Fits round idx x u at)
    ]
  ]

  pub report_stage-returns :
      (round : Round) (idx : ℕ) (x : Exchange (Answer h))
      → IsEarlyAt w.times
      → IsTimely rt
      → idx < length rt.balancer.upstreams
      → (m : Moved h L) × (report_stage h w req s name rt round idx x ≡ some m)
  unfolding report_stage
  report_stage-returns round idx x early timely below =
      let (u, at) = get_elem?-some rt.balancer.upstreams idx below in
      let told =
        report_to-returns x (w.times.failed_at round.attempt) u (early.failures round.attempt)
          (cooldown-IsShort rt.balancer.upstreams idx u timely.balancer at) in
      (reported round idx x u, ground (arith, at, told))

  abbrev served_as : Bool → ℕ → Answer h → Served h
  served_as enabled status answer =
      finished_response h w.iter w.times.stored w.times.expiry_from rt name req.method status answer
        enabled (cache_key h w req s name rt) (correlation_of h req)

  finished_response-balancer :
      (iter : HashMap CachedResponse → HashMap CachedResponse) (now later status : ℕ)
      (answer : Answer h) (enabled : Bool) (key id : Str)
      → (finished_response h iter now later rt name req.method status answer enabled key
          id).runtime.balancer
        ≡ rt.balancer
  unfolding finished_response
  finished_response-balancer iter now later status answer enabled key id = ground arith

  -- What is served with a guard held, and is counted here or was counted before.
  held_on-Fits :
      (order : Iterates w.iter) (p : Point h) (enabled : Bool) (idx status : ℕ) (answer : Answer h)
      (ms : List Metric)
      → guard h p ≡ idx ∷ []
      → 2 < cost h p
      → connections ms ≡ []
      → idx < length rt.balancer.upstreams
      → Fits h name p rt (held_on h w req s name rt idx ms (served_as enabled status answer))
  held_on-Fits order p enabled idx status answer ms held near quiet below =
      let key = cache_key h w req s name rt in
      let id = correlation_of h req in
      let sv = served_as enabled status answer in
      let f =
        finished_response-IsServed h w.iter order w.times.stored w.times.expiry_from rt name
          req.method status answer enabled key id v in
      let same =
        finished_response-balancer w.iter w.times.stored w.times.expiry_from status answer enabled
          key id in
      record {
        keeps =
            Keeps-balancer h p (at_release name idx sv.response) rt sv.runtime f.same_config same
              f.sound.bounded held f.same_times.same_ttl;
        on = inl refl;
        below = rw same (below, tt);
        no_connections = quiet;
        nearer = near;
      }

  served_quiet :
      (order : Iterates w.iter) (enabled : Bool) (status : ℕ) (answer : Answer h)
      → connections (served_as enabled status answer).metrics ≡ []
  served_quiet order enabled status answer =
      (finished_response-IsServed h w.iter order w.times.stored w.times.expiry_from rt name
        req.method status answer enabled (cache_key h w req s name rt) (correlation_of h req)
        v).no_connections

  pub finish_stage-FitsIf :
      (order : Iterates w.iter) (enabled : Bool) (idx status : ℕ) (answer : Answer h)
      → idx < length rt.balancer.upstreams
      → FitsIf
          (at_finish name enabled idx status answer)
          (finish_stage h w req s name rt enabled idx status answer)
  unfolding finish_stage record_request
  finish_stage-FitsIf order enabled idx status answer below m e =
      let p = at_finish name enabled idx status answer in
      let q = at_store name idx status answer in
      elim (Bool-cases (is_stored h rt status answer enabled)) [
        | inl stored ↦
            let next : Moved h L = record (go_to h w req s name rt q) {
              metrics = record_request name req.method status;
            } in
            let same : next ≡ m = ground (arith, e, stored) in
            let fits : Fits h name p rt next = record {
              keeps = Keeps-balancer h p q rt rt refl refl v.bounded refl refl;
              on = inl refl;
              below = (below, tt);
              no_connections = refl;
              nearer = omega arith;
            } in
            rw same at fits
        | inr skipped ↦ elim (Option-cases (finish h w req s name rt enabled status answer)) [
          | inl panics ↦ absurd (ground (arith, e, skipped, panics))
          | inr (sv, ends) ↦
              let one =
                finish_response-finished_response h w.iter w.times.stored w.times.expiry_from rt
                  name req.method status answer enabled (cache_key h w req s name rt)
                  (correlation_of h req) sv ends in
              let same : held_on h w req s name rt idx sv.metrics sv ≡ m =
                ground (arith, e, skipped, ends) in
              let made = served_as enabled status answer in
              let fits : Fits h name p rt (held_on h w req s name rt idx sv.metrics sv) = rw one (
                held_on-Fits order p enabled idx status answer made.metrics refl (omega arith)
                  (served_quiet order enabled status answer) below) in
              rw same at fits
        ]
      ]

  pub store_stage-FitsIf :
      (order : Iterates w.iter) (idx status : ℕ) (answer : Answer h)
      → idx < length rt.balancer.upstreams
      → FitsIf (at_store name idx status answer) (store_stage h w req s name rt idx status answer)
  unfolding store_stage
  store_stage-FitsIf order idx status answer below m e =
      elim (Option-cases (finish h w req s name rt true status answer)) [
        | inl panics ↦ absurd (ground (arith, e, panics))
        | inr (sv, ends) ↦
            let one =
              finish_response-finished_response h w.iter w.times.stored w.times.expiry_from rt name
                req.method status answer true (cache_key h w req s name rt) (correlation_of h req)
                sv ends in
            let same : held_on h w req s name rt idx [] sv ≡ m = ground (arith, e, ends) in
            let p = at_store name idx status answer in
            let fits : Fits h name p rt (held_on h w req s name rt idx [] sv) =
              rw one
                (held_on-Fits order p true idx status answer [] refl (omega arith) refl below) in
            rw same at fits
      ]

  finish-returns :
      (enabled : Bool) (status : ℕ) (answer : Answer h)
      → IsEarlyAt w.times
      → IsTimely rt
      → finish h w req s name rt enabled status answer ≡ some (served_as enabled status answer)
  finish-returns enabled status answer early timely =
      finish_response-returns h w.iter w.times.stored w.times.expiry_from rt name req.method status
        answer enabled (cache_key h w req s name rt) (correlation_of h req) early.expiry
        timely.cache

  pub finish_stage-returns :
      (enabled : Bool) (idx status : ℕ) (answer : Answer h)
      → IsEarlyAt w.times
      → IsTimely rt
      → (m : Moved h L) × (finish_stage h w req s name rt enabled idx status answer ≡ some m)
  unfolding finish_stage
  finish_stage-returns enabled idx status answer early timely =
      elim (Bool-cases (is_stored h rt status answer enabled)) [
        | inl stored ↦ (
          record (go_to h w req s name rt (at_store name idx status answer)) {
            metrics = record_request name req.method status;
          },
          rw (stored, finish_stage) refl,
        )
        | inr skipped ↦ (
          held_on h w req s name rt idx (served_as enabled status answer).metrics
              (served_as enabled status answer),
          rw (skipped, finish_stage)
              (ap (finished_at h w req s name rt idx)
                (finish-returns enabled status answer early timely)),
        )
      ]

  pub store_stage-returns :
      (idx status : ℕ) (answer : Answer h)
      → IsEarlyAt w.times
      → IsTimely rt
      → (m : Moved h L) × (store_stage h w req s name rt idx status answer ≡ some m)
  unfolding store_stage
  store_stage-returns idx status answer early timely = (
    held_on h w req s name rt idx [] (served_as true status answer),
    ap (stored_at h w req s name rt idx) (finish-returns true status answer early timely),
  )
