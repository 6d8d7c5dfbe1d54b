-- ===== src/Interleaved/Alone/Loop.antt =====
-- The end of an attempt in `route_and_proxy` of crates/gateway/src/proxy.rs, for a request that is
-- alone: the response is finished, or the next attempt is made.
use rust_api_gateway.Base.{
  str, arith, inl, inr, Bool-cases, Option, Option-cases, ℕ, ◌+◌, ◌≡◌, refl, sym, ap, ◌∙◌, Bool,
  true, false, ◌&&◌, some, List, [], ◌∷◌, ◌++◌, map, Str, get_elem?, get_elem?-set_self,
  lt-length_of_get, set, ltb,
}
use rust_api_gateway.Headers.{Http}
use rust_api_gateway.Balancer.{Upstream, Balancer, drop_guard}
use rust_api_gateway.State.{RouteRuntime}
use rust_api_gateway.Proxy.{is_idempotent, max_attempts}
use rust_api_gateway.Proxy.Attempts.{
  Exchange, responds, fails, Outcome, finishes, report, report_to, retryable, answer,
}
use rust_api_gateway.Proxy.Responses.{Metric, in_loop, Answer, Served, is_stored, record_request}
use rust_api_gateway.Proxy.Handler.{Request, correlation_of, note, refuse, end_with, key_of}
use rust_api_gateway.Proxy.Gateway.{Gateway, World}
use rust_api_gateway.Proxy.Wellformed.{IsOrderly}
use rust_api_gateway.Interleaved.{
  Round, Point, at_pick, at_report, at_finish, at_store, retrying, at_release, Moved,
}
use rust_api_gateway.Interleaved.Loop.{
  with_balancer, after_report, report_stage, finish_stage, store_stage, finished_at, stored_at,
  release_stage, stage,
}
use rust_api_gateway.Interleaved.Alone.{on}
use rust_api_gateway.Interleaved.Alone.Report.{
  append_empty, changed, notes_of, rebalanced, finish_response-rebalanced, finish_response-metrics,
  Closes, Closes-same, step-Closes, release-Closes, set-set,
}

module _ (h : Http) {L : Type 0} (w : World h L) (o : IsOrderly h w) (req : Request h)
    (g : Gateway L) (name : Str) (l : L) where
  -- The answer to an outcome, on a gateway with the configuration.
  abbrev pub ended : RouteRuntime → Bool → Outcome (Answer h) → Option (Served h)
  ended rt enabled outcome =
      end_with h w.iter w.times w.during w.send g.state.config.server.default_timeout_ms
        g.state.config.server.max_body_bytes name req rt enabled
        (key_of h w.iter w.times w.during w.send g.state.config.server.default_timeout_ms
          g.state.config.server.max_body_bytes name req)
        outcome

  abbrev dropped : Served h → Balancer → Served h
  dropped f c = record f { runtime = with_balancer f.runtime c }

  over :
      (rt : RouteRuntime) (c : Balancer) (enabled : Bool) (status : ℕ) (a : Answer h)
      → ended (with_balancer rt c) enabled (finishes status a)
        ≡ rebalanced h c (ended rt enabled (finishes status a))
  unfolding end_with
  over rt c enabled status a =
      finish_response-rebalanced h w.iter w.times.stored w.times.expiry_from rt name req.method
        status a enabled
        (key_of h w.iter w.times w.during w.send g.state.config.server.default_timeout_ms
          g.state.config.server.max_body_bytes name req)
        (correlation_of h req) c

  counted_once :
      (rt : RouteRuntime) (enabled : Bool) (status : ℕ) (a : Answer h) (f : Served h)
      → ended rt enabled (finishes status a) ≡ some f
      → f.metrics ≡ record_request name req.method status
  unfolding end_with
  counted_once rt enabled status a f e =
      finish_response-metrics h w.iter w.times.stored w.times.expiry_from rt name req.method status
        a enabled
        (key_of h w.iter w.times w.during w.send g.state.config.server.default_timeout_ms
          g.state.config.server.max_body_bytes name req)
        (correlation_of h req) f e

  -- A response is finished, with the guard still held, and the guard is dropped.
  finish-Closes :
      (rt : RouteRuntime) (b : Balancer) (idx : ℕ) (u v : Upstream) (ms : List Metric)
      (enabled : Bool) (status : ℕ) (a : Answer h) (f : Served h)
      → get_elem? b.upstreams idx ≡ some u
      → ended rt enabled (finishes status a) ≡ some f
      → Closes h w o req g name l
          (with_balancer rt (changed b idx v))
          ms
          (at_finish name enabled idx status a)
          (dropped f (changed b idx (drop_guard v)))
  unfolding end_with stage finish_stage store_stage
  finish-Closes rt b idx u v ms enabled status a f at returns =
      let c = changed b idx v in
      let d = changed b idx (drop_guard v) in
      let here = at_finish name enabled idx status a in
      let s = (on h w req g name (with_balancer rt c) l ms).state in
      let runs : ended (with_balancer rt c) enabled (finishes status a) ≡ some (dropped f c) =
        over rt c enabled status a ∙ ap (rebalanced h c) returns in
      let last : Served h = record {
        runtime = with_balancer f.runtime d;
        metrics = [];
        response = f.response;
      } in
      let release : (t : List Metric)
          → Closes h w o req g name l (with_balancer f.runtime c) t (at_release name idx f.response)
              last =
        λ t. release-Closes h w o req g name l f.runtime b idx u v t f.response at in
      elim (Bool-cases (is_stored h rt status a enabled)) [
        | inr skipped ↦
            let m : Moved h L = record {
              runtime = with_balancer f.runtime c;
              limiter = l;
              metrics = f.metrics;
              next = at_release name idx f.response;
            } in
            Closes-same h w o req g name l (with_balancer rt c) ms here (note h f.metrics last)
              (dropped f d) (ap (λ t. record last { metrics = t }) (append_empty f.metrics))
              (step-Closes h w o req g name l (with_balancer rt c) ms here m last refl refl
                (rw (stage, finish_stage, skipped)
                  (ap (finished_at h w req s name (with_balancer rt c) idx) runs))
                (release (ms ++ f.metrics)))
        | inl stored ↦
            let on : enabled ≡ true = ground (arith, stored) in
            let counted = record_request name req.method status in
            let m : Moved h L = record {
              runtime = with_balancer rt c;
              limiter = l;
              metrics = counted;
              next = at_store name idx status a;
            } in
            let n : Moved h L = record {
              runtime = with_balancer f.runtime c;
              limiter = l;
              metrics = [];
              next = at_release name idx f.response;
            } in
            let stores : ended (with_balancer rt c) true (finishes status a) ≡ some (dropped f c) =
              ap (λ x. ended (with_balancer rt c) x (finishes status a)) (sym on) ∙ runs in
            Closes-same h w o req g name l (with_balancer rt c) ms here (note h counted last)
              (dropped f d)
              (ap (λ t. record last { metrics = t })
                (append_empty counted ∙ sym (counted_once rt enabled status a f returns)))
              (step-Closes h w o req g name l (with_balancer rt c) ms here m last refl refl
                (rw (stage, finish_stage, stored) refl)
                (step-Closes h w o req g name l (with_balancer rt c) (ms ++ counted)
                  (at_store name idx status a) n last refl refl
                  (ap (stored_at h w req s name (with_balancer rt c) idx) stores)
                  (release ((ms ++ counted) ++ []))))
      ]

  -- Whether there is a next attempt.
  abbrev pub goes_on : RouteRuntime → ℕ → Exchange (Answer h) → Bool
  goes_on rt attempt x =
      retryable (is_idempotent req.method) x && ltb (attempt + 1) (max_attempts rt.config.retries)

  abbrev counted : Exchange (Answer h) → Upstream → List Metric
  counted x u = map (in_loop name) (notes_of x u)

  -- The last attempt: the answer is made, and the guard is dropped.
  pub last-Closes :
      (rt : RouteRuntime) (b : Balancer) (round : Round) (idx : ℕ) (u : Upstream)
      (x : Exchange (Answer h)) (ms : List Metric) (sv : Served h)
      → get_elem? b.upstreams idx ≡ some u
      → report_to x (w.times.failed_at round.attempt) u
        ≡ some (report x (w.times.failed_at round.attempt) u)
      → goes_on rt round.attempt x ≡ false
      → ended
          (with_balancer rt
            (changed b idx (drop_guard (report x (w.times.failed_at round.attempt) u))))
          round.enabled
          (answer x)
        ≡ some sv
      → Closes h w o req g name l
          (with_balancer rt b)
          ms
          (at_report name round idx x)
          (note h (counted x u) sv)
  unfolding stage report_stage after_report answer end_with refuse
  last-Closes rt b round idx u (responds status a) ms sv at told stops e =
      let x : Exchange (Answer h) = responds status a in
      let v = report x (w.times.failed_at round.attempt) u in
      let d = changed b idx (drop_guard v) in
      let m : Moved h L = record {
        runtime = with_balancer rt (changed b idx v);
        limiter = l;
        metrics = counted x u ++ [];
        next = at_finish name round.enabled idx status a;
      } in
      let here : Point h = at_report name round idx x in
      let spread = over rt d round.enabled status a in
      elim (Option-cases (ended rt round.enabled (finishes status a))) [
        | inl panics ↦ absurd (ground (arith, e, spread, panics))
        | inr (f, returns) ↦
            let same : dropped f d ≡ sv = ground (arith, e, spread, returns) in
            Closes-same h w o req g name l (with_balancer rt b) ms here
              (note h m.metrics (dropped f d)) (note h (counted x u) sv)
              (ap (λ t. note h t (dropped f d)) (append_empty (counted x u))
                ∙ ap (note h (counted x u)) same)
              (step-Closes h w o req g name l (with_balancer rt b) ms here m (dropped f d) refl refl
                (rw (stage, report_stage, at, told, after_report, stops) refl)
                (finish-Closes rt b idx u v (ms ++ m.metrics) round.enabled status a f at returns))
      ]
  last-Closes rt b round idx u (fails c) ms sv at told stops e =
      let x : Exchange (Answer h) = fails c in
      let v = report x (w.times.failed_at round.attempt) u in
      let gone =
        refuse h w.iter w.times w.during w.send g.state.config.server.default_timeout_ms
          g.state.config.server.max_body_bytes name req
          (with_balancer rt (changed b idx (drop_guard v))) 502 (str "upstream unavailable") in
      let same : gone ≡ sv = ground (arith, e) in
      let m : Moved h L = record {
        runtime = with_balancer rt (changed b idx v);
        limiter = l;
        metrics = counted x u ++ gone.metrics;
        next = at_release name idx gone.response;
      } in
      let last : Served h = record gone { metrics = [] } in
      let here : Point h = at_report name round idx x in
      Closes-same h w o req g name l (with_balancer rt b) ms here (note h m.metrics last)
        (note h (counted x u) sv)
        (ap (λ t. record gone { metrics = t }) (append_empty m.metrics)
          ∙ ap (note h (counted x u)) same)
        (step-Closes h w o req g name l (with_balancer rt b) ms here m last refl refl
          (rw (stage, report_stage, at, told, after_report, stops) refl)
          (release-Closes h w o req g name l rt b idx u v (ms ++ m.metrics) gone.response at))

  -- A report with a next attempt.
  reported :
      (rt : RouteRuntime) (b : Balancer) (round : Round) (idx : ℕ) (u : Upstream)
      (x : Exchange (Answer h)) (ms : List Metric)
      → get_elem? b.upstreams idx ≡ some u
      → report_to x (w.times.failed_at round.attempt) u
        ≡ some (report x (w.times.failed_at round.attempt) u)
      → goes_on rt round.attempt x ≡ true
      → stage h w req
          (on h w req g name (with_balancer rt b) l ms).state
          name
          (with_balancer rt b)
          (at_report name round idx x)
        ≡ some (record {
          runtime = with_balancer rt (changed b idx (report x (w.times.failed_at round.attempt) u));
          limiter = l;
          metrics = counted x u ++ [];
          next = retrying name round idx;
        })
  unfolding stage report_stage after_report
  reported rt b round idx u (responds status a) ms at told again =
      rw (stage, report_stage, at, told, after_report, again) refl
  reported rt b round idx u (fails c) ms at told again =
      rw (stage, report_stage, at, told, after_report, again) refl

  -- An attempt with a next one: the guard is dropped, and the next one picks without the upstream.
  pub again-Closes :
      (rt : RouteRuntime) (b : Balancer) (round : Round) (idx : ℕ) (u : Upstream)
      (x : Exchange (Answer h)) (ms : List Metric) (sv : Served h)
      → get_elem? b.upstreams idx ≡ some u
      → report_to x (w.times.failed_at round.attempt) u
        ≡ some (report x (w.times.failed_at round.attempt) u)
      → goes_on rt round.attempt x ≡ true
      → ((ms' : List Metric)
          → Closes h w o req g name l
              (with_balancer rt
                (changed b idx (drop_guard (report x (w.times.failed_at round.attempt) u))))
              ms'
              (at_pick name (record round {
                attempt = round.attempt + 1;
                excluded = round.excluded ++ (idx ∷ []);
              }))
              sv)
      → Closes h w o req g name l
          (with_balancer rt b)
          ms
          (at_report name round idx x)
          (note h (counted x u) sv)
  unfolding stage release_stage
  again-Closes rt b round idx u x ms sv at told again rest =
      let v = report x (w.times.failed_at round.attempt) u in
      let held = with_balancer rt (changed b idx v) in
      let free = with_balancer rt (changed b idx (drop_guard v)) in
      let ms' = ms ++ (counted x u ++ []) in
      let there : get_elem? (set b.upstreams idx v) idx ≡ some v =
        get_elem?-set_self b.upstreams idx v (lt-length_of_get b.upstreams idx u at) in
      let once : set (set b.upstreams idx v) idx (drop_guard v)
          ≡ set b.upstreams idx (drop_guard v) =
        set-set b.upstreams idx v (drop_guard v) in
      let dropped : Moved h L = record {
        runtime = free;
        limiter = l;
        metrics = [];
        next =
            at_pick name (record round {
              attempt = round.attempt + 1;
              excluded = round.excluded ++ (idx ∷ []);
            });
      } in
      let m : Moved h L = record {
        runtime = held;
        limiter = l;
        metrics = counted x u ++ [];
        next = retrying name round idx;
      } in
      let here : Point h = at_report name round idx x in
      Closes-same h w o req g name l (with_balancer rt b) ms here (note h m.metrics sv)
        (note h (counted x u) sv) (ap (λ t. note h t sv) (append_empty (counted x u)))
        (step-Closes h w o req g name l (with_balancer rt b) ms here m sv refl refl
          (reported rt b round idx u x ms at told again)
          (step-Closes h w o req g name l held ms' (retrying name round idx) dropped sv refl refl
            (rw (stage, release_stage, there, once) refl) (rest (ms' ++ []))))
