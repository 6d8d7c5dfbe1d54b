-- ===== src/Interleaved/Alone/Report.antt =====
-- The report on an upstream in `route_and_proxy` of crates/gateway/src/proxy.rs, and the guard that is
-- dropped, for a request that is alone.
use rust_api_gateway.Base.{
  arith, Option, none, ℕ, zero, suc, ◌≡◌, refl, sym, ap, ◌∙◌, inl, inr, Bool, Bool-cases, some,
  Option-cases, List, [], ◌∷◌, ◌++◌, Str, HashMap, get_elem?, get_elem?-set_self, lt-length_of_get,
  set,
}
use rust_api_gateway.Headers.{Http}
use rust_api_gateway.Breaker.{state_code}
use rust_api_gateway.Balancer.{Upstream, Balancer, drop_guard}
use rust_api_gateway.Cache.{CachedResponse}
use rust_api_gateway.State.{RouteRuntime}
use rust_api_gateway.Proxy.Attempts.{Exchange, Note, upstream_latency, circuit_state, errors}
use rust_api_gateway.Proxy.Responses.{
  Metric, Response, Answer, Served, is_stored, record_request, finish_response, finished_response,
}
use rust_api_gateway.Proxy.Handler.{Request, note}
use rust_api_gateway.Proxy.Instants.{finish_response-finished_response}
use rust_api_gateway.Proxy.Gateway.{Gateway, World}
use rust_api_gateway.Proxy.Wellformed.{IsOrderly}
use rust_api_gateway.Interleaved.{Point, at_release, closing, Moved, route_of}
use rust_api_gateway.Interleaved.Loop.{with_balancer, release_stage, stage}
use rust_api_gateway.Interleaved.Alone.{Runs, Runs-to, on, on-Runs, closing-Runs, closed_tag}

pub append_assoc : (xs ys zs : List Metric) → (xs ++ ys) ++ zs ≡ xs ++ (ys ++ zs)
append_assoc [] ys zs = refl
append_assoc (x ∷ xs) ys zs = ap (λ l. x ∷ l) (append_assoc xs ys zs)

pub append_empty : (xs : List Metric) → xs ++ [] ≡ xs
append_empty [] = refl
append_empty (x ∷ xs) = ap (λ l. x ∷ l) (append_empty xs)

pub set-set : (us : List Upstream) (i : ℕ) (u v : Upstream) → set (set us i u) i v ≡ set us i v
set-set [] i u v = refl
set-set (x ∷ us) zero u v = refl
set-set (x ∷ us) (suc i) u v = ap (λ l. x ∷ l) (set-set us i u v)

-- A balancer with one upstream changed.
abbrev pub changed : Balancer → ℕ → Upstream → Balancer
changed b i u = record b { upstreams = set b.upstreams i u }

-- The notes of an attempt.
abbrev pub notes_of : {R : Type 0} → Exchange R → Upstream → List Note
notes_of x u = upstream_latency ∷ circuit_state u.url (state_code u.breaker.inner.state) ∷ errors x

module _ (h : Http) where
  -- A response with another balancer in the runtime that it leaves.
  abbrev pub rebalanced : Balancer → Option (Served h) → Option (Served h)
  rebalanced b none = none
  rebalanced b (some s) = some (record s { runtime = with_balancer s.runtime b })

  module _ (iter : HashMap CachedResponse → HashMap CachedResponse) (now later : ℕ)
      (rt : RouteRuntime) (name method : Str) (status : ℕ) (a : Answer h) (enabled : Bool)
      (key id : Str) where
    abbrev ends_at : RouteRuntime → Option (Served h)
    ends_at x = finish_response h iter now later x name method status a enabled key id

    -- The end of a response does not depend on the balancer.
    pub finish_response-rebalanced :
        (b : Balancer) → ends_at (with_balancer rt b) ≡ rebalanced b (ends_at rt)
    unfolding finish_response
    finish_response-rebalanced b = elim (Bool-cases (is_stored h rt status a enabled)) [
      | inr skipped ↦ rw (skipped, finish_response) refl
      | inl stored ↦ elim (Option-cases (a.body)) [
        | inl broken ↦ rw (stored, finish_response) (rw broken refl)
        | inr (body, read) ↦ ground (arith, stored, read)
      ]
    ]

    -- The request is counted with the status of the upstream.
    pub finish_response-metrics :
        (s : Served h) → ends_at rt ≡ some s → s.metrics ≡ record_request name method status
    unfolding finished_response
    finish_response-metrics s e =
        ap (λ t. t.metrics)
          (finish_response-finished_response h iter now later rt name method status a enabled key id
            s e)
        ∙ ground arith

module _ (h : Http) {L : Type 0} (w : World h L) (o : IsOrderly h w) (req : Request h)
    (g : Gateway L) (name : Str) (l : L) where
  -- The steps from a point on the route on serve the request.
  abbrev pub Closes : RouteRuntime → List Metric → Point h → Served h → Type 0
  Closes rt ms p sv =
      Runs h w req (on h w req g name rt l ms) p
        (on h w req g name sv.runtime l (ms ++ (sv.metrics ++ closed_tag))) sv.response

  pub Closes-same :
      (rt : RouteRuntime) (ms : List Metric) (p : Point h) (sv sv' : Served h)
      → sv ≡ sv'
      → Closes rt ms p sv
      → Closes rt ms p sv'
  Closes-same rt ms p sv sv' e c = rw e at c

  pub step-Closes :
      (rt : RouteRuntime) (ms : List Metric) (p : Point h) (m : Moved h L) (sv : Served h)
      → route_of h p ≡ some name
      → m.limiter ≡ l
      → stage h w req (on h w req g name rt l ms).state name rt p ≡ some m
      → Closes m.runtime (ms ++ m.metrics) m.next sv
      → Closes rt ms p (note h m.metrics sv)
  step-Closes rt ms p m sv at same runs rest =
      let counted : (ms ++ m.metrics) ++ (sv.metrics ++ closed_tag)
          ≡ ms ++ ((m.metrics ++ sv.metrics) ++ closed_tag) =
        append_assoc ms m.metrics (sv.metrics ++ closed_tag)
        ∙ ap (λ t. ms ++ t) (sym (append_assoc m.metrics sv.metrics closed_tag)) in
      let end : List Metric → Gateway L = λ t. on h w req g name sv.runtime l t in
      on-Runs h w req o g name rt l ms p m (end (ms ++ ((m.metrics ++ sv.metrics) ++ closed_tag)))
        sv.response at runs
        (Runs-to h w req (on h w req g name m.runtime m.limiter (ms ++ m.metrics))
          (end ((ms ++ m.metrics) ++ (sv.metrics ++ closed_tag)))
          (end (ms ++ ((m.metrics ++ sv.metrics) ++ closed_tag))) m.next sv.response
          (ap end counted) (rw same rest))

  -- The last step of a request with a response.
  pub closing-Closes :
      (sv : Served h) (ms : List Metric)
      → Closes sv.runtime ms (closing sv.response) (record sv { metrics = [] })
  closing-Closes sv ms = closing-Runs h w req g name sv.runtime l ms sv.response

  pub respond-Closes :
      (rt : RouteRuntime) (ms : List Metric) (p : Point h) (sv : Served h)
      → route_of h p ≡ some name
      → stage h w req (on h w req g name rt l ms).state name rt p
        ≡ some (record {
          runtime = sv.runtime;
          limiter = l;
          metrics = sv.metrics;
          next = closing sv.response;
        })
      → Closes rt ms p sv
  respond-Closes rt ms p sv at runs =
      let m : Moved h L = record {
        runtime = sv.runtime;
        limiter = l;
        metrics = sv.metrics;
        next = closing sv.response;
      } in
      let last : Served h = record sv { metrics = [] } in
      let whole : note h m.metrics last ≡ sv =
        ap (λ t. record sv { metrics = t }) (append_empty sv.metrics) in
      rw (sym whole)
        (step-Closes rt ms p m last at refl runs (closing-Closes sv (ms ++ sv.metrics)))

  -- The last two steps: the guard is dropped, and the connection is closed.
  pub release-Closes :
      (rt : RouteRuntime) (b : Balancer) (idx : ℕ) (u v : Upstream) (ms : List Metric)
      (r : Response h)
      → get_elem? b.upstreams idx ≡ some u
      → Closes (with_balancer rt (changed b idx v)) ms (at_release name idx r) (record {
        runtime = with_balancer rt (changed b idx (drop_guard v));
        metrics = [];
        response = r;
      })
  unfolding stage release_stage
  release-Closes rt b idx u v ms r at =
      let there : get_elem? (set b.upstreams idx v) idx ≡ some v =
        get_elem?-set_self b.upstreams idx v (lt-length_of_get b.upstreams idx u at) in
      let once : set (set b.upstreams idx v) idx (drop_guard v)
          ≡ set b.upstreams idx (drop_guard v) =
        set-set b.upstreams idx v (drop_guard v) in
      respond-Closes (with_balancer rt (changed b idx v)) ms (at_release name idx r)
        (record {
          runtime = with_balancer rt (changed b idx (drop_guard v));
          metrics = [];
          response = r;
        })
        refl (rw (stage, release_stage, there, once) refl)
