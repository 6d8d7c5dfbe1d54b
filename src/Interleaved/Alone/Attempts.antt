-- ===== src/Interleaved/Alone/Attempts.antt =====
-- The loop over the attempts in `route_and_proxy` of crates/gateway/src/proxy.rs, for a request that is
-- alone, by induction on the attempts that are left.
use rust_api_gateway.Base.{
  ℕ, zero, suc, ◌+◌, ◌≡◌, refl, sym, ap, ◌∙◌, inl, inr, Bool, Bool-cases, Option, none, some,
  Option-cases, List, [], ◌∷◌, ◌++◌, map, Str, str, get_elem?, arith,
}
use rust_api_gateway.Headers.{Http}
use rust_api_gateway.Balancer.{Upstream, Balancer, pick, drop_guard}
use rust_api_gateway.State.{RouteRuntime}
use rust_api_gateway.Proxy.{is_idempotent, max_attempts}
use rust_api_gateway.Proxy.Attempts.{
  Exchange, Ran, Note, report, report_to, answer, settle, attempts, no_healthy_upstream,
  all_attempts_failed,
}
use rust_api_gateway.Proxy.Responses.{Metric, in_loop, Answer, Served}
use rust_api_gateway.Proxy.Handler.{Request, note, refuse, end_with, forwarded}
use rust_api_gateway.Proxy.Instants.{report_to-report}
use rust_api_gateway.Proxy.Gateway.{Gateway, World}
use rust_api_gateway.Proxy.Wellformed.{IsOrderly}
use rust_api_gateway.Interleaved.{refused, Round, Point, at_pick, at_send, at_report, Moved}
use rust_api_gateway.Interleaved.Loop.{with_balancer, pick_stage, send_stage, stage}
use rust_api_gateway.Interleaved.Alone.Report.{
  append_assoc, changed, notes_of, Closes, Closes-same, step-Closes, respond-Closes,
}
use rust_api_gateway.Interleaved.Alone.Loop.{ended, goes_on, last-Closes, again-Closes}

map_append :
    (name : Str) (xs ys : List Note)
    → map (in_loop name) (xs ++ ys) ≡ map (in_loop name) xs ++ map (in_loop name) ys
map_append name [] ys = refl
map_append name (x ∷ xs) ys = ap (λ l. in_loop name x ∷ l) (map_append name xs ys)

module _ (h : Http) {L : Type 0} (w : World h L) (o : IsOrderly h w)
    (alone : (n : ℕ) (b : Balancer) → w.during n b ≡ b) (req : Request h) (g : Gateway L)
    (name : Str) (l : L) (rt : RouteRuntime) (enabled : Bool) (body : Str) where
  abbrev pub exchange : ℕ → Str → Exchange (Answer h)
  exchange n url = w.send n (
      forwarded h w.iter w.times w.during w.send g.state.config.server.default_timeout_ms
        g.state.config.server.max_body_bytes name req rt body url)

  abbrev pub loop : ℕ → ℕ → List ℕ → Balancer → Option (Ran (Answer h))
  loop left n excluded b =
      attempts exchange w.during w.times.picks w.times.failed_at (is_idempotent req.method)
        (max_attempts rt.config.retries) left n excluded b

  abbrev pub ended_of : Ran (Answer h) → Option (Served h)
  ended_of r = ended h w o req g name l (with_balancer rt r.balancer) enabled r.outcome

  abbrev pub noted : Ran (Answer h) → Served h → Served h
  noted r sv = note h (map (in_loop name) r.notes) sv

  abbrev pub round_of : ℕ → ℕ → List ℕ → Round
  round_of left n excluded = record {
    enabled = enabled;
    body = body;
    left = left;
    attempt = n;
    excluded = excluded;
  }

  -- An upstream is picked, and sent the request.
  sent-Closes :
      (left n : ℕ) (excluded : List ℕ) (b b' : Balancer) (i : ℕ) (u : Upstream) (ms : List Metric)
      (sv : Served h)
      → pick (w.times.picks n) excluded b ≡ some (b', some i)
      → get_elem? b'.upstreams i ≡ some u
      → ((ms' : List Metric)
          → Closes h w o req g name l
              (with_balancer rt b')
              ms'
              (at_report name (round_of left n excluded) i (exchange n u.url))
              sv)
      → Closes h w o req g name l
          (with_balancer rt b)
          ms
          (at_pick name (round_of (suc left) n excluded))
          sv
  unfolding stage pick_stage send_stage forwarded
  sent-Closes left n excluded b b' i u ms sv hit at rest =
      let round = round_of left n excluded in
      let x = exchange n u.url in
      let picked : Moved h L = record {
        runtime = with_balancer rt b';
        limiter = l;
        metrics = [];
        next = at_send name round i;
      } in
      let sent : Moved h L = record {
        runtime = with_balancer rt b';
        limiter = l;
        metrics = [];
        next = at_report name round i x;
      } in
      step-Closes h w o req g name l (with_balancer rt b) ms
        (at_pick name (round_of (suc left) n excluded)) picked sv refl refl
        (rw (stage, pick_stage, hit) refl)
        (step-Closes h w o req g name l (with_balancer rt b') (ms ++ []) (at_send name round i) sent
          sv refl refl (rw (stage, send_stage, at) refl) (rest ((ms ++ []) ++ [])))

  abbrev settled : Balancer → ℕ → ℕ → Upstream → Exchange (Answer h) → Balancer
  settled b n i u x = changed b i (drop_guard (report x (w.times.failed_at n) u))

  -- The rest of the loop, after an attempt that has a next one.
  noted_again :
      (i : ℕ) (x : Exchange (Answer h)) (u : Upstream) (q : Ran (Answer h)) (sv : Served h)
      → note h (map (in_loop name) (notes_of x u)) (noted q sv)
        ≡ noted (record q { tried = (i, x) ∷ q.tried; notes = notes_of x u ++ q.notes }) sv
  noted_again i x u q sv =
      let mine = map (in_loop name) (notes_of x u) in
      ap (λ t. record sv { metrics = t })
        (sym (append_assoc mine (map (in_loop name) q.notes) sv.metrics)
          ∙ ap (λ t. t ++ sv.metrics) (sym (map_append name (notes_of x u) q.notes)))

  -- An attempt whose report does not panic, and the rest of the loop.
  settled-Closes :
      (left n : ℕ) (excluded : List ℕ) (b b' : Balancer) (i : ℕ) (u : Upstream) (r : Ran (Answer h))
      (sv : Served h) (ms : List Metric)
      → loop (suc left) n excluded b ≡ some r
      → ended_of r ≡ some sv
      → pick (w.times.picks n) excluded b ≡ some (b', some i)
      → get_elem? b'.upstreams i ≡ some u
      → report_to (exchange n u.url) (w.times.failed_at n) u
        ≡ some (report (exchange n u.url) (w.times.failed_at n) u)
      → ((q : Ran (Answer h)) (ms' : List Metric)
          → loop left (n + 1) (excluded ++ (i ∷ [])) (settled b' n i u (exchange n u.url)) ≡ some q
          → ended_of q ≡ some sv
          → Closes h w o req g name l
              (with_balancer rt (settled b' n i u (exchange n u.url)))
              ms'
              (at_pick name (round_of left (n + 1) (excluded ++ (i ∷ []))))
              (noted q sv))
      → Closes h w o req g name l
          (with_balancer rt b)
          ms
          (at_pick name (round_of (suc left) n excluded))
          (noted r sv)
  unfolding attempts settle
  settled-Closes left n excluded b b' i u r sv ms e ends hit at told rest =
      let x = exchange n u.url in
      let b'' = settled b' n i u x in
      let here : Point h = at_pick name (round_of (suc left) n excluded) in
      let settles : Balancer → Option (Balancer × List Note) =
        settle exchange w.during w.times.picks w.times.failed_at (is_idempotent req.method)
          (max_attempts rt.config.retries) x n i in
      let here_settles : settles b' ≡ some (b'', notes_of x u) = rw (settle, at) (rw told refl) in
      let done : settles (w.during n b') ≡ some (b'', notes_of x u) =
        ap settles (alone n b') ∙ here_settles in
      let same : (q : Ran (Answer h))
          → q ≡ r
          → (ended_of q ≡ some sv
              → Closes h w o req g name l (with_balancer rt b) ms here (noted q sv))
          → Closes h w o req g name l (with_balancer rt b) ms here (noted r sv) =
        λ q s c.
          Closes-same h w o req g name l (with_balancer rt b) ms here (noted q sv) (noted r sv)
            (ap (λ t. noted t sv) s) (c (ap ended_of s ∙ ends)) in
      elim (Bool-cases (goes_on h w o req g name l rt n x)) [
        | inr stops ↦
            let q : Ran (Answer h) = record {
              balancer = b'';
              tried = (i, x) ∷ [];
              notes = notes_of x u;
              outcome = answer x;
            } in
            same q (ground (arith, e, hit, at, done, stops)) (λ end.
              sent-Closes left n excluded b b' i u ms (noted q sv) hit at (λ ms'.
                last-Closes h w o req g name l rt b' (round_of left n excluded) i u x ms' sv at told
                  stops end))
        | inl more ↦ elim (Option-cases (loop left (n + 1) (excluded ++ (i ∷ [])) b'')) [
          | inl panics ↦ absurd (ground (arith, e, hit, at, done, more, panics))
          | inr (q, runs) ↦
              let whole : Ran (Answer h) = record q {
                tried = (i, x) ∷ q.tried;
                notes = notes_of x u ++ q.notes;
              } in
              same whole (ground (arith, e, hit, at, done, more, runs)) (λ end.
                sent-Closes left n excluded b b' i u ms (noted whole sv) hit at (λ ms'.
                  Closes-same h w o req g name l (with_balancer rt b') ms'
                    (at_report name (round_of left n excluded) i x)
                    (note h (map (in_loop name) (notes_of x u)) (noted q sv)) (noted whole sv)
                    (noted_again i x u q sv)
                    (again-Closes h w o req g name l rt b' (round_of left n excluded) i u x ms'
                      (noted q sv) at told more (λ ms''. rest q ms'' runs end))))
        ]
      ]

  pub attempts-Closes :
      (left n : ℕ) (excluded : List ℕ) (b : Balancer) (r : Ran (Answer h)) (sv : Served h)
      (ms : List Metric)
      → loop left n excluded b ≡ some r
      → ended_of r ≡ some sv
      → Closes h w o req g name l
          (with_balancer rt b)
          ms
          (at_pick name (round_of left n excluded))
          (noted r sv)
  unfolding attempts settle stage pick_stage end_with refuse
  attempts-Closes zero n excluded b r sv ms e ends =
      let none_left : Ran (Answer h) = record {
        balancer = b;
        tried = [];
        notes = [];
        outcome = all_attempts_failed;
      } in
      let same : none_left ≡ r = ground (arith, e) in
      let here : Point h = at_pick name (round_of zero n excluded) in
      let gone =
        refused h w req g.state name (with_balancer rt b) 502
          (str "all upstream attempts failed") in
      let end : some gone ≡ some sv = ap ended_of same ∙ ends in
      let one : gone ≡ sv = ground (arith, end) in
      Closes-same h w o req g name l (with_balancer rt b) ms here gone (noted r sv)
        (one ∙ ap (λ q. noted q sv) same)
        (respond-Closes h w o req g name l (with_balancer rt b) ms here gone refl refl)
  attempts-Closes (suc left) n excluded b r sv ms e ends =
      let here : Point h = at_pick name (round_of (suc left) n excluded) in
      let same : (q : Ran (Answer h))
          → q ≡ r
          → (ended_of q ≡ some sv
              → Closes h w o req g name l (with_balancer rt b) ms here (noted q sv))
          → Closes h w o req g name l (with_balancer rt b) ms here (noted r sv) =
        λ q s c.
          Closes-same h w o req g name l (with_balancer rt b) ms here (noted q sv) (noted r sv)
            (ap (λ t. noted t sv) s) (c (ap ended_of s ∙ ends)) in
      elim (Option-cases (pick (w.times.picks n) excluded b)) [
        | inl panics ↦ absurd (ground (arith, e, panics))
        | inr ((b', none), missed) ↦
            let q : Ran (Answer h) = record {
              balancer = b';
              tried = [];
              notes = [];
              outcome = no_healthy_upstream;
            } in
            let gone =
              refused h w req g.state name (with_balancer rt b') 503 (str "no healthy upstream") in
            same q (ground (arith, e, missed)) (λ end.
              let one : gone ≡ sv = ground (arith, end) in
              Closes-same h w o req g name l (with_balancer rt b) ms here gone (noted q sv) one (
                respond-Closes h w o req g name l (with_balancer rt b) ms here gone refl
                  (rw (stage, pick_stage, missed) refl)))
        | inr ((b', some i), hit) ↦ elim (Option-cases (get_elem? b'.upstreams i)) [
          | inl gone ↦ absurd (ground (arith, e, hit, gone))
          | inr (u, at) ↦
              let x = exchange n u.url in
              let now = w.times.failed_at n in
              elim (Option-cases (report_to x now u)) [
                | inl panics ↦ absurd (ground (arith, e, hit, at, alone n b', panics))
                | inr (u', given) ↦
                    let one = report_to-report x now u u' given in
                    let told : report_to x now u ≡ some (report x now u) = given ∙ ap some one in
                    settled-Closes left n excluded b b' i u r sv ms e ends hit at told
                      (λ q ms' runs last.
                        attempts-Closes left (n + 1) (excluded ++ (i ∷ [])) (settled b' n i u x) q
                          sv ms' runs last)
              ]
        ]
      ]
