-- ===== src/Interleaved/Advance.antt =====
-- Each step of a task ends, and keeps what the gateway promises.
use rust_api_gateway.Base.{
  ◌<◌, ◌≡◌, ◌≢◌, refl, sym, ap, ◌∙◌, inl, inr, Bool, true, false, Bool-cases, none, some,
  Option-cases, List, [], ◌∷◌, ◌++◌, Str, str, str_eq, str_eq_iff, str_eq_refl, lookup, insert,
  lookup-insert, arith,
}
use rust_api_gateway.Headers.{Http}
use rust_api_gateway.Router.{match_route}
use rust_api_gateway.State.{RouteRuntime, route}
use rust_api_gateway.Proxy.Instants.{IsEarlyAt}
use rust_api_gateway.Proxy.Trail.{SameShape-IsBalancer}
use rust_api_gateway.Proxy.Responses.{
  Response, error, connection_opened, connection_closed, request_counted,
}
use rust_api_gateway.Proxy.Handler.{Request, host_of, correlation_of}
use rust_api_gateway.Proxy.Served.{connections, connections-append}
use rust_api_gateway.Proxy.Gateway.{Gateway, World}
use rust_api_gateway.Proxy.Wellformed.{
  IsWellformed, IsBriefState, IsOrderly, served_by-IsWellformed, served_by-IsBriefState,
}
use rust_api_gateway.Interleaved.{
  Point, entered, at_auth, at_limit, at_cache, at_body, at_pick, at_send, at_report, at_finish,
  at_store, retrying, at_release, closing, answered, route_of, Moved,
}
use rust_api_gateway.Interleaved.Loop.{stage, commit_moved, move_on, enter, advance}
use rust_api_gateway.Interleaved.Local.{guard, cost, IsOn, Fits}
use rust_api_gateway.Interleaved.Effects.{
  holds, IsValid, tags, is_open, stays_open, Stepped, stage-FitsIf, stage-returns,
}

append_empty : (xs : List Bool) → xs ++ [] ≡ xs
append_empty [] = refl
append_empty (x ∷ xs) = ap (λ l. x ∷ l) (append_empty xs)

module _ (h : Http) where
  holds-on :
      (p : Point h) (name n : Str) → IsOn h name p → str_eq name n ≡ true → holds h p n ≡ guard h p
  holds-on p name n (inl on) same = ground (arith, on, same)
  holds-on p name n (inr (r, e)) same = rw e refl

  holds-off :
      (p : Point h) (name n : Str) → IsOn h name p → str_eq name n ≡ false → holds h p n ≡ []
  holds-off p name n (inl on) other = ground (arith, on, other)
  holds-off p name n (inr (r, e)) other = rw e refl

  tags-on : (p : Point h) (name : Str) → route_of h p ≡ some name → tags h p ≡ []
  tags-on entered name e = cc
  tags-on (closing response) name e = cc
  tags-on (answered response) name e = refl
  tags-on (at_auth n) name e = refl
  tags-on (at_limit n) name e = refl
  tags-on (at_cache n) name e = refl
  tags-on (at_body n enabled) name e = refl
  tags-on (at_pick n round) name e = refl
  tags-on (at_send n round idx) name e = refl
  tags-on (at_report n round idx x) name e = refl
  tags-on (at_finish n enabled idx status answer) name e = refl
  tags-on (at_store n idx status answer) name e = refl
  tags-on (retrying n round idx) name e = refl
  tags-on (at_release n idx response) name e = refl

  is_open-route : (p : Point h) (name : Str) → route_of h p ≡ some name → is_open h p ≡ true
  is_open-route entered name e = cc
  is_open-route (closing response) name e = cc
  is_open-route (answered response) name e = cc
  is_open-route (at_auth n) name e = refl
  is_open-route (at_limit n) name e = refl
  is_open-route (at_cache n) name e = refl
  is_open-route (at_body n enabled) name e = refl
  is_open-route (at_pick n round) name e = refl
  is_open-route (at_send n round idx) name e = refl
  is_open-route (at_report n round idx x) name e = refl
  is_open-route (at_finish n enabled idx status answer) name e = refl
  is_open-route (at_store n idx status answer) name e = refl
  is_open-route (retrying n round idx) name e = refl
  is_open-route (at_release n idx response) name e = refl

  stays_open-route : (p : Point h) (name : Str) → route_of h p ≡ some name → stays_open h p ≡ true
  stays_open-route entered name e = cc
  stays_open-route (closing response) name e = cc
  stays_open-route (answered response) name e = cc
  stays_open-route (at_auth n) name e = refl
  stays_open-route (at_limit n) name e = refl
  stays_open-route (at_cache n) name e = refl
  stays_open-route (at_body n enabled) name e = refl
  stays_open-route (at_pick n round) name e = refl
  stays_open-route (at_send n round idx) name e = refl
  stays_open-route (at_report n round idx x) name e = refl
  stays_open-route (at_finish n enabled idx status answer) name e = refl
  stays_open-route (at_store n idx status answer) name e = refl
  stays_open-route (retrying n round idx) name e = refl
  stays_open-route (at_release n idx response) name e = refl

  is_open-on : (q : Point h) (name : Str) → IsOn h name q → is_open h q ≡ true
  is_open-on q name (inl on) = is_open-route q name on
  is_open-on q name (inr (r, e)) = rw e refl

  module _ {L : Type 0} (w : World h L) (o : IsOrderly h w) (req : Request h) where
    -- A step that fits, put into the gateway.
    abbrev moved_to : Gateway L → Str → Moved h L → Gateway L
    moved_to g name m = record {
      state = record (g.state) {
        routes = insert name m.runtime g.state.routes;
        limiter = m.limiter;
      };
      metrics = g.metrics ++ m.metrics;
    }

    Fits-Stepped :
        (g : Gateway L) (p : Point h) (name : Str) (rt : RouteRuntime) (m : Moved h L)
        → IsWellformed g.state
        → route_of h p ≡ some name
        → lookup name g.state.routes ≡ some rt
        → Fits h name p rt m
        → Stepped h g (moved_to g name m) p m.next
    Fits-Stepped g p name rt m v on there f =
        let k = f.keeps in
        let sound = v.sound name rt there in
        let q = m.next in
        record {
          wellformed =
              served_by-IsWellformed g.state name rt m.runtime m.limiter v there
                (record {
                  usable =
                      SameShape-IsBalancer rt.balancer m.runtime.balancer k.same_shape sound.usable;
                  bounded = k.bounded;
                })
                k.same_config;
          forth = λ n rt0 at. elim (Bool-cases (str_eq name n)) [
            | inl mine ↦
                let same : rt ≡ rt0 = ground (arith, there, at, str_eq_iff name n) in
                (
                  m.runtime,
                  ground (arith, lookup-insert name n m.runtime g.state.routes, mine),
                  rw⁻¹ same k.same_shape,
                )
            | inr other ↦ (
              rt0,
              ground (arith, lookup-insert name n m.runtime g.state.routes, other, at),
              record { same_order = refl; same_number = refl; same_cooldowns = refl },
            )
          ];
          back = λ n rt' at. elim (Bool-cases (str_eq name n)) [
            | inl mine ↦
                let same : m.runtime ≡ rt' =
                  ground (arith, lookup-insert name n m.runtime g.state.routes, mine, at) in
                (
                  rt,
                  ground (arith, there, mine, str_eq_iff name n),
                  λ held c. rw⁻¹ same (
                      rw (holds-on q name n f.on mine)
                        (k.guards held (rw (holds-on p name n (inl on) mine) at c))),
                )
            | inr other ↦ (
              rt',
              ground (arith, lookup-insert name n m.runtime g.state.routes, other, at),
              λ held c.
                  rw (holds-off q name n f.on other) (rw (holds-off p name n (inl on) other) at c),
            )
          ];
          valid = λ n e. elim (f.on) [
            | inl still ↦
                let same : name ≡ n = ground (arith, still, e) in
                (
                  m.runtime,
                  ground
                      (arith, lookup-insert name n m.runtime g.state.routes, same, str_eq_refl n),
                  f.below,
                )
            | inr (r, gone) ↦
                let no_route : none ≡ some n = ap (route_of h) (sym gone) ∙ e in
                absurd (ground arith)
          ];
          tagged =
              connections-append g.metrics m.metrics
              ∙ ap (λ l. connections g.metrics ++ l) (f.no_connections ∙ sym (tags-on p name on));
          opened = is_open-on q name f.on ∙ sym (stays_open-route p name on);
          nearer = f.nearer;
          timely = λ brief.
              served_by-IsBriefState g.state name rt m.runtime m.limiter brief there
                (record { same_cooldowns = k.same_shape.same_cooldowns; same_ttl = k.same_ttl });
        }

    -- A step that does not panic, and what it does.
    abbrev pub Steps : Gateway L → Point h → Type 0
    Steps g p =
        (g' : Gateway L) × (q : Point h) × (advance h w req g p ≡ some (g', q)) × Stepped h g g' p q

    pub advance-move_on :
        (g : Gateway L) (p : Point h) (name : Str)
        → route_of h p ≡ some name
        → advance h w req g p ≡ move_on h w req g p name
    unfolding advance
    advance-move_on g entered name e = cc
    advance-move_on g (closing response) name e = cc
    advance-move_on g (answered response) name e = cc
    advance-move_on g (at_auth n) name e = let same : n ≡ name = ground arith in rw same refl
    advance-move_on g (at_limit n) name e = let same : n ≡ name = ground arith in rw same refl
    advance-move_on g (at_cache n) name e = let same : n ≡ name = ground arith in rw same refl
    advance-move_on g (at_body n b) name e = let same : n ≡ name = ground arith in rw same refl
    advance-move_on g (at_pick n r) name e = let same : n ≡ name = ground arith in rw same refl
    advance-move_on g (at_send n r i) name e = let same : n ≡ name = ground arith in rw same refl
    advance-move_on g (at_report n r i x) name e =
        let same : n ≡ name = ground arith in rw same refl
    advance-move_on g (at_finish n b i st a) name e =
        let same : n ≡ name = ground arith in rw same refl
    advance-move_on g (at_store n i st a) name e =
        let same : n ≡ name = ground arith in rw same refl
    advance-move_on g (retrying n r i) name e = let same : n ≡ name = ground arith in rw same refl
    advance-move_on g (at_release n i r) name e = let same : n ≡ name = ground arith in rw same refl

    -- What a step does, if it does not panic.
    abbrev pub StepsIf : Gateway L → Point h → Type 0
    StepsIf g p =
        (g' : Gateway L) (q : Point h) → advance h w req g p ≡ some (g', q) → Stepped h g g' p q

    Steps-StepsIf : (g : Gateway L) (p : Point h) → Steps g p → StepsIf g p
    Steps-StepsIf g p (g', q, runs, stepped) g'' q' same =
        let same_g : g' ≡ g'' = ground (arith, runs, same) in
        let same_q : q ≡ q' = ground (arith, runs, same) in rw same_g at (rw same_q at stepped)

    advance-stage :
        (g : Gateway L) (p : Point h) (name : Str) (rt : RouteRuntime)
        → route_of h p ≡ some name
        → lookup name g.state.routes ≡ some rt
        → advance h w req g p ≡ commit_moved h w req g name (stage h w req g.state name rt p)
    advance-stage g p name rt on there = advance-move_on g p name on ∙ rw (there, move_on) refl

    on_route-StepsIf :
        (g : Gateway L) (p : Point h) (name : Str)
        → IsWellformed g.state
        → IsValid h g p
        → route_of h p ≡ some name
        → StepsIf g p
    on_route-StepsIf g p name v valid on g' q runs =
        let (rt, there, below) = valid name on in
        let result = stage h w req g.state name rt p in
        let commits : commit_moved h w req g name result ≡ some (g', q) =
          sym (advance-stage g p name rt on there) ∙ runs in
        elim (Option-cases result) [
          | inl panics ↦ absurd (ground (arith, commits, panics))
          | inr (m, moves) ↦
              let fits =
                stage-FitsIf h w o req g.state name rt (v.sound name rt there) p on below m moves in
              let same_g : moved_to g name m ≡ g' = ground (arith, commits, moves) in
              let same_q : m.next ≡ q = ground (arith, commits, moves) in
              rw same_g at (rw same_q at (Fits-Stepped g p name rt m v on there fits))
        ]

    -- A step that does not panic.
    abbrev pub GoesOn : Gateway L → Point h → Type 0
    GoesOn g p = (g' : Gateway L) × (q : Point h) × (advance h w req g p ≡ some (g', q))

    on_route-GoesOn :
        (g : Gateway L) (p : Point h) (name : Str)
        → IsEarlyAt w.times
        → IsWellformed g.state
        → IsBriefState g.state
        → IsValid h g p
        → route_of h p ≡ some name
        → GoesOn g p
    on_route-GoesOn g p name early v brief valid on =
        let (rt, there, below) = valid name on in
        let (m, runs) =
          stage-returns h w o req g.state name rt (v.sound name rt there) p early
            (brief name rt there) on below in
        (
          moved_to g name m,
          m.next,
          advance-stage g p name rt on there ∙ ap (commit_moved h w req g name) runs,
        )

    -- Only the metrics change, and the task moves on.
    noted-Stepped :
        (g g' : Gateway L) (p q : Point h)
        → IsWellformed g.state
        → g'.state ≡ g.state
        → ((n : Str) → holds h p n ≡ [])
        → ((n : Str) → holds h q n ≡ [])
        → IsValid h g' q
        → connections g'.metrics ≡ connections g.metrics ++ tags h p
        → is_open h q ≡ stays_open h p
        → cost h q < cost h p
        → Stepped h g g' p q
    noted-Stepped g g' p q v same free free' valid tagged opened nearer = record {
      wellformed = rw same v;
      forth = λ n rt at.
          (rt, rw same at, record { same_order = refl; same_number = refl; same_cooldowns = refl });
      back = λ n rt' at. (rt', rw same at at, λ held c. rw (free' n) (rw (free n) at c));
      valid = valid;
      tagged = tagged;
      opened = opened;
      nearer = nearer;
      timely = λ brief. rw same brief;
    }

    closing-Steps : (g : Gateway L) (r : Response h) → IsWellformed g.state → Steps g (closing r)
    unfolding advance
    closing-Steps g r v =
        let g' : Gateway L = record g { metrics = g.metrics ++ (connection_closed ∷ []) } in
        (
          g',
          answered r,
          refl,
          noted-Stepped g g' (closing r) (answered r) v refl (λ n. refl) (λ n. refl)
              (λ n e. absurd (ground arith)) (connections-append g.metrics (connection_closed ∷ []))
              refl (omega arith),
        )

    entered-Steps : (g : Gateway L) → IsWellformed g.state → Steps g entered
    unfolding advance enter route
    entered-Steps g v =
        let opened : Gateway L = record g { metrics = g.metrics ++ (connection_opened ∷ []) } in
        elim (Option-cases (match_route g.state.config (some (host_of h req)) req.path)) [
          | inl unmatched ↦
              let response = error h 404 (str "no matching route") (correlation_of h req) in
              let counted_404 = request_counted (str "none") req.method 404 ∷ [] in
              let g' : Gateway L = record opened { metrics = opened.metrics ++ counted_404 } in
              (
                g',
                closing response,
                ground (arith, unmatched),
                noted-Stepped g g' entered (closing response) v refl (λ n. refl) (λ n. refl)
                    (λ n e. absurd (ground arith))
                    (connections-append opened.metrics counted_404
                      ∙ append_empty (connections opened.metrics)
                      ∙ connections-append g.metrics (connection_opened ∷ []))
                    refl (omega arith),
              )
          | inr (r, matched) ↦
              let (rt, there, _) = v.complete (some (host_of h req)) req.path r matched in
              (
                opened,
                at_auth r.name,
                ground (arith, matched, there),
                noted-Stepped g opened entered (at_auth r.name) v refl (λ n. refl)
                    (λ n. ground arith)
                    (λ n e. let same : r.name ≡ n = ground arith in (rt, rw⁻¹ same there, tt))
                    (connections-append g.metrics (connection_opened ∷ [])) refl (omega arith),
              )
        ]

    -- What a step of a task does, if it does not panic.
    pub advance-StepsIf :
        (g : Gateway L) (p : Point h) → IsWellformed g.state → IsValid h g p → StepsIf g p
    unfolding advance
    advance-StepsIf g entered v valid = Steps-StepsIf g entered (entered-Steps g v)
    advance-StepsIf g (closing response) v valid =
        Steps-StepsIf g (closing response) (closing-Steps g response v)
    advance-StepsIf g (answered response) v valid = λ g' q runs. absurd (ground (arith, runs))
    advance-StepsIf g (at_auth n) v valid = on_route-StepsIf g (at_auth n) n v valid refl
    advance-StepsIf g (at_limit n) v valid = on_route-StepsIf g (at_limit n) n v valid refl
    advance-StepsIf g (at_cache n) v valid = on_route-StepsIf g (at_cache n) n v valid refl
    advance-StepsIf g (at_body n b) v valid = on_route-StepsIf g (at_body n b) n v valid refl
    advance-StepsIf g (at_pick n r) v valid = on_route-StepsIf g (at_pick n r) n v valid refl
    advance-StepsIf g (at_send n r i) v valid = on_route-StepsIf g (at_send n r i) n v valid refl
    advance-StepsIf g (at_report n r i x) v valid =
        on_route-StepsIf g (at_report n r i x) n v valid refl
    advance-StepsIf g (at_finish n b i st a) v valid =
        on_route-StepsIf g (at_finish n b i st a) n v valid refl
    advance-StepsIf g (at_store n i st a) v valid =
        on_route-StepsIf g (at_store n i st a) n v valid refl
    advance-StepsIf g (retrying n r i) v valid = on_route-StepsIf g (retrying n r i) n v valid refl
    advance-StepsIf g (at_release n i r) v valid =
        on_route-StepsIf g (at_release n i r) n v valid refl

    Steps-GoesOn : (g : Gateway L) (p : Point h) → Steps g p → GoesOn g p
    Steps-GoesOn g p (g', q, runs, stepped) = (g', q, runs)

    -- Every step of a task that has not answered ends without a panic, where nothing is added to an
    -- instant that is too long.
    pub advance-GoesOn :
        (g : Gateway L) (p : Point h)
        → IsEarlyAt w.times
        → IsWellformed g.state
        → IsBriefState g.state
        → IsValid h g p
        → ((r : Response h) → p ≢ answered r)
        → GoesOn g p
    advance-GoesOn g entered early v brief valid live = Steps-GoesOn g entered (entered-Steps g v)
    advance-GoesOn g (closing response) early v brief valid live =
        Steps-GoesOn g (closing response) (closing-Steps g response v)
    advance-GoesOn g (answered response) early v brief valid live = absurd (live response refl)
    advance-GoesOn g (at_auth n) early v brief valid live =
        on_route-GoesOn g (at_auth n) n early v brief valid refl
    advance-GoesOn g (at_limit n) early v brief valid live =
        on_route-GoesOn g (at_limit n) n early v brief valid refl
    advance-GoesOn g (at_cache n) early v brief valid live =
        on_route-GoesOn g (at_cache n) n early v brief valid refl
    advance-GoesOn g (at_body n b) early v brief valid live =
        on_route-GoesOn g (at_body n b) n early v brief valid refl
    advance-GoesOn g (at_pick n r) early v brief valid live =
        on_route-GoesOn g (at_pick n r) n early v brief valid refl
    advance-GoesOn g (at_send n r i) early v brief valid live =
        on_route-GoesOn g (at_send n r i) n early v brief valid refl
    advance-GoesOn g (at_report n r i x) early v brief valid live =
        on_route-GoesOn g (at_report n r i x) n early v brief valid refl
    advance-GoesOn g (at_finish n b i st a) early v brief valid live =
        on_route-GoesOn g (at_finish n b i st a) n early v brief valid refl
    advance-GoesOn g (at_store n i st a) early v brief valid live =
        on_route-GoesOn g (at_store n i st a) n early v brief valid refl
    advance-GoesOn g (retrying n r i) early v brief valid live =
        on_route-GoesOn g (retrying n r i) n early v brief valid refl
    advance-GoesOn g (at_release n i r) early v brief valid live =
        on_route-GoesOn g (at_release n i r) n early v brief valid refl
