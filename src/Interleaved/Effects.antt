-- ===== src/Interleaved/Effects.antt =====
-- A step of a task in the gateway.
use rust_api_gateway.Base.{
  ℕ, ◌<◌, ◌≡◌, refl, inl, inr, Bool, true, false, Option, none, some, List, [], ◌∷◌, ◌++◌, Str,
  str_eq, length, lookup, arith, if◌then◌else◌,
}
use rust_api_gateway.Headers.{Http}
use rust_api_gateway.State.{RouteRuntime, GatewayState}
use rust_api_gateway.Proxy.Instants.{IsTimely, IsEarlyAt}
use rust_api_gateway.Proxy.Trail.{SameShape}
use rust_api_gateway.Proxy.Handler.{Request}
use rust_api_gateway.Proxy.Served.{IsRuntime, connections}
use rust_api_gateway.Proxy.Gateway.{Gateway, World}
use rust_api_gateway.Proxy.Wellformed.{IsWellformed, IsBriefState, IsOrderly}
use rust_api_gateway.Interleaved.{
  Point, entered, at_auth, at_limit, at_cache, at_body, at_pick, at_send, at_report, at_finish,
  at_store, retrying, at_release, closing, answered, route_of, Moved,
}
use rust_api_gateway.Interleaved.Loop.{stage, next_round, pick_stage, send_stage, release_stage}
use rust_api_gateway.Interleaved.Local.{guard, cost, AllBelow, Counted}
use rust_api_gateway.Interleaved.Stages.{
  auth_stage-Fits, limit_stage-Fits, cache_stage-Fits, body_stage-Fits,
}
use rust_api_gateway.Interleaved.Rounds.{
  Moves, FitsIf, Moves-FitsIf, pick_stage-Moves, send_stage-Moves, release_stage-Moves,
  report_stage-FitsIf, finish_stage-FitsIf, store_stage-FitsIf, report_stage-returns,
  finish_stage-returns, store_stage-returns,
}

module _ (h : Http) where
  -- The guard that a task holds on an upstream of a route.
  abbrev guard_on : Option Str → Str → List ℕ → List ℕ
  guard_on none n held = []
  guard_on (some name) n held = if str_eq name n then held else []

  abbrev pub holds : Point h → Str → List ℕ
  holds p n = guard_on (route_of h p) n (guard h p)

  -- The route of a point has a runtime, and its upstreams include the one that is held.
  abbrev pub IsValid : {L : Type 0} → Gateway L → Point h → Type 0
  IsValid g p =
      (name : Str)
      → route_of h p ≡ some name
      → (rt : RouteRuntime) × (lookup name g.state.routes ≡ some rt)
        × AllBelow h (guard h p) (length rt.balancer.upstreams)

  -- What a step adds to the openings and closings of connections.
  abbrev pub tags : Point h → List Bool
  tags entered = true ∷ []
  tags (closing response) = false ∷ []
  tags (at_auth name) = []
  tags (at_limit name) = []
  tags (at_cache name) = []
  tags (at_body name enabled) = []
  tags (at_pick name round) = []
  tags (at_send name round idx) = []
  tags (at_report name round idx x) = []
  tags (at_finish name enabled idx status answer) = []
  tags (at_store name idx status answer) = []
  tags (retrying name round idx) = []
  tags (at_release name idx response) = []
  tags (answered response) = []

  -- Whether a connection is counted as active at a point.
  abbrev pub is_open : Point h → Bool
  is_open entered = false
  is_open (answered response) = false
  is_open (closing response) = true
  is_open (at_auth name) = true
  is_open (at_limit name) = true
  is_open (at_cache name) = true
  is_open (at_body name enabled) = true
  is_open (at_pick name round) = true
  is_open (at_send name round idx) = true
  is_open (at_report name round idx x) = true
  is_open (at_finish name enabled idx status answer) = true
  is_open (at_store name idx status answer) = true
  is_open (retrying name round idx) = true
  is_open (at_release name idx response) = true

  -- Whether it still is after a step from there.
  abbrev pub stays_open : Point h → Bool
  stays_open (closing response) = false
  stays_open entered = true
  stays_open (answered response) = true
  stays_open (at_auth name) = true
  stays_open (at_limit name) = true
  stays_open (at_cache name) = true
  stays_open (at_body name enabled) = true
  stays_open (at_pick name round) = true
  stays_open (at_send name round idx) = true
  stays_open (at_report name round idx x) = true
  stays_open (at_finish name enabled idx status answer) = true
  stays_open (at_store name idx status answer) = true
  stays_open (retrying name round idx) = true
  stays_open (at_release name idx response) = true

  module _ {L : Type 0} where
    -- What a step of a task from a point to another does.
    pub record Stepped (g g' : Gateway L) (p q : Point h) : Type 0 where
      pub wellformed : IsWellformed g'.state
      pub forth :
          (n : Str) (rt : RouteRuntime)
          → lookup n g.state.routes ≡ some rt
          → (rt' : RouteRuntime) × (lookup n g'.state.routes ≡ some rt')
            × SameShape rt.balancer rt'.balancer
      pub back :
          (n : Str) (rt' : RouteRuntime)
          → lookup n g'.state.routes ≡ some rt'
          → (rt : RouteRuntime) × (lookup n g.state.routes ≡ some rt)
            × ((held : List ℕ)
                → Counted h rt.balancer (holds p n ++ held)
                → Counted h rt'.balancer (holds q n ++ held))
      pub valid : IsValid g' q
      pub tagged : connections g'.metrics ≡ connections g.metrics ++ tags p
      pub opened : is_open q ≡ stays_open p
      pub nearer : cost h q < cost h p
      pub timely : IsBriefState g.state → IsBriefState g'.state

    module _ (w : World h L) (o : IsOrderly h w) (req : Request h) (s : GatewayState L) (name : Str)
        (rt : RouteRuntime) (v : IsRuntime rt) where
      -- A step on a route that does not panic fits.
      pub stage-FitsIf :
          (p : Point h)
          → route_of h p ≡ some name
          → AllBelow h (guard h p) (length rt.balancer.upstreams)
          → FitsIf h w req s name rt v p (stage h w req s name rt p)
      unfolding stage
      stage-FitsIf entered e below m runs = cc
      stage-FitsIf (closing response) e below m runs = cc
      stage-FitsIf (answered response) e below m runs = cc
      stage-FitsIf (at_auth n) e below m runs =
          let same : name ≡ n = ground arith in
          Moves-FitsIf h w req s name rt v (at_auth n) (stage h w req s name rt (at_auth n))
            (_, refl, rw⁻¹ same (auth_stage-Fits h w req s name rt v.bounded)) m runs
      stage-FitsIf (at_limit n) e below m runs =
          let same : name ≡ n = ground arith in
          Moves-FitsIf h w req s name rt v (at_limit n) (stage h w req s name rt (at_limit n))
            (_, refl, rw⁻¹ same (limit_stage-Fits h w req s name rt v.bounded)) m runs
      stage-FitsIf (at_cache n) e below m runs =
          let same : name ≡ n = ground arith in
          Moves-FitsIf h w req s name rt v (at_cache n) (stage h w req s name rt (at_cache n))
            (_, refl, rw⁻¹ same (cache_stage-Fits h w req s name rt v.bounded)) m runs
      stage-FitsIf (at_body n enabled) e below m runs =
          let same : name ≡ n = ground arith in
          Moves-FitsIf h w req s name rt v (at_body n enabled)
            (stage h w req s name rt (at_body n enabled))
            (_, refl, rw⁻¹ same (body_stage-Fits h w req s name rt v.bounded enabled)) m runs
      stage-FitsIf (at_pick n round) e below m runs =
          let same : name ≡ n = ground arith in
          rw⁻¹ same (
            Moves-FitsIf h w req s name rt v (at_pick name round)
              (pick_stage h w req s name rt round)
              (pick_stage-Moves h w req s name rt v round round.left refl) m runs)
      stage-FitsIf (at_send n round idx) e below m runs =
          let same : name ≡ n = ground arith in
          rw⁻¹ same (
            Moves-FitsIf h w req s name rt v (at_send name round idx)
              (send_stage h w req s name rt round idx)
              (send_stage-Moves h w req s name rt v round idx below.0) m runs)
      stage-FitsIf (at_report n round idx x) e below m runs =
          let same : name ≡ n = ground arith in
          rw⁻¹ same (report_stage-FitsIf h w req s name rt v round idx x m runs)
      stage-FitsIf (at_finish n enabled idx status answer) e below m runs =
          let same : name ≡ n = ground arith in
          rw⁻¹ same (
            finish_stage-FitsIf h w req s name rt v o.order enabled idx status answer below.0 m
              runs)
      stage-FitsIf (at_store n idx status answer) e below m runs =
          let same : name ≡ n = ground arith in
          rw⁻¹ same
            (store_stage-FitsIf h w req s name rt v o.order idx status answer below.0 m runs)
      stage-FitsIf (retrying n round idx) e below m runs =
          let next = at_pick name (next_round h w req s name rt round idx) in
          Moves-FitsIf h w req s name rt v (retrying n round idx)
            (release_stage h w req s name rt idx next)
            (release_stage-Moves h w req s name rt v (retrying n round idx) next idx refl refl
              (inl refl) (omega arith) below.0)
            m runs
      stage-FitsIf (at_release n idx response) e below m runs =
          Moves-FitsIf h w req s name rt v (at_release n idx response)
            (release_stage h w req s name rt idx (closing response))
            (release_stage-Moves h w req s name rt v (at_release n idx response) (closing response)
              idx refl refl (inr (response, refl)) (omega arith) below.0)
            m runs

      abbrev Goes : Option (Moved h L) → Type 0
      Goes result = (m : Moved h L) × (result ≡ some m)

      Moves-Goes :
          (p : Point h) (result : Option (Moved h L))
          → Moves h w req s name rt v p result
          → Goes result
      Moves-Goes p result (m, runs, fits) = (m, runs)

      -- It does not panic, where nothing is added to an instant that is too long.
      pub stage-returns :
          (p : Point h)
          → IsEarlyAt w.times
          → IsTimely rt
          → route_of h p ≡ some name
          → AllBelow h (guard h p) (length rt.balancer.upstreams)
          → Goes (stage h w req s name rt p)
      unfolding stage
      stage-returns entered early timely e below = cc
      stage-returns (closing response) early timely e below = cc
      stage-returns (answered response) early timely e below = cc
      stage-returns (at_auth n) early timely e below = (_, refl)
      stage-returns (at_limit n) early timely e below = (_, refl)
      stage-returns (at_cache n) early timely e below = (_, refl)
      stage-returns (at_body n enabled) early timely e below = (_, refl)
      stage-returns (at_pick n round) early timely e below =
          Moves-Goes (at_pick name round) (pick_stage h w req s name rt round)
            (pick_stage-Moves h w req s name rt v round round.left refl)
      stage-returns (at_send n round idx) early timely e below =
          Moves-Goes (at_send name round idx) (send_stage h w req s name rt round idx)
            (send_stage-Moves h w req s name rt v round idx below.0)
      stage-returns (at_report n round idx x) early timely e below =
          report_stage-returns h w req s name rt v round idx x early timely below.0
      stage-returns (at_finish n enabled idx status answer) early timely e below =
          finish_stage-returns h w req s name rt v enabled idx status answer early timely
      stage-returns (at_store n idx status answer) early timely e below =
          store_stage-returns h w req s name rt v idx status answer early timely
      stage-returns (retrying n round idx) early timely e below =
          let next = at_pick name (next_round h w req s name rt round idx) in
          Moves-Goes (retrying n round idx) (release_stage h w req s name rt idx next) (
            release_stage-Moves h w req s name rt v (retrying n round idx) next idx refl refl
              (inl refl) (omega arith) below.0)
      stage-returns (at_release n idx response) early timely e below =
          Moves-Goes (at_release n idx response)
            (release_stage h w req s name rt idx (closing response))
            (release_stage-Moves h w req s name rt v (at_release n idx response) (closing response)
              idx refl refl (inr (response, refl)) (omega arith) below.0)
