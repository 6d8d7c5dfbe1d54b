-- ===== src/Interleaved/Built.antt =====
-- A gateway that is built from a valid configuration, and the requests that it handles at once.
use rust_api_gateway.Base.{
  ℕ, ◌<◌, ◌≡◌, ◌≢◌, refl, true, Option, some, List, [], ◌∷◌, All, All-get, get_elem?, arith, Str,
}
use rust_api_gateway.Config.{ok, RouteConfig, GatewayConfig}
use rust_api_gateway.Config.Validate.{validate}
use rust_api_gateway.Config.Valid.{ValidRoute, validate-ok_iff}
use rust_api_gateway.Headers.{Http}
use rust_api_gateway.Balancer.Tasks.{IsCounted}
use rust_api_gateway.Balancer.Guards.{from_route-IsCounted}
use rust_api_gateway.State.{RouteRuntime, GatewayState, from_config, build_routes, build}
use rust_api_gateway.State.Entries.{build_routes-AllRuntimes}
use rust_api_gateway.Proxy.Lifetime.{build-IsWellformed}
use rust_api_gateway.Proxy.Instants.{IsEarlyAt}
use rust_api_gateway.Proxy.Responses.{Response}
use rust_api_gateway.Proxy.Gateway.{Gateway, World}
use rust_api_gateway.Proxy.Wellformed.{IsBriefState, IsOrderly}
use rust_api_gateway.Interleaved.{Point, answered}
use rust_api_gateway.Interleaved.Loop.{advance}
use rust_api_gateway.Interleaved.Local.{cost}
use rust_api_gateway.Interleaved.Effects.{IsValid}
use rust_api_gateway.Interleaved.Advance.{advance-StepsIf, advance-GoesOn}
use rust_api_gateway.Interleaved.Tasks.{Handling, Busy, Reach, here, next}
use rust_api_gateway.Interleaved.Steady.{IsSteady, Step-IsSteady, Step-IsBriefState}

-- Nothing is handled yet.
abbrev pub idle : {h : Http} {L : Type 0} → GatewayState L → Busy h L
idle s = record { gateway = record { state = s; metrics = [] }; tasks = []; dropped = 0 }

-- No guard is held on the upstreams of a runtime.
abbrev IsUnused : RouteRuntime → Type 0
IsUnused rt = IsCounted (record { balancer = rt.balancer; held = [] })

All-IsUnused : (rs : List RouteConfig) → All ValidRoute rs → All (λ r. IsUnused (from_config r)) rs
unfolding from_config
All-IsUnused [] vs = tt
All-IsUnused (r ∷ rs) (v, vs) = (from_route-IsCounted r v.served, All-IsUnused rs vs)

module _ (h : Http) {L : Type 0} where
  Reach-IsSteady : (s u : Busy h L) → IsSteady h s → Reach h s u → IsSteady h u
  Reach-IsSteady s _ v here = v
  Reach-IsSteady s u v (next t _ r step) = Step-IsSteady h t u step (Reach-IsSteady s t v r)

  -- However the requests of a gateway that is built from a valid configuration interleave, the gateway
  -- and its tasks are steady.
  pub Reach-build :
      (connect : Str → Option L) (in_memory : L) (config : GatewayConfig)
      → validate config ≡ ok tt
      → (s : GatewayState L) × (build true connect in_memory config ≡ some s)
        × ((u : Busy h L) → Reach h (idle s) u → IsSteady h u)
  unfolding build
  Reach-build connect in_memory config e =
      let v = (validate-ok_iff config).0 e in
      let (s, built, well) = build-IsWellformed connect in_memory config e in
      let own : build_routes [] config.routes ≡ s.routes = ground (arith, built) in
      let unused =
        build_routes-AllRuntimes IsUnused config.routes (All-IsUnused config.routes v.each) in
      let steady : IsSteady h (idle s) = record {
        wellformed = well;
        valid = tt;
        all_counted = rw⁻¹ own (λ n rt there. unused n rt there);
        gauge = refl;
      } in
      (s, built, λ u r. Reach-IsSteady (idle s) u steady r)

  pub Reach-IsBriefState :
      (s u : Busy h L)
      → IsSteady h s
      → IsBriefState s.gateway.state
      → Reach h s u
      → IsBriefState u.gateway.state
  Reach-IsBriefState s _ v brief here = brief
  Reach-IsBriefState s u v brief (next t _ r step) =
      Step-IsBriefState h t u step (Reach-IsSteady s t v r) (Reach-IsBriefState s t v brief r)

  -- In a gateway that stands so and whose cooldowns and times to live are at most 2^62 seconds, each task
  -- that has not answered takes its next step without a panic, as long as the clock reads less than 2^62
  -- seconds, whatever the upstreams, the limiter and the decoder do, and then has fewer steps left of
  -- at most 4 times 2^32 and nine. The cooldowns and times to live stay as they are.
  pub advance-IsSteady :
      (s : Busy h L) (w : World h L) (i : ℕ) (t : Handling h)
      → IsSteady h s
      → IsBriefState s.gateway.state
      → IsOrderly h w
      → IsEarlyAt w.times
      → get_elem? s.tasks i ≡ some t
      → ((r : Response h) → t.point ≢ answered r)
      → (g : Gateway L) × (q : Point h) × (advance h w t.request s.gateway t.point ≡ some (g, q))
        × (cost h q < cost h t.point)
        × IsBriefState g.state
  advance-IsSteady s w i t v brief o early at live =
      let valid = All-get (λ t. IsValid h s.gateway t.point) s.tasks i t v.valid at in
      let (g, q, runs) =
        advance-GoesOn h w o t.request s.gateway t.point early v.wellformed brief valid live in
      let stepped = advance-StepsIf h w o t.request s.gateway t.point v.wellformed valid g q runs in
      (g, q, runs, stepped.nearer, stepped.timely brief)
