-- ===== src/Interleaved/Abandoned.antt =====
-- A task that is dropped, and a tick of a health check, keep what the others rely on.
use rust_api_gateway.Base.{
  ℕ, ◌<◌, ◌≡◌, refl, ap, ◌∙◌, inl, inr, Bool, true, false, Bool-cases, Option, some, Option-cases,
  List, [], ◌∷◌, ◌++◌, Str, str_eq, str_eq_iff, length, get_elem?, get_elem?-some, lookup,
  lookup-insert, arith,
}
use rust_api_gateway.Headers.{Http}
use rust_api_gateway.Balancer.{drop_guard, set_healthy}
use rust_api_gateway.Balancer.Guards.{drops-IsCounted, writes-IsCounted}
use rust_api_gateway.State.{RouteRuntime}
use rust_api_gateway.Health.{Task, is_success, probed, probe}
use rust_api_gateway.Health.Spawned.{probed-config, probed-cache}
use rust_api_gateway.Proxy.Instants.{ttl_of}
use rust_api_gateway.Proxy.Trail.{set-SameShape, SameShape, SameShape-trans, SameShape-IsBalancer}
use rust_api_gateway.Proxy.Gateway.{Gateway}
use rust_api_gateway.Proxy.Wellformed.{IsWellformed, served_by-IsWellformed, served_by-IsBriefState}
use rust_api_gateway.Interleaved.{Point, entered, route_of}
use rust_api_gateway.Interleaved.Loop.{with_upstream}
use rust_api_gateway.Interleaved.Local.{guard, AllBelow, Counted}
use rust_api_gateway.Interleaved.Effects.{holds, IsValid}
use rust_api_gateway.Interleaved.Tasks.{release, release_all, with_routes, abandon}
use rust_api_gateway.Interleaved.Shifts.{Shifts}

same_shape : (rt : RouteRuntime) → SameShape rt.balancer rt.balancer
same_shape rt = record { same_order = refl; same_number = refl; same_cooldowns = refl }

module _ (h : Http) where
  -- Dropping guards leaves all but the counters.
  record Released (is : List ℕ) (rt rt' : RouteRuntime) : Type 0 where
    config : rt'.config ≡ rt.config
    cache : rt'.cache ≡ rt.cache
    shape : SameShape rt.balancer rt'.balancer
    counts : (held : List ℕ) → Counted h rt.balancer (is ++ held) → Counted h rt'.balancer held

  release-Released :
      (i : ℕ) (rt : RouteRuntime)
      → i < length rt.balancer.upstreams
      → Released (i ∷ []) rt (release i rt)
  unfolding release drop_guard
  release-Released i rt below =
      let (u, at) = get_elem?-some rt.balancer.upstreams i below in
      let same : release i rt ≡ with_upstream rt i (drop_guard u) = ground (arith, at) in
      rw same (record {
        config = refl;
        cache = refl;
        shape = set-SameShape rt.balancer i u (drop_guard u) at refl;
        counts = λ held c. drops-IsCounted rt.balancer i u [] held at c;
      })

  release_all-Released :
      (is : List ℕ) (rt : RouteRuntime)
      → AllBelow h is (length rt.balancer.upstreams)
      → Released is rt (release_all is rt)
  unfolding release_all
  release_all-Released [] rt below = record {
    config = refl;
    cache = refl;
    shape = same_shape rt;
    counts = λ held c. c;
  }
  release_all-Released (i ∷ is) rt below =
      let r = release-Released i rt below.0 in
      let q = release_all-Released is (release i rt) (rw r.shape.same_number below.1) in
      record {
        config = q.config ∙ r.config;
        cache = q.cache ∙ r.cache;
        shape =
            SameShape-trans rt.balancer (release i rt).balancer
              (release_all is (release i rt)).balancer r.shape q.shape;
        counts = λ held c. q.counts held (r.counts (is ++ held) c);
      }

  probed-SameShape :
      (healthy : Bool) (i : ℕ) (rt : RouteRuntime)
      → SameShape rt.balancer (probed healthy i rt).balancer
  unfolding probed set_healthy
  probed-SameShape healthy i rt = elim (Option-cases (get_elem? rt.balancer.upstreams i)) [
    | inl outside ↦ rw (outside, probed) (same_shape rt)
    | inr (u, at) ↦ rw (at, probed) (set-SameShape rt.balancer i u (set_healthy u healthy) at refl)
  ]

  probed-counted :
      (healthy : Bool) (i : ℕ) (rt : RouteRuntime) (held : List ℕ)
      → Counted h rt.balancer held
      → Counted h (probed healthy i rt).balancer held
  unfolding probed set_healthy
  probed-counted healthy i rt held c = elim (Option-cases (get_elem? rt.balancer.upstreams i)) [
    | inl outside ↦ rw (outside, probed) c
    | inr (u, at) ↦
        rw (at, probed) (writes-IsCounted rt.balancer i u (set_healthy u healthy) held at refl c)
  ]

  holds_here :
      (p : Point h) (name n : Str)
      → route_of h p ≡ some name
      → str_eq name n ≡ true
      → holds h p n ≡ guard h p
  holds_here p name n on mine = ground (arith, on, mine)

module _ (h : Http) {L : Type 0} where
  -- One route gets another runtime.
  pub put-Shifts :
      (g : Gateway L) (p q : Point h) (name : Str) (rt rt' : RouteRuntime)
      → IsWellformed g.state
      → lookup name g.state.routes ≡ some rt
      → rt'.config ≡ rt.config
      → rt'.cache ≡ rt.cache
      → SameShape rt.balancer rt'.balancer
      → ((n : Str) (held : List ℕ)
          → str_eq name n ≡ true
          → Counted h rt.balancer (holds h p n ++ held)
          → Counted h rt'.balancer (holds h q n ++ held))
      → ((n : Str) → str_eq name n ≡ false → holds h p n ≡ holds h q n)
      → Shifts h g (with_routes h g name rt') p q
  put-Shifts g p q name rt rt' v there config cache shape mine_moves others_stay =
      let sound = v.sound name rt there in
      record {
        wellformed =
            served_by-IsWellformed g.state name rt rt' g.state.limiter v there
              (record {
                usable = SameShape-IsBalancer rt.balancer rt'.balancer shape sound.usable;
                bounded = rw cache sound.bounded;
              })
              config;
        forth = λ n rt0 at. elim (Bool-cases (str_eq name n)) [
          | inl mine ↦
              let same : rt ≡ rt0 = ground (arith, there, at, str_eq_iff name n) in
              (rt', ground (arith, lookup-insert name n rt' g.state.routes, mine), rw⁻¹ same shape)
          | inr other ↦ (
            rt0,
            ground (arith, lookup-insert name n rt' g.state.routes, other, at),
            same_shape rt0,
          )
        ];
        back = λ n rt0 at. elim (Bool-cases (str_eq name n)) [
          | inl mine ↦
              let same : rt' ≡ rt0 =
                ground (arith, lookup-insert name n rt' g.state.routes, mine, at) in
              (
                rt,
                ground (arith, there, mine, str_eq_iff name n),
                λ held c. rw⁻¹ same (mine_moves n held mine c),
              )
          | inr other ↦ (
            rt0,
            ground (arith, lookup-insert name n rt' g.state.routes, other, at),
            λ held c. rw⁻¹ (others_stay n other) c,
          )
        ];
        timely = λ brief.
            served_by-IsBriefState g.state name rt rt' g.state.limiter brief there
              (record { same_cooldowns = shape.same_cooldowns; same_ttl = ap ttl_of cache });
      }

  pub stay-Shifts :
      (g : Gateway L) (p q : Point h)
      → IsWellformed g.state
      → ((n : Str) → holds h p n ≡ holds h q n)
      → Shifts h g g p q
  stay-Shifts g p q v same = record {
    wellformed = v;
    forth = λ n rt at. (rt, at, same_shape rt);
    back = λ n rt at. (rt, at, λ held c. rw⁻¹ (same n) c);
    timely = λ brief. brief;
  }

  -- The upstream gets the health that its probe gave.
  pub ticks-Shifts :
      (g : Gateway L) (reply : Str → ℕ → Option ℕ) (t : Task)
      → IsWellformed g.state
      → Shifts h g
          (record g { state = record (g.state) { routes = probe reply t g.state.routes } })
          entered
          entered
  unfolding probe
  ticks-Shifts g reply t v = elim (Option-cases (lookup t.route g.state.routes)) [
    | inl gone ↦ rw (gone, probe) (stay-Shifts g entered entered v (λ n. refl))
    | inr (rt, there) ↦
        let healthy = is_success (reply t.url t.timeout_ms) in
        rw (there, probe)
          (put-Shifts g entered entered t.route rt (probed healthy t.index rt) v there
            (probed-config healthy t.index rt) (probed-cache healthy t.index rt)
            (probed-SameShape h healthy t.index rt)
            (λ n held mine c. probed-counted h healthy t.index rt held c) (λ n other. refl))
  ]

  -- The guard of a task that is dropped is dropped.
  pub abandon-Shifts :
      (g : Gateway L) (p : Point h)
      → IsWellformed g.state
      → IsValid h g p
      → Shifts h g (abandon h g p) p entered
  unfolding abandon
  abandon-Shifts g p v valid = elim (Option-cases (route_of h p)) [
    | inl nowhere ↦ rw (nowhere, abandon) (stay-Shifts g p entered v (λ n. ground (arith, nowhere)))
    | inr (name, on) ↦
        let (rt, there, below) = valid name on in
        let r = release_all-Released h (guard h p) rt below in
        let same : abandon h g p ≡ with_routes h g name (release_all (guard h p) rt) =
          ground (arith, on, there) in
        rw same (
          put-Shifts g p entered name rt (release_all (guard h p) rt) v there r.config r.cache
            r.shape (λ n held mine c. r.counts held (rw (holds_here h p name n on mine) at c))
            (λ n other. ground (arith, on, other)))
  ]
