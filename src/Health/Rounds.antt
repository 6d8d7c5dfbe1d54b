-- ===== src/Health/Rounds.antt =====
-- A pick after a round of health checks.
use rust_api_gateway.Base.{
  ℕ, zero, suc, ◌≡◌, refl, sym, ap, ◌∙◌, true, Option, some, List, [], ◌∷◌, map, Str, length,
  get_elem?, get_elem?-some, lt-length_of_get, arith,
}
use rust_api_gateway.Config.{HealthCheckConfig}
use rust_api_gateway.Balancer.{Upstream, Balancer, pick, set_healthy}
use rust_api_gateway.Balancer.Order.{IsBalancer}
use rust_api_gateway.Balancer.Probe.{Probes-get, Probes-length}
use rust_api_gateway.Balancer.Guards.{Granted-of_pick}
use rust_api_gateway.State.{RouteRuntime}
use rust_api_gateway.Health.{is_success, probe_url, timeout_ms, tick, round}

module _ (reply : Str → ℕ → Option ℕ) where
  length-map-tick :
      (hc : HealthCheckConfig) (us : List Upstream) → length (map (tick reply hc) us) ≡ length us
  length-map-tick hc [] = refl
  length-map-tick hc (u ∷ us) = ap suc (length-map-tick hc us)

  get_elem?-map-tick :
      (hc : HealthCheckConfig) (us : List Upstream) (i : ℕ) (u : Upstream)
      → get_elem? us i ≡ some u
      → get_elem? (map (tick reply hc) us) i ≡ some (tick reply hc u)
  get_elem?-map-tick hc [] i u e = absurd (ground arith)
  get_elem?-map-tick hc (x ∷ us) zero u e = ground arith
  get_elem?-map-tick hc (x ∷ us) (suc i) u e = get_elem?-map-tick hc us i u e

  round-checked :
      (hc : HealthCheckConfig) (runtime : RouteRuntime)
      → runtime.config.health_check ≡ some hc
      → (round reply runtime).balancer
        ≡ record (runtime.balancer) { upstreams = map (tick reply hc) runtime.balancer.upstreams }
  unfolding round
  round-checked hc runtime e = rw (e, round) refl

  -- After a round of health checks on a usable balancer, a pick that returns an upstream returns one
  -- whose probe was answered with success, whatever its health was before.
  pub pick-round :
      (hc : HealthCheckConfig) (runtime : RouteRuntime) (clock : ℕ → ℕ) (exclude : List ℕ)
      (b' : Balancer) (i : ℕ)
      → runtime.config.health_check ≡ some hc
      → IsBalancer runtime.balancer
      → pick clock exclude (round reply runtime).balancer ≡ some (b', some i)
      → (u : Upstream) × (get_elem? runtime.balancer.upstreams i ≡ some u)
        × (is_success (reply (probe_url hc u) (timeout_ms hc)) ≡ true)
  unfolding tick set_healthy
  pick-round hc runtime clock exclude b' i e v picked =
      let us = runtime.balancer.upstreams in
      let checked = record (runtime.balancer) { upstreams = map (tick reply hc) us } in
      let usable : IsBalancer checked = record {
        ordered = v.ordered;
        in_range = rw (length-map-tick hc us) v.in_range;
      } in
      let g =
        Granted-of_pick clock exclude checked b' i usable
          (rw (round-checked hc runtime e) at picked) in
      let w = g.chosen.upstream in
      let below = lt-length_of_get g.before.upstreams i w g.chosen.at in
      let number = Probes-length checked.upstreams g.before.upstreams g.scanned.probes in
      let (u, at) = get_elem?-some us i (omega (arith, below, number, length-map-tick hc us)) in
      let (w', at', p) =
        Probes-get checked.upstreams g.before.upstreams i (tick reply hc u) g.scanned.probes
          (get_elem?-map-tick hc us i u at) in
      let same : w' ≡ w = ground (arith, at', g.chosen.at) in
      (u, at, sym p.healthy ∙ ap (λ x. x.healthy) same ∙ g.chosen.ready.healthy)
