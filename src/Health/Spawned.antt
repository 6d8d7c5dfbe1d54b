-- ===== src/Health/Spawned.antt =====
-- The tasks of a route make up its round, and a tick keeps what the handlers rely on.
use rust_api_gateway.Base.{
  ℕ, ◌+◌, ◌≡◌, refl, sym, ap, ◌∙◌, inl, inr, Bool, Option, none, some, Option-cases, List, [], ◌∷◌,
  ◌++◌, map, Str, length, length-set, get_elem?, set, arith,
}
use rust_api_gateway.Config.{HealthCheckConfig}
use rust_api_gateway.Balancer.{Upstream, set_healthy}
use rust_api_gateway.Balancer.Order.{IsBalancer}
use rust_api_gateway.State.{RouteRuntime}
use rust_api_gateway.Health.{
  is_success, probe_url, timeout_ms, tick, round, spawn_upstreams, spawn_route, probed, probe_route,
}

-- A tick leaves the configuration, the cache and the number and order of the upstreams.
pub probed-config :
    (healthy : Bool) (i : ℕ) (rt : RouteRuntime) → (probed healthy i rt).config ≡ rt.config
unfolding probed
probed-config healthy i rt = ground arith

pub probed-cache :
    (healthy : Bool) (i : ℕ) (rt : RouteRuntime) → (probed healthy i rt).cache ≡ rt.cache
unfolding probed
probed-cache healthy i rt = ground arith

pub probed-IsBalancer :
    (healthy : Bool) (i : ℕ) (rt : RouteRuntime)
    → IsBalancer rt.balancer
    → IsBalancer (probed healthy i rt).balancer
unfolding probed
probed-IsBalancer healthy i rt v = elim (Option-cases (get_elem? rt.balancer.upstreams i)) [
  | inl outside ↦ rw (outside, probed) v
  | inr (u, at) ↦
      rw (at, probed)
        (record {
          ordered = v.ordered;
          in_range = rw (length-set rt.balancer.upstreams i (set_healthy u healthy)) v.in_range;
        })
]

get_elem?-middle :
    (before : List Upstream) (u : Upstream) (after : List Upstream)
    → get_elem? (before ++ (u ∷ after)) (length before) ≡ some u
get_elem?-middle [] u after = refl
get_elem?-middle (x ∷ before) u after = get_elem?-middle before u after

set-middle :
    (before : List Upstream) (u w : Upstream) (after : List Upstream)
    → set (before ++ (u ∷ after)) (length before) w ≡ before ++ (w ∷ after)
set-middle [] u w after = refl
set-middle (x ∷ before) u w after = ap (λ l. x ∷ l) (set-middle before u w after)

append_assoc :
    (xs : List Upstream) (x : Upstream) (ys : List Upstream)
    → (xs ++ (x ∷ [])) ++ ys ≡ xs ++ (x ∷ ys)
append_assoc [] x ys = refl
append_assoc (y ∷ xs) x ys = ap (λ l. y ∷ l) (append_assoc xs x ys)

length-snoc : (xs : List Upstream) (x : Upstream) → length (xs ++ (x ∷ [])) ≡ length xs + 1
length-snoc [] x = omega arith
length-snoc (y ∷ xs) x = omega (arith, length-snoc xs x)

abbrev with_upstreams : RouteRuntime → List Upstream → RouteRuntime
with_upstreams rt us = record rt { balancer = record (rt.balancer) { upstreams = us } }

probed-middle :
    (healthy : Bool) (rt : RouteRuntime) (before : List Upstream) (u : Upstream)
    (after : List Upstream)
    → probed healthy (length before) (with_upstreams rt (before ++ (u ∷ after)))
      ≡ with_upstreams rt (before ++ (set_healthy u healthy ∷ after))
unfolding probed
probed-middle healthy rt before u after =
    rw (get_elem?-middle before u after, probed)
      (ap (with_upstreams rt) (set-middle before u (set_healthy u healthy) after))

module _ (reply : Str → ℕ → Option ℕ) where
  -- The tasks from an index on tick the upstreams from there on.
  probe_route-from :
      (name : Str) (hc : HealthCheckConfig) (rt : RouteRuntime) (before after : List Upstream)
      (i : ℕ)
      → i ≡ length before
      → probe_route reply (spawn_upstreams name hc i after) (with_upstreams rt (before ++ after))
        ≡ with_upstreams rt (before ++ map (tick reply hc) after)
  unfolding probe_route spawn_upstreams tick
  probe_route-from name hc rt before [] i at = refl
  probe_route-from name hc rt before (u ∷ after) i at =
      let healthy = is_success (reply (probe_url hc u) (timeout_ms hc)) in
      let ticked = before ++ (set_healthy u healthy ∷ []) in
      let first : probed healthy i (with_upstreams rt (before ++ (u ∷ after)))
          ≡ with_upstreams rt (ticked ++ after) =
        ap (λ j. probed healthy j (with_upstreams rt (before ++ (u ∷ after)))) at
        ∙ probed-middle healthy rt before u after
        ∙ ap (with_upstreams rt) (sym (append_assoc before (set_healthy u healthy) after)) in
      ap (probe_route reply (spawn_upstreams name hc (i + 1) after)) first
      ∙ probe_route-from name hc rt ticked after (i + 1)
          (ap (λ n. n + 1) at ∙ sym (length-snoc before (set_healthy u healthy)))
      ∙ ap (with_upstreams rt)
          (append_assoc before (set_healthy u healthy) (map (tick reply hc) after))

  spawn_route-none :
      (name : Str) (rt : RouteRuntime) → rt.config.health_check ≡ none → spawn_route name rt ≡ []
  unfolding spawn_route
  spawn_route-none name rt unchecked = rw (unchecked, spawn_route) refl

  spawn_route-some :
      (name : Str) (rt : RouteRuntime) (hc : HealthCheckConfig)
      → rt.config.health_check ≡ some hc
      → spawn_route name rt ≡ spawn_upstreams name hc 0 rt.balancer.upstreams
  unfolding spawn_route
  spawn_route-some name rt hc checked = ground (arith, checked)

  round-none : (rt : RouteRuntime) → rt.config.health_check ≡ none → round reply rt ≡ rt
  unfolding round
  round-none rt unchecked = ground (arith, unchecked)

  round-some :
      (rt : RouteRuntime) (hc : HealthCheckConfig)
      → rt.config.health_check ≡ some hc
      → round reply rt ≡ with_upstreams rt (map (tick reply hc) rt.balancer.upstreams)
  unfolding round
  round-some rt hc checked = ground (arith, checked)

  -- A tick of each task that is spawned for a route makes a round of its health checks.
  pub probe_route-spawn_route :
      (name : Str) (rt : RouteRuntime) → probe_route reply (spawn_route name rt) rt ≡ round reply rt
  unfolding probe_route
  probe_route-spawn_route name rt = elim (Option-cases (rt.config.health_check)) [
    | inl unchecked ↦
        ap (λ ts. probe_route reply ts rt) (spawn_route-none name rt unchecked)
        ∙ sym (round-none rt unchecked)
    | inr (hc, checked) ↦
        ap (λ ts. probe_route reply ts rt) (spawn_route-some name rt hc checked)
        ∙ probe_route-from name hc rt [] rt.balancer.upstreams 0 refl
        ∙ sym (round-some rt hc checked)
  ]
