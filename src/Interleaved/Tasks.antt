-- ===== src/Interleaved/Tasks.antt =====
-- The requests that a gateway handles at once, as tasks that interleave with each other and with the
-- health checks. When its client disconnects a task is dropped where it stands, which drops its guard.
use rust_api_gateway.Base.{
  ℕ, zero, suc, ◌≡◌, true, Option, none, some, List, [], ◌∷◌, Str, get_elem?, set, lookup, insert,
}
use rust_api_gateway.Headers.{Http}
use rust_api_gateway.Balancer.{drop_guard}
use rust_api_gateway.State.{RouteRuntime}
use rust_api_gateway.Health.{Task, probe}
use rust_api_gateway.Proxy.Handler.{Request}
use rust_api_gateway.Proxy.Gateway.{Gateway, World}
use rust_api_gateway.Proxy.Wellformed.{IsOrderly}
use rust_api_gateway.Interleaved.{Point, entered, route_of}
use rust_api_gateway.Interleaved.Loop.{with_upstream, advance}
use rust_api_gateway.Interleaved.Local.{guard}
use rust_api_gateway.Interleaved.Effects.{is_open}

abbrev pub remove_at {ℓ} : {A : Type ℓ} → List A → ℕ → List A
remove_at [] i = []
remove_at (x ∷ xs) zero = xs
remove_at (x ∷ xs) (suc i) = x ∷ remove_at xs i

-- A runtime once a guard on one of its upstreams is dropped, and once some are.
unfoldable pub release : ℕ → RouteRuntime → RouteRuntime
release i rt = elim (get_elem? rt.balancer.upstreams i) [
  | none ↦ rt
  | some u ↦ with_upstream rt i (drop_guard u)
]

unfoldable pub release_all : List ℕ → RouteRuntime → RouteRuntime
release_all [] rt = rt
release_all (i ∷ is) rt = release_all is (release i rt)

module _ (h : Http) where
  pub record Handling : Type 0 where
    pub request : Request h
    pub point : Point h

  -- A gateway with its tasks, and the number of those that were dropped while they were open.
  pub record Busy (L : Type 0) : Type 0 where
    pub gateway : Gateway L
    pub tasks : List Handling
    pub dropped : ℕ

  module _ {L : Type 0} where
    abbrev pub with_routes : Gateway L → Str → RouteRuntime → Gateway L
    with_routes g name rt = record g {
      state = record (g.state) { routes = insert name rt g.state.routes };
    }

    -- The gateway once the future of a task is dropped.
    unfoldable pub abandon : Gateway L → Point h → Gateway L
    abandon g p = elim (route_of h p) [
      | none ↦ g
      | some name ↦ elim (lookup name g.state.routes) [
        | none ↦ g
        | some rt ↦ with_routes g name (release_all (guard h p) rt)
      ]
    ]

    pub data Step (s : Busy L) : Busy L → Type 0 where
      arrives :
          (req : Request h)
          → Step s (record s { tasks = record { request = req; point = entered } ∷ s.tasks })
      advances :
          (w : World h L) (i : ℕ) (t : Handling) (g : Gateway L) (q : Point h)
          → IsOrderly h w
          → get_elem? s.tasks i ≡ some t
          → advance h w t.request s.gateway t.point ≡ some (g, q)
          → Step s (record s { gateway = g; tasks = set s.tasks i (record t { point = q }) })
      disconnects :
          (i : ℕ) (t : Handling)
          → get_elem? s.tasks i ≡ some t
          → is_open h t.point ≡ true
          → Step s (record {
            gateway = abandon s.gateway t.point;
            tasks = remove_at s.tasks i;
            dropped = suc s.dropped;
          })
      ticks :
          (reply : Str → ℕ → Option ℕ) (t : Task)
          → Step s (record s {
            gateway = record (s.gateway) {
              state = record (s.gateway.state) { routes = probe reply t s.gateway.state.routes };
            };
          })

    pub data Reach (s : Busy L) : Busy L → Type 0 where
      here : Reach s s
      next : (t u : Busy L) → Reach s t → Step t u → Reach s u
