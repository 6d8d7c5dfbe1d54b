-- ===== src/Interleaved/Local.antt =====
-- What a step of a task does to the runtime of its route, and how far it brings the task.
use rust_api_gateway.Base.{
  ℕ, ◌+◌, ◌*◌, ◌<◌, ◌≡◌, refl, ◌⊎◌, some, List, [], ◌∷◌, ◌++◌, Str, length, u32_mod,
}
use rust_api_gateway.Headers.{Http}
use rust_api_gateway.Balancer.{Balancer}
use rust_api_gateway.Balancer.Tasks.{IsCounted}
use rust_api_gateway.State.{RouteRuntime}
use rust_api_gateway.Proxy.Instants.{ttl_of}
use rust_api_gateway.Proxy.Trail.{SameShape}
use rust_api_gateway.Proxy.Responses.{Response}
use rust_api_gateway.Proxy.Served.{CacheBounded, connections}
use rust_api_gateway.Interleaved.{
  Point, entered, at_auth, at_limit, at_cache, at_body, at_pick, at_send, at_report, at_finish,
  at_store, retrying, at_release, closing, answered, route_of, Moved,
}

module _ (h : Http) where
  -- The guard that a task holds at a point.
  abbrev pub guard : Point h → List ℕ
  guard entered = []
  guard (at_auth name) = []
  guard (at_limit name) = []
  guard (at_cache name) = []
  guard (at_body name enabled) = []
  guard (at_pick name round) = []
  guard (at_send name round idx) = idx ∷ []
  guard (at_report name round idx x) = idx ∷ []
  guard (at_finish name enabled idx status answer) = idx ∷ []
  guard (at_store name idx status answer) = idx ∷ []
  guard (retrying name round idx) = idx ∷ []
  guard (at_release name idx response) = idx ∷ []
  guard (closing response) = []
  guard (answered response) = []

  -- More attempts than a request can have, each of four steps.
  abbrev loop_bound : ℕ
  loop_bound = 4 * u32_mod

  -- A bound on the steps that a task has left.
  abbrev pub cost : Point h → ℕ
  cost entered = loop_bound + 9
  cost (at_auth name) = loop_bound + 8
  cost (at_limit name) = loop_bound + 7
  cost (at_cache name) = loop_bound + 6
  cost (at_body name enabled) = loop_bound + 5
  cost (at_pick name round) = 4 * round.left + 4
  cost (at_send name round idx) = 4 * round.left + 7
  cost (at_report name round idx x) = 4 * round.left + 6
  cost (at_finish name enabled idx status answer) = 4
  cost (at_store name idx status answer) = 3
  cost (retrying name round idx) = 4 * round.left + 5
  cost (at_release name idx response) = 2
  cost (closing response) = 1
  cost (answered response) = 0

  abbrev pub AllBelow : List ℕ → ℕ → Type 0
  AllBelow [] n = Unit
  AllBelow (i ∷ is) n = (i < n) × AllBelow is n

  -- The route stays, or there is a response and no guard.
  abbrev pub IsOn : Str → Point h → Type 0
  IsOn name q = (route_of h q ≡ some name) ⊎ ((r : Response h) × (q ≡ closing r))

  abbrev pub Counted : Balancer → List ℕ → Type 0
  Counted b held = IsCounted (record { balancer = b; held = held })

  -- What is left of a runtime when a task moves from a point to another.
  pub record Keeps (p q : Point h) (rt rt' : RouteRuntime) : Type 0 where
    pub same_config : rt'.config ≡ rt.config
    pub bounded : CacheBounded rt'.cache
    pub same_shape : SameShape rt.balancer rt'.balancer
    pub same_ttl : ttl_of rt'.cache ≡ ttl_of rt.cache
    pub guards :
        (held : List ℕ)
        → Counted rt.balancer (guard p ++ held)
        → Counted rt'.balancer (guard q ++ held)

  -- A step on a route.
  pub record Fits {L : Type 0} (name : Str) (p : Point h) (rt : RouteRuntime) (m : Moved h L)
      : Type 0 where
    pub keeps : Keeps p m.next rt m.runtime
    pub on : IsOn name m.next
    pub below : AllBelow (guard m.next) (length m.runtime.balancer.upstreams)
    pub no_connections : connections m.metrics ≡ []
    pub nearer : cost m.next < cost p

  -- The balancer is left alone, and no guard is taken or dropped.
  pub Keeps-balancer :
      (p q : Point h) (rt rt' : RouteRuntime)
      → rt'.config ≡ rt.config
      → rt'.balancer ≡ rt.balancer
      → CacheBounded rt'.cache
      → guard p ≡ guard q
      → ttl_of rt'.cache ≡ ttl_of rt.cache
      → Keeps p q rt rt'
  Keeps-balancer p q rt rt' e f b g t = record {
    same_config = e;
    bounded = b;
    same_shape = rw f (record { same_order = refl; same_number = refl; same_cooldowns = refl });
    same_ttl = t;
    guards = λ held c. rw f (rw⁻¹ g c);
  }
