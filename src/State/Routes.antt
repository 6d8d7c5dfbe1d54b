-- ===== src/State/Routes.antt =====
-- The runtime of a route that is matched is always there.
use rust_api_gateway.Base.{
  ◌≡◌, ◌≢◌, refl, sym, ◌∙◌, ◌⊎◌, inl, inr, true, Option, some, List, [], ◌∷◌, ◌++◌, Str, HashMap,
  lookup, insert, lookup-insert, str_ne_iff, str_eq_refl, arith,
}
use rust_api_gateway.Config.{RouteConfig, GatewayConfig, ok}
use rust_api_gateway.Config.Validate.{validate}
use rust_api_gateway.Config.Valid.{UniqueNames, Fresh, validate-ok_iff}
use rust_api_gateway.Router.{match_route}
use rust_api_gateway.Router.Select.{match_route-Selected}
use rust_api_gateway.State.{RouteRuntime, from_config, build_routes, GatewayState, build, route}

abbrev Among : Str → List Str → Type 0
Among n [] = ⊥
Among n (m ∷ ms) = (m ≡ n) ⊎ Among n ms

not-Fresh_of_Among : (n m : Str) (ms : List Str) → Among n ms → Fresh m ms → m ≢ n
not-Fresh_of_Among n m [] a f e = elim a [ ]
not-Fresh_of_Among n m (k ∷ ms) (inl same) f e = f.0 (same ∙ sym e)
not-Fresh_of_Among n m (k ∷ ms) (inr later) f e = not-Fresh_of_Among n m ms later f.1 e

-- A route whose name was given before does not come again.
lookup-build_routes_kept :
    (n : Str) (names : List Str) (m : HashMap RouteRuntime) (rs : List RouteConfig)
    → Among n names
    → UniqueNames names rs
    → lookup n (build_routes m rs) ≡ lookup n m
unfolding build_routes
lookup-build_routes_kept n names m [] a u = refl
lookup-build_routes_kept n names m (r ∷ rs) a u =
    lookup-build_routes_kept n (r.name ∷ names) (insert r.name (from_config r) m) rs (inr a) u.1
    ∙ ground (
      arith,
      lookup-insert r.name n (from_config r) m,
      (str_ne_iff r.name n).1 (not-Fresh_of_Among n r.name names a u.0),
    )

lookup-build_routes :
    (names : List Str) (m : HashMap RouteRuntime) (before after : List RouteConfig)
    (r : RouteConfig)
    → UniqueNames names (before ++ (r ∷ after))
    → lookup r.name (build_routes m (before ++ (r ∷ after))) ≡ some (from_config r)
unfolding build_routes
lookup-build_routes names m [] after r u =
    lookup-build_routes_kept r.name (r.name ∷ names) (insert r.name (from_config r) m) after
      (inl refl) u.1
    ∙ ground (arith, lookup-insert r.name r.name (from_config r) m, str_eq_refl r.name)
lookup-build_routes names m (q ∷ before) after r u =
    lookup-build_routes (q.name ∷ names) (insert q.name (from_config q) m) before after r u.1

-- In a state that is built from a valid configuration, the route that is matched has its runtime,
-- with its own configuration: the handler never misses one.
pub route-match_route :
    {L : Type 0} (connect : Str → Option L) (in_memory : L) (config : GatewayConfig)
    (host : Option Str) (path : Str) (r : RouteConfig)
    → validate config ≡ ok tt
    → match_route config host path ≡ some r
    → (s : GatewayState L) × (build true connect in_memory config ≡ some s)
      × (route s r.name ≡ some (from_config r))
unfolding build route
route-match_route connect in_memory config host path r e m =
    let v = (validate-ok_iff config).0 e in
    let chosen = match_route-Selected config host path r m in
    (
      _,
      refl,
      rw chosen.listed
          (lookup-build_routes [] [] chosen.before chosen.after r (rw chosen.listed at v.unique)),
    )
