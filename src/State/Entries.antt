-- ===== src/State/Entries.antt =====
-- What holds of each runtime that is built holds of each in the map of routes.
use rust_api_gateway.Base.{
  ◌≡◌, inl, inr, Bool-cases, some, List, [], ◌∷◌, Str, HashMap, All, lookup, insert, lookup-insert,
  str_eq, arith,
}
use rust_api_gateway.Config.{RouteConfig}
use rust_api_gateway.State.{RouteRuntime, from_config, build_routes}

module _ (P : RouteRuntime → Type 0) where
  -- The predicate holds of every runtime of a map.
  abbrev pub AllRuntimes : HashMap RouteRuntime → Type 0
  AllRuntimes m = (name : Str) (rt : RouteRuntime) (e : lookup name m ≡ some rt) → P rt

  insert-AllRuntimes :
      (k : Str) (r : RouteRuntime) (m : HashMap RouteRuntime)
      → P r
      → AllRuntimes m
      → AllRuntimes (insert k r m)
  insert-AllRuntimes k r m v a name rt e = elim (Bool-cases (str_eq k name)) [
    | inl mine ↦ let one : r ≡ rt = ground (arith, lookup-insert k name r m) in rw one at v
    | inr other ↦ a name rt (ground (arith, lookup-insert k name r m))
  ]

  build_routes-from :
      (m : HashMap RouteRuntime) (rs : List RouteConfig)
      → All (λ r. P (from_config r)) rs
      → AllRuntimes m
      → AllRuntimes (build_routes m rs)
  unfolding build_routes
  build_routes-from m [] vs a = a
  build_routes-from m (r ∷ rs) (v, vs) a =
      build_routes-from (insert r.name (from_config r) m) rs vs
        (insert-AllRuntimes r.name (from_config r) m v a)

  pub build_routes-AllRuntimes :
      (rs : List RouteConfig) → All (λ r. P (from_config r)) rs → AllRuntimes (build_routes [] rs)
  unfolding lookup
  build_routes-AllRuntimes rs a = build_routes-from [] rs a (λ name rt e. absurd (ground arith))
