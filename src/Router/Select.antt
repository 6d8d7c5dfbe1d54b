-- ===== src/Router/Select.antt =====
-- Which route `match_route` selects.
use rust_api_gateway.Base.{
  ℕ, ◌+◌, ◌*◌, ◌≤◌, ◌<◌, ◌≡◌, refl, ap, ◌⊎◌, ◌↔◌, inl, inr, Bool, true, false, ◌&&◌, Option, none,
  some, List, [], ◌∷◌, ◌++◌, Str, All, All-middle, arith, if◌then◌else◌,
}
use rust_api_gateway.Config.{RouteConfig, GatewayConfig}
use rust_api_gateway.Router.{
  host_matches, path_matches, is_some, len_of, Best, consider, match_from, match_route,
}

-- The route's host and path constraints hold of the request.
unfoldable pub admits : Option Str → Str → RouteConfig → Bool
admits host path r = host_matches r.matches.host host && path_matches path r.matches.path_prefix

-- A longer prefix is more specific, and of two equally long ones that of a route with a host.
unfoldable pub specificity : RouteConfig → ℕ
specificity r = 2 * len_of r + (if is_some r.matches.host then 1 else 0)

-- `r` admits the request, every route before it that does is less specific, and none after it is
-- more specific.
pub record Selected (host : Option Str) (path : Str) (rs : List RouteConfig) (r : RouteConfig)
    : Type 0 where
  pub before : List RouteConfig
  pub after : List RouteConfig
  pub listed : rs ≡ before ++ (r ∷ after)
  pub admitted : admits host path r ≡ true
  pub earlier : All (λ q. (admits host path q ≡ false) ⊎ (specificity q < specificity r)) before
  pub later : All (λ q. (admits host path q ≡ false) ⊎ (specificity q ≤ specificity r)) after

module _ (host : Option Str) (path : Str) where
  abbrev of_best : RouteConfig → Best
  of_best b = record { best = some b; best_len = len_of b }

  -- A round keeps the best route so far, or takes the next where it is more specific.
  consider_cases :
      (b r : RouteConfig)
      → ((consider host path (of_best b) r ≡ of_best r)
          × (admits host path r ≡ true)
          × (specificity b < specificity r))
        ⊎ ((consider host path (of_best b) r ≡ of_best b)
            × ((admits host path r ≡ false) ⊎ (specificity r ≤ specificity b)))
  unfolding consider admits specificity
  consider_cases b r = ground arith

  abbrev NotBetter : RouteConfig → List RouteConfig → Type 0
  NotBetter b rs = All (λ q. (admits host path q ≡ false) ⊎ (specificity q ≤ specificity b)) rs

  record Later (b r : RouteConfig) (rs : List RouteConfig) : Type 0 where
    chosen : Selected host path rs r
    better : specificity b < specificity r

  Later-cons :
      (b q r : RouteConfig) (rs : List RouteConfig)
      → (admits host path q ≡ false) ⊎ (specificity q < specificity r)
      → specificity b < specificity r
      → Selected host path rs r
      → Later b r (q ∷ rs)
  Later-cons b q r rs h k s = record {
    chosen = record {
      before = q ∷ s.before;
      after = s.after;
      listed = ap (◌∷◌ q) s.listed;
      admitted = s.admitted;
      earlier = (h, s.earlier);
      later = s.later;
    };
    better = k;
  }

  -- From a best route on, the loop ends with it, if no later one is better, or with a later one.
  match_from_cases :
      (b : RouteConfig) (rs : List RouteConfig)
      → ((match_from host path (of_best b) rs ≡ of_best b) × NotBetter b rs)
        ⊎ ((r : RouteConfig) × (match_from host path (of_best b) rs ≡ of_best r) × Later b r rs)
  unfolding match_from
  match_from_cases b [] = inl (refl, tt)
  match_from_cases b (q ∷ rs) = elim (consider_cases b q) [
    | inl (taken, admitted, better) ↦ elim (match_from_cases q rs) [
      | inl (same, rest) ↦ inr (
        q,
        rw taken same,
        record {
          chosen = record {
            before = [];
            after = rs;
            listed = refl;
            admitted = admitted;
            earlier = tt;
            later = rest;
          };
          better = better;
        },
      )
      | inr (r, found, l) ↦
          inr (
            r,
            rw taken found,
            Later-cons b q r rs (inr l.better) (omega (arith, l.better)) l.chosen,
          )
    ]
    | inr (kept, worse) ↦ elim (match_from_cases b rs) [
      | inl (same, rest) ↦ inl (rw kept same, (worse, rest))
      | inr (r, found, l) ↦ inr (
        r,
        rw kept found,
        Later-cons b q r rs
            (elim worse [ inl out ↦ inl out | inr le ↦ inr (omega (arith, le, l.better)) ]) l.better
            l.chosen,
      )
    ]
  ]

  abbrev start : Best
  start = record { best = none; best_len = 0 }

  start_cases :
      (r : RouteConfig)
      → ((consider host path start r ≡ of_best r) × (admits host path r ≡ true))
        ⊎ ((consider host path start r ≡ start) × (admits host path r ≡ false))
  unfolding consider admits
  start_cases r = ground arith

  match_from-start :
      (rs : List RouteConfig)
      → ((match_from host path start rs ≡ start) × All (λ q. admits host path q ≡ false) rs)
        ⊎ ((r : RouteConfig) × (match_from host path start rs ≡ of_best r)
            × Selected host path rs r)
  unfolding match_from
  match_from-start [] = inl (refl, tt)
  match_from-start (q ∷ rs) = elim (start_cases q) [
    | inl (taken, admitted) ↦ elim (match_from_cases q rs) [
      | inl (same, rest) ↦ inr (
        q,
        rw taken same,
        record {
          before = [];
          after = rs;
          listed = refl;
          admitted = admitted;
          earlier = tt;
          later = rest;
        },
      )
      | inr (r, found, l) ↦
          inr (r, rw taken found, (Later-cons q q r rs (inr l.better) l.better l.chosen).chosen)
    ]
    | inr (kept, refused) ↦ elim (match_from-start rs) [
      | inl (same, rest) ↦ inl (rw kept same, (refused, rest))
      | inr (r, found, s) ↦ inr (
        r,
        rw kept found,
        record {
          before = q ∷ s.before;
          after = s.after;
          listed = ap (◌∷◌ q) s.listed;
          admitted = s.admitted;
          earlier = (inl refused, s.earlier);
          later = s.later;
        },
      )
    ]
  ]

-- A route that is matched stands in the configuration, its host and path constraints hold, and
-- it is the first of the most specific such routes: the longest prefix wins, a host breaks ties,
-- and then the order of the configuration does.
pub match_route-Selected :
    (config : GatewayConfig) (host : Option Str) (path : Str) (r : RouteConfig)
    → match_route config host path ≡ some r
    → Selected host path config.routes r
unfolding match_route
match_route-Selected config host path r e = elim (match_from-start host path config.routes) [
  | inl (same, _) ↦ absurd (ground arith)
  | inr (q, found, s) ↦ let same : q ≡ r = ground arith in rw same at s
]

-- No route is matched exactly when the constraints of none hold.
pub match_route-none_iff :
    (config : GatewayConfig) (host : Option Str) (path : Str)
    → (match_route config host path ≡ none) ↔ All (λ q. admits host path q ≡ false) config.routes
unfolding match_route
match_route-none_iff config host path = (
  λ e. elim (match_from-start host path config.routes) [
    | inl (_, refused) ↦ refused
    | inr (q, found, _) ↦ absurd (ground arith)
  ],
  λ refused. elim (match_from-start host path config.routes) [
    | inl (same, _) ↦ ap (λ b. b.best) same
    | inr (q, _, s) ↦
        let h : admits host path q ≡ false =
          All-middle (λ q. admits host path q ≡ false) s.before q s.after
            (rw s.listed at refused) in
        absurd (ground (arith, s.admitted))
  ],
)
