-- ===== src/Router/Paths.antt =====
-- Path prefixes: what `path_matches` accepts, and what `forward_path` leaves of an accepted path.
use rust_api_gateway.Base.{
  ◌≡◌, refl, sym, ap, ◌∙◌, ◌⊎◌, ◌↔◌, ◌≢◌, inl, inr, true, false, some, [], ◌∷◌, ◌++◌, Str, str,
  str_eq, str_eq_iff, str_ne_iff, length, get_elem?, starts_with, starts_with_split,
  starts_with-append, strip_prefix, strip_prefix-append, trim_end_matches, is_empty, if◌then◌else◌,
  arith, Bool-cases,
}
use rust_api_gateway.Config.{RouteConfig}
use mathlib.Core.List.{append-nil}
use rust_api_gateway.Router.{is_slash, path_matches, forward_path}

-- Nothing, or a text that begins with a slash.
abbrev pub IsTail : Str → Type 0
IsTail [] = Unit
IsTail (c ∷ s) = c ≡ b'/'

-- The path is the prefix, less its slashes at the end, and continues at a segment boundary.
pub record Extends (path full : Str) : Type 0 where
  pub rest : Str
  pub split : path ≡ trim_end_matches b'/' full ++ rest
  pub boundary : IsTail rest

get_elem?-append_length : (p r : Str) → get_elem? (p ++ r) (length p) ≡ get_elem? r 0
get_elem?-append_length [] r = refl
get_elem?-append_length (a ∷ p) r = get_elem?-append_length p r

IsTail-of_slash : (r : Str) → is_slash (get_elem? r 0) ≡ true → IsTail r
IsTail-of_slash [] h = tt
IsTail-of_slash (c ∷ s) h = ground arith

-- A nonempty tail begins with a slash.
slash_of_IsTail : (r : Str) → IsTail r → (r ≡ []) ⊎ (is_slash (get_elem? r 0) ≡ true)
slash_of_IsTail [] h = inl refl
slash_of_IsTail (c ∷ s) h = inr (ground arith)

continues-Extends :
    (path full : Str)
    → starts_with path (trim_end_matches b'/' full) ≡ true
    → is_slash (get_elem? path (length (trim_end_matches b'/' full))) ≡ true
    → Extends path full
continues-Extends path full h k =
    let (r, e) = starts_with_split path (trim_end_matches b'/' full) h in
    record {
      rest = r;
      split = e;
      boundary =
          IsTail-of_slash r (rw (e, get_elem?-append_length (trim_end_matches b'/' full) r) at k);
    }

Extends-path_matches : (path full : Str) → Extends path full → path_matches path full ≡ true
unfolding path_matches
Extends-path_matches path full x =
    let prefix = trim_end_matches b'/' full in
    elim (slash_of_IsTail x.rest x.boundary) [
      | inl e ↦
          let same : path ≡ prefix = x.split ∙ ap (◌++◌ prefix) e ∙ append-nil prefix in
          ground (arith, str_eq_iff path prefix)
      | inr slash ↦
          let starts : starts_with path prefix ≡ true =
            rw x.split (starts_with-append prefix x.rest) in
          let next : is_slash (get_elem? path (length prefix)) ≡ true =
            rw (x.split, get_elem?-append_length prefix x.rest) slash in
          ground arith
    ]

-- A path matches a prefix exactly when the prefix is a slash, or the path continues the prefix at
-- a segment boundary.
pub path_matches_iff :
    (path full : Str) → (path_matches path full ≡ true) ↔ ((full ≡ str "/") ⊎ Extends path full)
unfolding path_matches
path_matches_iff path full = (
  λ h. elim (Bool-cases (str_eq full (str "/"))) [
    | inl root ↦ inl ((str_eq_iff full (str "/")).0 root)
    | inr other ↦ elim (Bool-cases (str_eq path (trim_end_matches b'/' full))) [
      | inl same ↦ inr (record {
        rest = [];
        split = (str_eq_iff _ _).0 same ∙ sym (append-nil _);
        boundary = tt;
      })
      | inr longer ↦ inr (continues-Extends path full (ground arith) (ground arith))
    ]
  ],
  elim [
    | inl root ↦ ground (arith, str_eq_iff full (str "/"))
    | inr x ↦ Extends-path_matches path full x
  ],
)

abbrev pub or_root : Str → Str
or_root [] = str "/"
or_root (c ∷ s) = c ∷ s

strip_prefix-Extends :
    (path full : Str) (x : Extends path full)
    → strip_prefix path (trim_end_matches b'/' full) ≡ some x.rest
strip_prefix-Extends path full x =
    ap (λ s. strip_prefix s (trim_end_matches b'/' full)) x.split
    ∙ strip_prefix-append (trim_end_matches b'/' full) x.rest

is_empty_cases : (s : Str) → (if is_empty s then str "/" else s) ≡ or_root s
is_empty_cases [] = refl
is_empty_cases (c ∷ s) = refl

-- With the prefix to be stripped, a path that matched is forwarded as what follows the prefix,
-- or as a slash where nothing does.
pub forward_path-stripped :
    (path : Str) (route : RouteConfig)
    → route.strip_path_prefix ≡ true
    → route.matches.path_prefix ≢ str "/"
    → path_matches path route.matches.path_prefix ≡ true
    → (x : Extends path route.matches.path_prefix) × (forward_path path route ≡ or_root x.rest)
unfolding forward_path
forward_path-stripped path route strip inner matched =
    elim ((path_matches_iff path route.matches.path_prefix).0 matched) [
      | inl root ↦ absurd (inner root)
      | inr x ↦ (
        x,
        ground (
          arith,
          strip_prefix-Extends path route.matches.path_prefix x,
          str_ne_iff route.matches.path_prefix (str "/"),
          is_empty_cases x.rest,
        ),
      )
    ]

-- With no prefix to be stripped the path is forwarded as it is.
forward_path-kept :
    (path : Str) (route : RouteConfig)
    → ((route.strip_path_prefix ≡ false) ⊎ (route.matches.path_prefix ≡ str "/"))
    → forward_path path route ≡ path
unfolding forward_path
forward_path-kept path route h = ground (arith, str_eq_iff route.matches.path_prefix (str "/"))

abbrev pub IsAbsolute : Str → Type 0
IsAbsolute [] = ⊥
IsAbsolute (c ∷ s) = c ≡ b'/'

or_root-IsAbsolute : (r : Str) → IsTail r → IsAbsolute (or_root r)
or_root-IsAbsolute [] h = refl
or_root-IsAbsolute (c ∷ s) h = h

-- A matched path that begins with a slash is forwarded as a path that begins with a slash,
-- whatever is stripped.
pub forward_path-IsAbsolute :
    (path : Str) (route : RouteConfig)
    → IsAbsolute path
    → path_matches path route.matches.path_prefix ≡ true
    → IsAbsolute (forward_path path route)
forward_path-IsAbsolute path route h matched = elim (Bool-cases route.strip_path_prefix) [
  | inr off ↦ rw (forward_path-kept path route (inl off)) h
  | inl on ↦ elim (Bool-cases (str_eq route.matches.path_prefix (str "/"))) [
    | inl root ↦ rw (forward_path-kept path route (inr ((str_eq_iff _ _).0 root))) h
    | inr inner ↦
        let (x, e) = forward_path-stripped path route on ((str_ne_iff _ _).0 inner) matched in
        rw e (or_root-IsAbsolute x.rest x.boundary)
  ]
]
