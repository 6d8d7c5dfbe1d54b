-- ===== src/Auth/Laws.antt =====
-- Who is authorized.
use rust_api_gateway.Base.{
  ◌≡◌, ◌↔◌, refl, ◌⊎◌, inl, inr, true, Bool-cases, Option, none, some, Option-cases, List, [], ◌∷◌,
  Str, str_eq, str_eq_iff, HashMap, lookup, All, arith,
}
use rust_api_gateway.Config.{ok, AuthPolicy, open_access, api_key, jwt}
use rust_api_gateway.Headers.{Http}
use rust_api_gateway.Auth.{
  Value, Claims, value_as_string, bind, any_eq, claim_matches, satisfies, extract_api_key,
  bearer_token, validate_jwt, authorize,
}

-- The key is one of the list.
abbrev pub IsIn : Str → List Str → Type 0
IsIn s [] = ⊥
IsIn s (k ∷ ks) = (k ≡ s) ⊎ IsIn s ks

any_eq_iff : (s : Str) (ks : List Str) → (any_eq s ks ≡ true) ↔ IsIn s ks
any_eq_iff s [] = (λ e. absurd (ground arith), λ x. absurd x)
any_eq_iff s (k ∷ ks) =
    let rest = any_eq_iff s ks in
    (
      λ e. elim (Bool-cases (str_eq k s)) [
        | inl same ↦ inl ((str_eq_iff k s).0 same)
        | inr other ↦ inr (rest.0 (ground arith))
      ],
      elim [ inl same ↦ ground (arith, str_eq_iff k s) | inr later ↦ ground (arith, rest.1 later) ],
    )

-- The token carries the claim, as text, a number or a truth value, with the text that is wanted.
abbrev pub HasClaim : Claims → Str × Str → Type 0
HasClaim claims p = (v : Value) × (lookup p.0 claims ≡ some v) × (value_as_string v ≡ some p.1)

claim_matches_iff :
    (o : Option Value) (want : Str)
    → (claim_matches (bind o value_as_string) want ≡ true)
      ↔ ((v : Value) × (o ≡ some v) × (value_as_string v ≡ some want))
claim_matches_iff none want = (λ e. absurd (ground arith), λ (v, e, _). absurd (ground arith))
claim_matches_iff (some v) want = elim (Option-cases (value_as_string v)) [
  | inl nothing ↦ (λ e. absurd (ground arith), λ (w, e, f). absurd (ground arith))
  | inr (got, f) ↦ (
    λ e. (v, refl, ground (arith, str_eq_iff got want)),
    λ (w, e, g). ground (arith, str_eq_iff got want),
  )
]

satisfies_iff :
    (required : HashMap Str) (claims : Claims)
    → (satisfies required claims ≡ true) ↔ All (HasClaim claims) required
unfolding satisfies
satisfies_iff [] claims = (λ _. tt, λ _. refl)
satisfies_iff ((k, want) ∷ required) claims =
    let one = claim_matches_iff (lookup k claims) want in
    let rest = satisfies_iff required claims in
    (
      λ e. (one.0 (ground arith), rest.0 (ground arith)),
      λ (c, cs). ground (arith, one.1 c, rest.1 cs),
    )

module _ (h : Http) (decode : Str → Str → Option Claims) where
  -- What a policy asks of the headers.
  abbrev pub Authorized : AuthPolicy → h.HeaderMap → Type 0
  Authorized open_access headers = Unit
  Authorized (api_key keys) headers =
      (k : Str) × (extract_api_key h decode headers ≡ some k) × IsIn k keys
  Authorized (jwt secret required) headers =
      (token : Str) × (claims : Claims) × (bearer_token h decode headers ≡ some token)
      × (decode token secret ≡ some claims)
      × All (HasClaim claims) required

  -- A request is authorized exactly when the policy is open, the key that it presents is one of the
  -- route's, or it bears a token that the decoder accepts under the route's secret and that carries
  -- each required claim with the required value.
  pub authorize_iff :
      (policy : AuthPolicy) (headers : h.HeaderMap)
      → (authorize h decode policy headers ≡ ok tt) ↔ Authorized policy headers
  unfolding authorize validate_jwt
  authorize_iff open_access headers = (λ _. tt, λ _. refl)
  authorize_iff (api_key keys) headers = elim (Option-cases (extract_api_key h decode headers)) [
    | inl nothing ↦ (λ e. absurd (ground arith), λ (k, e, i). absurd (ground arith))
    | inr (k, e) ↦ elim (Bool-cases (any_eq k keys)) [
      | inl known ↦ (λ _. (k, e, (any_eq_iff k keys).0 known), λ _. ground arith)
      | inr unknown ↦
          (λ r. absurd (ground arith), λ (k', e', i). absurd (ground (arith, any_eq_iff k' keys)))
    ]
  ]
  authorize_iff (jwt secret required) headers =
      elim (Option-cases (bearer_token h decode headers)) [
        | inl nothing ↦ (λ e. absurd (ground arith), λ (t, c, e, d, cs). absurd (ground arith))
        | inr (token, e) ↦ elim (Option-cases (decode token secret)) [
          | inl refused ↦ (λ r. absurd (ground arith), λ (t, c, e', d', cs). absurd (ground arith))
          | inr (claims, d) ↦ elim (Bool-cases (satisfies required claims)) [
            | inl met ↦ (
              λ _. (token, claims, e, d, (satisfies_iff required claims).0 met),
              λ _. ground arith,
            )
            | inr unmet ↦ (
              λ r. absurd (ground arith),
              λ (t, c, e', d', cs). absurd (ground (arith, satisfies_iff required c)),
            )
          ]
        ]
      ]
