-- ===== src/Auth.antt =====
-- The authentication of crates/gateway/src/auth.rs, over the header maps of the http crate and the
-- decoder of the jsonwebtoken crate.
pub mod Laws
pub mod Tests
use rust_api_gateway.Base.{
  ℕ, ◌≡◌, Bool, true, false, not, ◌||◌, Option, none, some, List, [], ◌∷◌, Str, str, str_eq,
  HashMap, lookup, strip_prefix, trim, is_empty, if◌then◌else◌,
}
use rust_api_gateway.Config.{Result, ok, err, AuthPolicy, open_access, api_key, jwt}
use rust_api_gateway.Headers.{Http}
use rust_api_gateway.Transform.{get_str}

-- A JSON value as far as the code looks into it. A number is given by its text; null, arrays and
-- objects are one case.
pub data Value : Type 0 where
  text : Str → Value
  number : Str → Value
  bool : Bool → Value
  other : Value

abbrev pub Claims : Type 0
Claims = HashMap Value

unfoldable pub value_as_string : Value → Option Str
value_as_string (text s) = some s
value_as_string (number n) = some n
value_as_string (bool true) = some (str "true")
value_as_string (bool false) = some (str "false")
value_as_string other = none

-- `s.strip_prefix("Bearer ").unwrap_or(s)`
abbrev pub without_bearer : Str → Str
without_bearer s = elim (strip_prefix s (str "Bearer ")) [ none ↦ s | some t ↦ t ]

-- `(!key.is_empty()).then(|| key)`
abbrev pub nonempty : Str → Option Str
nonempty s = if is_empty s then none else some s

abbrev pub bind {ℓ κ} : {A : Type ℓ} {B : Type κ} → Option A → (A → Option B) → Option B
bind none f = none
bind (some a) f = f a

abbrev pub any_eq : Str → List Str → Bool
any_eq s [] = false
any_eq s (k ∷ ks) = str_eq k s || any_eq s ks

abbrev claim_matches : Option Str → Str → Bool
claim_matches none want = false
claim_matches (some got) want = str_eq got want

-- The loop over the required claims.
unfoldable pub satisfies : HashMap Str → Claims → Bool
satisfies [] claims = true
satisfies ((k, want) ∷ required) claims =
    let rest = satisfies required claims in
    if claim_matches (bind (lookup k claims) value_as_string) want then rest else false

-- The decoder checks the signature with HS256 and the secret, and the expiry; it fails otherwise.
module _ (h : Http) (decode : Str → Str → Option Claims) where
  open h use {HeaderMap}

  -- The `Authorization` header, or `X-API-Key` if that is there and not empty.
  unfoldable pub extract_api_key : HeaderMap → Option Str
  extract_api_key headers =
      let from_authorization =
        bind (get_str h headers (str "authorization"))
          (λ auth. nonempty (trim (without_bearer auth))) in
      elim (get_str h headers (str "x-api-key")) [
        | none ↦ from_authorization
        | some v ↦ if is_empty v then from_authorization else some v
      ]

  unfoldable pub bearer_token : HeaderMap → Option Str
  bearer_token headers =
      bind (get_str h headers (str "authorization"))
        (λ auth. bind (strip_prefix auth (str "Bearer ")) (λ t. nonempty (trim t)))

  unfoldable pub validate_jwt : HeaderMap → Str → HashMap Str → Result (Unit {0}) Str
  validate_jwt headers secret required = elim (bearer_token headers) [
    | none ↦ err (str "missing bearer token")
    | some token ↦ elim (decode token secret) [
      | none ↦ err (str "invalid or expired token")
      | some claims ↦
          if satisfies required claims then ok tt else err (str "required claim not satisfied")
    ]
  ]

  unfoldable pub authorize : AuthPolicy → HeaderMap → Result (Unit {0}) Str
  authorize open_access headers = ok tt
  authorize (api_key keys) headers = elim (extract_api_key headers) [
    | none ↦ err (str "missing API key")
    | some presented ↦ if any_eq presented keys then ok tt else err (str "invalid API key")
  ]
  authorize (jwt secret required_claims) headers = validate_jwt headers secret required_claims
