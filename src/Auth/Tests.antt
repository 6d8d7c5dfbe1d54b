-- ===== src/Auth/Tests.antt =====
-- Tests of the authentication, after those of the source.
use rust_api_gateway.Base.{
  ◌≡◌, refl, ◌↔◌, Option, none, some, List, [], ◌∷◌, Str, str, str_eq, ◌&&◌, maps, texts,
  if◌then◌else◌,
}
use rust_api_gateway.Config.{ok, err, AuthPolicy, open_access, api_key, jwt}
use rust_api_gateway.Headers.Instance.{listed}
use rust_api_gateway.Auth.{
  text, number, Claims, value_as_string, satisfies, extract_api_key, bearer_token, validate_jwt,
  authorize,
}
use rust_api_gateway.Auth.Laws.{Authorized, authorize_iff}

runs : Unit {0}
unfolding value_as_string satisfies extract_api_key bearer_token validate_jwt authorize maps texts
runs = tt

abbrev claims : Claims
claims =
    (str "sub", text (str "user-1"))
    ∷ (str "role", text (str "admin"))
    ∷ (str "level", number (str "7"))
    ∷ []

-- One token, signed with one secret.
abbrev decode : Str → Str → Option Claims
decode token secret =
    if str_eq token (str "token") && str_eq secret (str "topsecret") then some claims else none

abbrev keyed : AuthPolicy
keyed = api_key (str "good" ∷ [])

abbrev admins : AuthPolicy
admins = jwt (str "topsecret") ((str "role", str "admin") ∷ (str "level", str "7") ∷ [])

abbrev with_header : Str → Str → List (Str × Str)
with_header name value = (name, value) ∷ []

api_key_accepts : authorize listed decode keyed (with_header (str "x-api-key") (str "good")) ≡ ok tt
unfolding runs
api_key_accepts = refl

api_key_rejects :
    authorize listed decode keyed (with_header (str "x-api-key") (str "bad"))
    ≡ err (str "invalid API key")
unfolding runs
api_key_rejects = refl

api_key_missing : authorize listed decode keyed [] ≡ err (str "missing API key")
unfolding runs
api_key_missing = refl

api_key_as_bearer :
    authorize listed decode keyed (with_header (str "authorization") (str "Bearer good")) ≡ ok tt
unfolding runs
api_key_as_bearer = refl

none_policy_allows_all : authorize listed decode open_access [] ≡ ok tt
unfolding runs
none_policy_allows_all = refl

jwt_valid_token_is_accepted :
    authorize listed decode admins (with_header (str "authorization") (str "Bearer token")) ≡ ok tt
unfolding runs
jwt_valid_token_is_accepted = refl

jwt_wrong_secret_is_rejected :
    authorize listed decode
      (jwt (str "other") [])
      (with_header (str "authorization") (str "Bearer token"))
    ≡ err (str "invalid or expired token")
unfolding runs
jwt_wrong_secret_is_rejected = refl

jwt_missing_required_claim_is_rejected :
    authorize listed decode
      (jwt (str "topsecret") ((str "role", str "user") ∷ []))
      (with_header (str "authorization") (str "Bearer token"))
    ≡ err (str "required claim not satisfied")
unfolding runs
jwt_missing_required_claim_is_rejected = refl

authorize_iff_example :
    (authorize listed decode keyed (with_header (str "x-api-key") (str "good")) ≡ ok tt)
    ↔ Authorized listed decode keyed (with_header (str "x-api-key") (str "good"))
authorize_iff_example =
    authorize_iff listed decode keyed (with_header (str "x-api-key") (str "good"))
