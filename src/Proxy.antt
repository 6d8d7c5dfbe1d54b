-- ===== src/Proxy.antt =====
-- The request handler of crates/gateway/src/proxy.rs. A method is its text, a status its number.
pub mod Attempts
pub mod Instants
pub mod Trail
pub mod Retries
pub mod Gauge
pub mod Responses
pub mod Handler
pub mod Instruments
pub mod Gateway
pub mod Served
pub mod Stages
pub mod Wellformed
pub mod Ends
pub mod Requests
pub mod Verdict
pub mod Policy
pub mod Correlation
pub mod Correlated
pub mod Lifetime
pub mod Runs
pub mod Replies
pub mod Kept
pub mod Keys
pub mod Tests
use rust_api_gateway.Base.{
  ℕ, ◌+◌, ◌-◌, min, max, Bool, true, false, not, ◌&&◌, ◌||◌, Option, none, some, List, [], ◌∷◌,
  ◌++◌, Str, str, str_eq, trim, split_first, contains, to_ascii_lowercase, is_empty, if◌then◌else◌,
  u32_mod, leb, ltb,
}
use rust_api_gateway.Config.{RateScope, ip, by_key, by_route}
use rust_api_gateway.Headers.{Http, or_else}
use rust_api_gateway.Auth.{bind, nonempty, without_bearer, any_eq}
use rust_api_gateway.Transform.{get_str}

abbrev pub idempotent_methods : List Str
idempotent_methods =
    str "GET" ∷ str "HEAD" ∷ str "PUT" ∷ str "DELETE" ∷ str "OPTIONS" ∷ str "TRACE" ∷ []

unfoldable pub is_idempotent : Str → Bool
is_idempotent method = any_eq method idempotent_methods

-- `StatusCode::is_server_error`
abbrev pub is_server_error : ℕ → Bool
is_server_error s = leb 500 s && ltb s 600

-- `retries.saturating_add(1).max(1)`
unfoldable pub max_attempts : ℕ → ℕ
max_attempts retries = max (min (retries + 1) (u32_mod - 1)) 1

-- `o.unwrap_or(a)`
abbrev pub unwrap_or {ℓ} : {A : Type ℓ} → Option A → A → A
unwrap_or none a = a
unwrap_or (some b) a = b

-- The directives of a `Cache-Control` that keep a request from the cache, and a response out of it.
abbrev pub bypasses : Str → Bool
bypasses v =
    contains (to_ascii_lowercase v) (str "no-cache")
    || contains (to_ascii_lowercase v) (str "no-store")

abbrev pub forbids_storing : Str → Bool
forbids_storing v =
    let l = to_ascii_lowercase v in
    contains l (str "no-store") || (contains l (str "private") || contains l (str "no-cache"))

abbrev pub scope_text : RateScope → Str → Str → Str
scope_text ip client_ip key = str ":ip:" ++ client_ip
scope_text by_route client_ip key = str ":route"
scope_text by_key client_ip key = str ":key:" ++ key

module _ (h : Http) where
  open h use {HeaderMap, insert, name_from_bytes, value_from_str}

  -- The first address of `X-Forwarded-For` that is not empty, else that of the peer.
  unfoldable pub client_ip : HeaderMap → Str → Str
  client_ip headers peer_ip =
      unwrap_or
        (bind (get_str h headers (str "x-forwarded-for"))
          (λ v. nonempty (trim (split_first b',' v))))
        peer_ip

  -- The key that a request presents to the limiter.
  unfoldable pub presented_key : HeaderMap → Str
  presented_key headers =
      unwrap_or
        (or_else (get_str h headers (str "x-api-key"))
          (bind (get_str h headers (str "authorization")) (λ s. some (trim (without_bearer s)))))
        (str "anon")

  unfoldable pub rate_key : RateScope → Str → Str → HeaderMap → Str
  rate_key scope route client headers = route ++ scope_text scope client (presented_key headers)

  unfoldable pub cache_bypass : HeaderMap → Bool
  cache_bypass headers = elim (get_str h headers (str "cache-control")) [
    | none ↦ false
    | some v ↦ bypasses v
  ]

  unfoldable pub response_cacheable : HeaderMap → Bool
  response_cacheable headers = elim (get_str h headers (str "cache-control")) [
    | none ↦ true
    | some v ↦ not (forbids_storing v)
  ]

  -- A name or a value that is none is not written.
  unfoldable pub set_header : HeaderMap → Str → Str → HeaderMap
  set_header m name value = elim (name_from_bytes name) [
    | none ↦ m
    | some n ↦ elim (value_from_str value) [ none ↦ m | some v ↦ insert m n v ]
  ]
