-- ===== src/Transform.antt =====
-- The header handling of crates/gateway/src/transform.rs, over the header maps of the http crate.
pub mod Forwarding
pub mod Configured
pub mod Tests
use rust_api_gateway.Base.{
  ◌≡◌, Bool, true, false, not, ◌||◌, Option, none, some, List, [], ◌∷◌, ◌++◌, Str, str, HashMap,
  eq_ignore_ascii_case, if◌then◌else◌,
}
use rust_api_gateway.Config.{HeaderTransforms}
use rust_api_gateway.Headers.{Http}

abbrev pub hop_by_hop : List Str
hop_by_hop =
    str "connection"
    ∷ str "keep-alive"
    ∷ str "proxy-authenticate"
    ∷ str "proxy-authorization"
    ∷ str "te"
    ∷ str "trailer"
    ∷ str "transfer-encoding"
    ∷ str "upgrade"
    ∷ str "host"
    ∷ str "content-length"
    ∷ []

unfoldable pub any_ignoring_case : List Str → Str → Bool
any_ignoring_case [] name = false
any_ignoring_case (h ∷ hs) name = eq_ignore_ascii_case name h || any_ignoring_case hs name

unfoldable pub is_hop_by_hop : Str → Bool
is_hop_by_hop name = any_ignoring_case hop_by_hop name

module _ (h : Http) where
  open h use {
    HeaderMap, HeaderName, HeaderValue, get, insert, append, remove, iter, name_from_bytes,
    name_from_static, as_str, value_from_str, to_str,
  }

  -- `headers.get(name).and_then(|v| v.to_str().ok())`
  abbrev pub text_of : Option HeaderValue → Option Str
  text_of none = none
  text_of (some v) = to_str v

  abbrev pub get_str : HeaderMap → Str → Option Str
  get_str m name = text_of (get m name)

  -- The loop that appends the end-to-end headers.
  unfoldable pub copy_end_to_end : HeaderMap → List (HeaderName × HeaderValue) → HeaderMap
  copy_end_to_end out [] = out
  copy_end_to_end out ((name, value) ∷ rest) =
      copy_end_to_end (if is_hop_by_hop (as_str name) then out else append out name value) rest

  -- `set`: a value that is no header value is not written.
  unfoldable pub set : HeaderMap → Str → Str → HeaderMap
  set m name value = elim (value_from_str value) [
    | none ↦ m
    | some v ↦ insert m (name_from_static name) v
  ]

  abbrev pub forwarded_for : Option Str → Str → Str
  forwarded_for (some existing) client_ip = existing ++ (str ", " ++ client_ip)
  forwarded_for none client_ip = client_ip

  unfoldable pub forwarded_request_headers : HeaderMap → Str → Str → Str → HeaderMap
  forwarded_request_headers incoming client_ip host scheme =
      let out = copy_end_to_end h.new (iter incoming) in
      let xff = forwarded_for (get_str incoming (str "x-forwarded-for")) client_ip in
      let out = set out (str "x-forwarded-for") xff in
      let out = set out (str "x-real-ip") client_ip in
      let out = set out (str "x-forwarded-host") host in set out (str "x-forwarded-proto") scheme

  unfoldable pub filtered_response_headers : HeaderMap → HeaderMap
  filtered_response_headers incoming = copy_end_to_end h.new (iter incoming)

  unfoldable pub remove_all : HeaderMap → List Str → HeaderMap
  remove_all m [] = m
  remove_all m (name ∷ names) =
      remove_all (elim (name_from_bytes name) [ none ↦ m | some n ↦ remove m n ]) names

  abbrev pub insert_valid : HeaderMap → Option HeaderName → Option HeaderValue → HeaderMap
  insert_valid m (some n) (some v) = insert m n v
  insert_valid m (some n) none = m
  insert_valid m none v = m

  unfoldable pub add_all : HeaderMap → HashMap Str → HeaderMap
  add_all m [] = m
  add_all m ((name, value) ∷ rest) =
      add_all (insert_valid m (name_from_bytes name) (value_from_str value)) rest

  unfoldable pub apply_transforms : HeaderMap → HeaderTransforms → HeaderMap
  apply_transforms m t = add_all (remove_all m t.remove) t.add
