-- ===== src/Headers.antt =====
-- The interface of the header maps of the http crate that crates/gateway uses, with the behaviour
-- that the crate documents. A name is looked up by its text, whatever its case.
pub mod Instance
use rust_api_gateway.Base.{
  ℕ, ◌≡◌, Bool, true, false, ◌&&◌, ◌||◌, not, Option, none, some, List, [], ◌∷◌, ◌++◌, Str, str_eq,
  to_ascii_lowercase, is_empty, if◌then◌else◌, leb, ltb, ◌==◌,
}

pub record Http : Type 1 where
  pub HeaderMap : Type 0
  pub HeaderName : Type 0
  pub HeaderValue : Type 0
  pub new : HeaderMap
  pub get : HeaderMap → Str → Option HeaderValue
  pub insert : HeaderMap → HeaderName → HeaderValue → HeaderMap
  pub append : HeaderMap → HeaderName → HeaderValue → HeaderMap
  pub remove : HeaderMap → HeaderName → HeaderMap
  pub iter : HeaderMap → List (HeaderName × HeaderValue)
  pub name_from_bytes : Str → Option HeaderName
  pub name_from_static : Str → HeaderName
  pub as_str : HeaderName → Str
  pub value_from_str : Str → Option HeaderValue
  pub to_str : HeaderValue → Option Str

-- A lower-case letter, a digit or a dash.
abbrev pub is_name_byte : ℕ → Bool
is_name_byte c = (leb b'a' c && leb c b'z') || ((leb b'0' c && leb c b'9') || (c == b'-'))

abbrev pub all_bytes : (ℕ → Bool) → Str → Bool
all_bytes p [] = true
all_bytes p (c ∷ s) = p c && all_bytes p s

-- The texts that `from_static` takes, among others.
abbrev pub is_plain_name : Str → Bool
is_plain_name s = not (is_empty s) && all_bytes is_name_byte s

-- A visible ASCII character, a space or a tab.
abbrev pub is_visible : Str → Bool
is_visible = all_bytes (λ c. (leb 32 c && ltb c 127) || (c == 9))

-- `none` unless there is a value, then the second.
abbrev pub or_else {ℓ} : {A : Type ℓ} → Option A → Option A → Option A
or_else (some a) b = some a
or_else none b = b

-- The first value of a name, given in lower case, among name and value pairs.
abbrev pub first_value :
    (h : Http) → Str → List (h.HeaderName × h.HeaderValue) → Option h.HeaderValue
first_value h s [] = none
first_value h s ((n, v) ∷ l) = if str_eq (h.as_str n) s then some v else first_value h s l

pub record HttpLaws (h : Http) : Type 0 where
  pub get_new : (s : Str) → h.get h.new s ≡ none
  pub get_insert :
      (m : h.HeaderMap) (n : h.HeaderName) (v : h.HeaderValue) (s : Str)
      → h.get (h.insert m n v) s
        ≡ (if str_eq (h.as_str n) (to_ascii_lowercase s) then some v else h.get m s)
  pub get_append :
      (m : h.HeaderMap) (n : h.HeaderName) (v : h.HeaderValue) (s : Str)
      → h.get (h.append m n v) s ≡ (
          if str_eq (h.as_str n) (to_ascii_lowercase s)
          then or_else (h.get m s) (some v)
          else h.get m s)
  pub get_remove :
      (m : h.HeaderMap) (n : h.HeaderName) (s : Str)
      → h.get (h.remove m n) s
        ≡ (if str_eq (h.as_str n) (to_ascii_lowercase s) then none else h.get m s)
  pub get_iter :
      (m : h.HeaderMap) (s : Str) → h.get m s ≡ first_value h (to_ascii_lowercase s) (h.iter m)
  pub from_bytes_lower :
      (s : Str) (n : h.HeaderName)
      → h.name_from_bytes s ≡ some n
      → h.as_str n ≡ to_ascii_lowercase s
  pub from_bytes_plain :
      (s : Str) → is_plain_name s ≡ true → h.name_from_bytes s ≡ some (h.name_from_static s)
  pub from_static_plain : (s : Str) → is_plain_name s ≡ true → h.as_str (h.name_from_static s) ≡ s
  pub from_str_visible :
      (s : Str)
      → is_visible s ≡ true
      → (v : h.HeaderValue) × (h.value_from_str s ≡ some v) × (h.to_str v ≡ some s)
  pub to_str_visible : (v : h.HeaderValue) (s : Str) → h.to_str v ≡ some s → is_visible s ≡ true
