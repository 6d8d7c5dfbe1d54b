-- ===== src/Headers/Instance.antt =====
-- A header map as a list of lower-case names and values meets the interface.
use rust_api_gateway.Base.{
  ℕ, ◌≡◌, refl, ap₂, true, and-true_iff, Option, none, some, List, [], ◌∷◌, ◌++◌, Str, str_eq,
  str_eq_iff, ascii_lowercase, to_ascii_lowercase, arith, if◌then◌else◌,
}
use rust_api_gateway.Headers.{
  Http, HttpLaws, is_plain_name, is_name_byte, all_bytes, is_visible, first_value, or_else,
}

abbrev Entries : Type 0
Entries = List (Str × Str)

abbrev find : Entries → Str → Option Str
find [] s = none
find ((n, v) ∷ m) s = if str_eq n (to_ascii_lowercase s) then some v else find m s

abbrev drop_name : Entries → Str → Entries
drop_name [] n = []
drop_name ((k, v) ∷ m) n = if str_eq k n then drop_name m n else (k, v) ∷ drop_name m n

abbrev visible_or_none : Str → Option Str
visible_or_none s = if is_visible s then some s else none

abbrev pub listed : Http
listed = record {
  HeaderMap = Entries;
  HeaderName = Str;
  HeaderValue = Str;
  new = [];
  get = find;
  insert = λ m n v. (n, v) ∷ drop_name m n;
  append = λ m n v. m ++ ((n, v) ∷ []);
  remove = drop_name;
  iter = λ m. m;
  name_from_bytes =
      λ s. if is_plain_name (to_ascii_lowercase s) then some (to_ascii_lowercase s) else none;
  name_from_static = λ s. s;
  as_str = λ n. n;
  value_from_str = visible_or_none;
  to_str = visible_or_none;
}

find-drop_name :
    (m : Entries) (n s : Str)
    → find (drop_name m n) s ≡ (if str_eq n (to_ascii_lowercase s) then none else find m s)
find-drop_name [] n s = ground arith
find-drop_name ((k, v) ∷ m) n s = ground (
  arith,
  find-drop_name m n s,
  str_eq_iff k n,
  str_eq_iff k (to_ascii_lowercase s),
  str_eq_iff n (to_ascii_lowercase s),
)

find-append :
    (m : Entries) (n v s : Str)
    → find (m ++ ((n, v) ∷ [])) s
      ≡ (if str_eq n (to_ascii_lowercase s) then or_else (find m s) (some v) else find m s)
find-append [] n v s = refl
find-append ((k, w) ∷ m) n v s = ground (arith, find-append m n v s)

find-insert :
    (m : Entries) (n v s : Str)
    → find ((n, v) ∷ drop_name m n) s
      ≡ (if str_eq n (to_ascii_lowercase s) then some v else find m s)
find-insert m n v s = ground (arith, find-drop_name m n s)

find-first_value : (m : Entries) (s : Str) → find m s ≡ first_value listed (to_ascii_lowercase s) m
find-first_value [] s = refl
find-first_value ((k, v) ∷ m) s = ground (arith, find-first_value m s)

name_byte-lower : (c : ℕ) → is_name_byte c ≡ true → ascii_lowercase c ≡ c
unfolding ascii_lowercase
name_byte-lower c h = ground arith

bytes-lower : (s : Str) → all_bytes is_name_byte s ≡ true → to_ascii_lowercase s ≡ s
bytes-lower [] h = refl
bytes-lower (c ∷ s) h =
    let both = (and-true_iff (is_name_byte c) (all_bytes is_name_byte s)).0 h in
    ap₂ ◌∷◌ (name_byte-lower c both.0) (bytes-lower s both.1)

plain-lower : (s : Str) → is_plain_name s ≡ true → to_ascii_lowercase s ≡ s
plain-lower s h = bytes-lower s ((and-true_iff _ _).0 h).1

from_bytes-plain :
    (s : Str) → is_plain_name s ≡ true → listed.name_from_bytes s ≡ some (listed.name_from_static s)
from_bytes-plain s h = let same = plain-lower s h in rw same (rw h refl)

read_visible : (v s : Str) → visible_or_none v ≡ some s → is_visible s ≡ true
read_visible v s e = ground arith

pub listed-HttpLaws : HttpLaws listed
listed-HttpLaws = record {
  get_new = λ s. refl;
  get_insert = λ m n v s. find-insert m n v s;
  get_append = λ m n v s. find-append m n v s;
  get_remove = λ m n s. find-drop_name m n s;
  get_iter = λ m s. find-first_value m s;
  from_bytes_lower = λ s n e. name_lower s n e;
  from_bytes_plain = from_bytes-plain;
  from_static_plain = λ s h. refl;
  from_str_visible = λ s v. (s, rw v, rw v);
  to_str_visible = λ v s e. read_visible v s e;
}
  where
    name_lower : (s n : Str) → listed.name_from_bytes s ≡ some n → n ≡ to_ascii_lowercase s
    name_lower s n e = ground arith
