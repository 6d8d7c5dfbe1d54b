-- ===== src/Base/Text.antt =====
-- Rust's `str` as the list of its UTF-8 bytes, and the methods of `str` that the gateway calls.
use Prim.Native.Char.{code}
use Prim.Native.Nat.{ℕ, ◌+◌}
use Prim.Native.String.{String}
use mathlib.Core.Path.{◌≡◌, refl}
use mathlib.Core.Logic.{◌↔◌, ◌≢◌}
use mathlib.Core.Bool.{Bool, true, false, ◌&&◌, ◌||◌}
use mathlib.Core.Option.{Option, none, some}
use mathlib.Core.List.{List, [], ◌∷◌, ◌++◌, map}
use native.Mathlib.Omega.{arith}
use rust_api_gateway.Base.Tests.{leb, ◌==◌, if◌then◌else◌}

abbrev pub Str : Type 0
Str = List ℕ

-- The bytes of an ASCII literal.
abbrev pub str : String → Str
str String.[] = []
str (String.◌∷◌ c s) = code c ∷ str s

unfoldable pub str_eq : Str → Str → Bool
str_eq [] [] = true
str_eq [] (b ∷ t) = false
str_eq (a ∷ s) [] = false
str_eq (a ∷ s) (b ∷ t) = (a == b) && str_eq s t

pub str_eq_refl : (s : Str) → str_eq s s ≡ true
unfolding str_eq
str_eq_refl [] = refl
str_eq_refl (a ∷ s) = ground (arith, str_eq_refl s)

pub eq_of_str_eq : (s t : Str) → str_eq s t ≡ true → s ≡ t
unfolding str_eq
eq_of_str_eq [] [] h = refl
eq_of_str_eq [] (b ∷ t) h = cc
eq_of_str_eq (a ∷ s) [] h = cc
eq_of_str_eq (a ∷ s) (b ∷ t) h = ground (arith, eq_of_str_eq s t)

pub str_eq_iff : (s t : Str) → (str_eq s t ≡ true) ↔ (s ≡ t)
str_eq_iff s t = (eq_of_str_eq s t, λ e. rw e (str_eq_refl t))

pub str_ne_iff : (s t : Str) → (str_eq s t ≡ false) ↔ (s ≢ t)
str_ne_iff s t = (λ h e. ground (arith, str_eq_iff s t), λ h. ground (arith, str_eq_iff s t))

unfoldable pub starts_with : Str → Str → Bool
starts_with s [] = true
starts_with [] (b ∷ p) = false
starts_with (a ∷ s) (b ∷ p) = (a == b) && starts_with s p

-- `s.strip_prefix(p)`
unfoldable pub strip_prefix : Str → Str → Option Str
strip_prefix s [] = some s
strip_prefix [] (b ∷ p) = none
strip_prefix (a ∷ s) (b ∷ p) = let rest = strip_prefix s p in if a == b then rest else none

pub starts_with-append : (p r : Str) → starts_with (p ++ r) p ≡ true
unfolding starts_with
starts_with-append [] r = refl
starts_with-append (a ∷ p) r = ground (arith, starts_with-append p r)

pub strip_prefix-append : (p r : Str) → strip_prefix (p ++ r) p ≡ some r
unfolding strip_prefix
strip_prefix-append [] r = refl
strip_prefix-append (a ∷ p) r = ground (arith, strip_prefix-append p r)

pub eq_of_strip_prefix : (s p r : Str) → strip_prefix s p ≡ some r → s ≡ p ++ r
unfolding strip_prefix
eq_of_strip_prefix s [] r h = cc
eq_of_strip_prefix [] (b ∷ p) r h = cc
eq_of_strip_prefix (a ∷ s) (b ∷ p) r h = ground (arith, eq_of_strip_prefix s p r)

pub starts_with_split : (s p : Str) → starts_with s p ≡ true → (r : Str) × (s ≡ p ++ r)
unfolding starts_with
starts_with_split s [] h = (s, refl)
starts_with_split [] (b ∷ p) h = cc
starts_with_split (a ∷ s) (b ∷ p) h =
    let (r, e) = starts_with_split s p (ground arith) in (r, ground arith)

abbrev trim_cons : ℕ → ℕ → Str → Str
trim_cons c x [] = if x == c then [] else x ∷ []
trim_cons c x (y ∷ ys) = x ∷ y ∷ ys

-- `s.trim_end_matches(c)` drops every `c` at the end.
unfoldable pub trim_end_matches : ℕ → Str → Str
trim_end_matches c [] = []
trim_end_matches c (x ∷ xs) = trim_cons c x (trim_end_matches c xs)

-- The part before the first `c`: `s.split(c).next()`, which is there for every `s`.
unfoldable pub split_first : ℕ → Str → Str
split_first c [] = []
split_first c (x ∷ xs) = if x == c then [] else x ∷ split_first c xs

unfoldable pub ascii_lowercase : ℕ → ℕ
ascii_lowercase c = if leb b'A' c && leb c b'Z' then c + 32 else c

abbrev pub to_ascii_lowercase : Str → Str
to_ascii_lowercase = map ascii_lowercase

abbrev pub eq_ignore_ascii_case : Str → Str → Bool
eq_ignore_ascii_case s t = str_eq (to_ascii_lowercase s) (to_ascii_lowercase t)

-- `s.contains(p)` for a text `p`.
unfoldable pub contains : Str → Str → Bool
contains [] p = starts_with [] p
contains (a ∷ s) p = starts_with (a ∷ s) p || contains s p

abbrev pub is_ascii_space : ℕ → Bool
is_ascii_space c = c == 32 || (leb 9 c && leb c 13)

abbrev trim_start : Str → Str
trim_start [] = []
trim_start (x ∷ xs) = if is_ascii_space x then trim_start xs else x ∷ xs

abbrev trim_end_cons : ℕ → Str → Str
trim_end_cons x [] = if is_ascii_space x then [] else x ∷ []
trim_end_cons x (y ∷ ys) = x ∷ y ∷ ys

abbrev trim_end : Str → Str
trim_end [] = []
trim_end (x ∷ xs) = trim_end_cons x (trim_end xs)

-- `s.trim()` on a text of ASCII bytes.
unfoldable pub trim : Str → Str
trim s = trim_end (trim_start s)

abbrev pub is_empty : Str → Bool
is_empty [] = true
is_empty (x ∷ xs) = false

-- What a test on concrete texts computes with.
unfoldable pub texts : Unit {0}
unfolding str_eq starts_with strip_prefix trim_end_matches split_first ascii_lowercase contains trim
texts = tt
