-- ===== src/Base/Maps.antt =====
-- `HashMap<String, V>` as the list of its entries. The order of the list is the map's iteration
-- order, which Rust leaves open: what holds of every list holds of every order.
use Prim.Native.Nat.{suc, ◌≤◌}
use mathlib.Core.Path.{◌≡◌, refl}
use mathlib.Core.Logic.{◌≢◌}
use mathlib.Core.Bool.{Bool, true, false, ◌||◌}
use mathlib.Core.Option.{Option, none, some}
use mathlib.Core.List.{List, [], ◌∷◌}
use native.Mathlib.Omega.{arith}
use rust_api_gateway.Base.Tests.{if◌then◌else◌}
use rust_api_gateway.Base.Lists.{length}
use rust_api_gateway.Base.Text.{Str, str_eq, str_eq_iff, str_eq_refl}

abbrev pub HashMap {ℓ} : Type ℓ → Type ℓ
HashMap V = List (Str × V)

module _ {ℓ} {V : Type ℓ} where
  unfoldable pub lookup : Str → HashMap V → Option V
  lookup k [] = none
  lookup k ((j, v) ∷ m) = if str_eq j k then some v else lookup k m

  -- The old value of the key is replaced.
  unfoldable pub insert : Str → V → HashMap V → HashMap V
  insert k v [] = (k, v) ∷ []
  insert k v ((j, w) ∷ m) = if str_eq j k then (j, v) ∷ m else (j, w) ∷ insert k v m

  unfoldable pub remove : Str → HashMap V → HashMap V
  remove k [] = []
  remove k ((j, w) ∷ m) = if str_eq j k then m else (j, w) ∷ remove k m

  unfoldable pub contains_key : Str → HashMap V → Bool
  contains_key k [] = false
  contains_key k ((j, w) ∷ m) = str_eq j k || contains_key k m

  -- No key stands twice.
  abbrev pub Distinct : HashMap V → Type ℓ
  Distinct [] = Unit
  Distinct ((j, w) ∷ m) = (contains_key j m ≡ false) × Distinct m

  pub lookup-insert :
      (k j : Str) (v : V) (m : HashMap V)
      → lookup j (insert k v m) ≡ (if str_eq k j then some v else lookup j m)
  unfolding lookup insert
  lookup-insert k j v [] = refl
  lookup-insert k j v ((i, w) ∷ m) =
      ground (arith, str_eq_iff k j, str_eq_iff i k, str_eq_iff i j, lookup-insert k j v m)

  pub insert-lookup : (k : Str) (v : V) (m : HashMap V) → lookup k m ≡ some v → insert k v m ≡ m
  unfolding lookup insert
  insert-lookup k v [] e = absurd (ground arith)
  insert-lookup k v ((j, w) ∷ m) e = ground (arith, str_eq_iff j k, insert-lookup k v m)

  pub insert-insert : (k : Str) (v w : V) (m : HashMap V) → insert k w (insert k v m) ≡ insert k w m
  unfolding insert
  insert-insert k v w [] = ground (arith, str_eq_refl k)
  insert-insert k v w ((j, u) ∷ m) = ground (arith, insert-insert k v w m)

  pub contains_key-insert :
      (k j : Str) (v : V) (m : HashMap V)
      → contains_key j (insert k v m) ≡ (str_eq k j || contains_key j m)
  unfolding contains_key insert
  contains_key-insert k j v [] = refl
  contains_key-insert k j v ((i, w) ∷ m) =
      ground (arith, str_eq_iff k j, str_eq_iff i k, str_eq_iff i j, contains_key-insert k j v m)

  pub lookup-absent : (k : Str) (m : HashMap V) → contains_key k m ≡ false → lookup k m ≡ none
  unfolding lookup contains_key
  lookup-absent k [] h = refl
  lookup-absent k ((j, w) ∷ m) h = ground (arith, lookup-absent k m)

  pub lookup-remove_ne : (k j : Str) (m : HashMap V) → k ≢ j → lookup j (remove k m) ≡ lookup j m
  unfolding lookup remove
  lookup-remove_ne k j [] h = refl
  lookup-remove_ne k j ((i, w) ∷ m) h =
      ground (arith, str_eq_iff i k, str_eq_iff i j, lookup-remove_ne k j m h)

  pub contains_key-remove_absent :
      (k j : Str) (m : HashMap V) → contains_key j m ≡ false → contains_key j (remove k m) ≡ false
  unfolding contains_key remove
  contains_key-remove_absent k j [] h = refl
  contains_key-remove_absent k j ((i, w) ∷ m) h = ground (arith, contains_key-remove_absent k j m)

  pub lookup-remove_self : (k : Str) (m : HashMap V) → Distinct m → lookup k (remove k m) ≡ none
  unfolding lookup remove
  lookup-remove_self k [] d = refl
  lookup-remove_self k ((i, w) ∷ m) d =
      ground (arith, str_eq_iff i k, lookup-absent i m d.0, lookup-remove_self k m d.1)

  pub insert-Distinct : (k : Str) (v : V) (m : HashMap V) → Distinct m → Distinct (insert k v m)
  unfolding insert contains_key
  insert-Distinct k v [] d = (refl, tt)
  insert-Distinct k v ((i, w) ∷ m) d = ground (
    arith,
    str_eq_iff k i,
    str_eq_iff i k,
    contains_key-insert k i v m,
    insert-Distinct k v m d.1,
  )

  pub remove-Distinct : (k : Str) (m : HashMap V) → Distinct m → Distinct (remove k m)
  unfolding remove
  remove-Distinct k [] d = tt
  remove-Distinct k ((i, w) ∷ m) d =
      ground (arith, contains_key-remove_absent k i m d.0, remove-Distinct k m d.1)

  pub length-insert_absent :
      (k : Str) (v : V) (m : HashMap V)
      → contains_key k m ≡ false
      → length (insert k v m) ≡ suc (length m)
  unfolding insert contains_key
  length-insert_absent k v [] h = refl
  length-insert_absent k v ((i, w) ∷ m) h = ground (arith, length-insert_absent k v m)

  pub length-insert_present :
      (k : Str) (v : V) (m : HashMap V) → contains_key k m ≡ true → length (insert k v m) ≡ length m
  unfolding insert contains_key
  length-insert_present k v [] h = cc
  length-insert_present k v ((i, w) ∷ m) h = ground (arith, length-insert_present k v m)

  pub length-remove_present :
      (k : Str) (m : HashMap V) → contains_key k m ≡ true → suc (length (remove k m)) ≡ length m
  unfolding remove contains_key
  length-remove_present k [] h = cc
  length-remove_present k ((i, w) ∷ m) h = ground (arith, length-remove_present k m)

  pub length-remove_le : (k : Str) (m : HashMap V) → length (remove k m) ≤ length m
  unfolding remove
  length-remove_le k [] = omega arith
  length-remove_le k ((i, w) ∷ m) = ground (arith, length-remove_le k m)

-- What a test on concrete maps computes with.
unfoldable pub maps : Unit {0}
unfolding lookup insert remove contains_key str_eq
maps = tt
