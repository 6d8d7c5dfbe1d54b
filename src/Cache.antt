-- ===== src/Cache.antt =====
-- The response cache of crates/gateway/src/cache.rs. `get` and `put` hold the mutex throughout and
-- are steps on the cache. The clock readings are arguments, and so is the order in which the hash
-- map iterates over its entries.
pub mod Capacity
pub mod Contents
pub mod Keys
pub mod Tests
use rust_api_gateway.Base.{
  ℕ, ◌+◌, max, ◌≡◌, not, ◌&&◌, arith, instant_end, IsEarly, IsShort, Option, none, some, List, [],
  ◌∷◌, ◌++◌, Str, str, HashMap, Distinct, lookup, insert, remove, contains_key, length,
  if◌then◌else◌, ltb, leb,
}

pub record CachedResponse : Type 0 where
  pub status : ℕ
  pub headers : List (Str × Str)
  pub body : List ℕ
  pub expires_at : ℕ

pub record ResponseCache : Type 0 where
  pub ttl : ℕ
  pub capacity : ℕ
  pub entries : HashMap CachedResponse

unfoldable pub new : ℕ → ℕ → ResponseCache
new ttl capacity = record { ttl = ttl; capacity = max capacity 1; entries = [] }

unfoldable pub key : Str → Str → Str → Str
key method host path_and_query = method ++ (str " " ++ (host ++ (str " " ++ path_and_query)))

unfoldable pub get : ResponseCache → Str → ℕ → ResponseCache × Option CachedResponse
get c k now = elim (lookup k c.entries) [
  | none ↦ (c, none)
  | some entry ↦
      if ltb now entry.expires_at
      then (c, some entry)
      else (record c { entries = remove k c.entries }, none)
]

-- The first key, in the order of iteration, whose entry has expired.
unfoldable pub find_expired : ℕ → HashMap CachedResponse → Option Str
find_expired now [] = none
find_expired now ((k, v) ∷ m) = if leb v.expires_at now then some k else find_expired now m

abbrev pub or_first : Option Str → HashMap CachedResponse → Option Str
or_first (some k) m = some k
or_first none [] = none
or_first none ((k, v) ∷ m) = some k

abbrev pub remove_victim : Option Str → HashMap CachedResponse → HashMap CachedResponse
remove_victim none m = m
remove_victim (some k) m = remove k m

-- The calls that return, which tasks make of a cache.
pub data Call : Type 0 where
  gets : (k : Str) (now : ℕ) → Call
  puts : (k : Str) (status : ℕ) (headers : List (Str × Str)) (body : List ℕ) (now later : ℕ) → Call

module _ (iter : HashMap CachedResponse → HashMap CachedResponse) where
  -- An expired entry, else an arbitrary one.
  unfoldable pub victim : ℕ → HashMap CachedResponse → Option Str
  victim now m = or_first (find_expired now (iter m)) (iter m)

  -- The entries when the new one is written.
  unfoldable pub make_room : ℕ → Str → ℕ → HashMap CachedResponse → HashMap CachedResponse
  make_room capacity k now m =
      if leb capacity (length m) && not (contains_key k m)
      then remove_victim (victim now m) m
      else m

  -- The clock is read at `now` to find a victim, and at `later` for the time to live.
  -- It is what `put` leaves, where it returns.
  unfoldable pub after_put :
      ResponseCache → Str → ℕ → List (Str × Str) → List ℕ → (now later : ℕ) → ResponseCache
  after_put c k status headers body now later = record c {
    entries =
        insert k
          (record { status = status; headers = headers; body = body; expires_at = later + c.ttl })
          (make_room c.capacity k now c.entries);
  }

  -- The expiry may be too late for an `Instant`: a panic.
  unfoldable pub put :
      ResponseCache → Str → ℕ → List (Str × Str) → List ℕ → (now later : ℕ) → Option ResponseCache
  put c k status headers body now later =
      if leb instant_end (later + c.ttl)
      then none
      else some (after_put c k status headers body now later)

  pub put-after_put :
      (c c' : ResponseCache) (k : Str) (status : ℕ) (headers : List (Str × Str)) (body : List ℕ)
      (now later : ℕ)
      → put c k status headers body now later ≡ some c'
      → c' ≡ after_put c k status headers body now later
  unfolding put
  put-after_put c c' k status headers body now later e = ground (arith, e)

  pub put-returns :
      (c : ResponseCache) (k : Str) (status : ℕ) (headers : List (Str × Str)) (body : List ℕ)
      (now later : ℕ)
      → IsEarly later
      → IsShort c.ttl
      → put c k status headers body now later ≡ some (after_put c k status headers body now later)
  unfolding put
  put-returns c k status headers body now later early short = ground (arith, early, short)

  unfoldable pub step : ResponseCache → Call → ResponseCache
  step c (gets k now) = (get c k now).0
  step c (puts k status headers body now later) = after_put c k status headers body now later

  unfoldable pub run : ResponseCache → List Call → ResponseCache
  run c [] = c
  run c (e ∷ es) = run (step c e) es

-- An iteration goes over the entries of the map, each once, in any order.
pub record Iterates (iter : HashMap CachedResponse → HashMap CachedResponse) : Type 0 where
  pub same_keys :
      (k : Str) (m : HashMap CachedResponse) → contains_key k (iter m) ≡ contains_key k m
  pub same_entries : (k : Str) (m : HashMap CachedResponse) → lookup k (iter m) ≡ lookup k m
  pub same_length : (m : HashMap CachedResponse) → length (iter m) ≡ length m
  pub same_distinct : (m : HashMap CachedResponse) → Distinct m → Distinct (iter m)
