-- ===== src/Cache/Contents.antt =====
-- What the cache answers.
use rust_api_gateway.Base.{
  ℕ, ◌+◌, ◌≤◌, ◌<◌, ◌≡◌, ◌≢◌, refl, sym, ap, ◌∙◌, ◌⊎◌, inl, inr, true, false, Bool-cases, Option,
  none, some, Option-cases, List, [], ◌∷◌, Str, HashMap, Distinct, lookup, contains_key, length,
  arith, lookup-insert, lookup-remove_ne, lookup-remove_self, lookup-absent, leb, ltb, str_eq,
  str_eq_iff, str_ne_iff, str_eq_refl, if◌then◌else◌,
}
use rust_api_gateway.Cache.{
  CachedResponse, ResponseCache, get, find_expired, victim, make_room, after_put, put,
  put-after_put, Iterates, remove_victim,
}
use rust_api_gateway.Cache.Capacity.{IsBounded}

-- The entry that a lookup may return at a time: one that has not expired.
abbrev pub live_at : ℕ → Option CachedResponse → Option CachedResponse
live_at now none = none
live_at now (some e) = if ltb now e.expires_at then some e else none

-- `get` answers with the entry of the key if it has not expired, drops it if it has, and leaves
-- the entries of other keys alone.
pub get_lem :
    (c : ResponseCache) (k j : Str) (now : ℕ)
    → Distinct c.entries
    → ((get c k now).1 ≡ live_at now (lookup k c.entries))
      × (lookup j (get c k now).0.entries
          ≡ (if str_eq k j then live_at now (lookup k c.entries) else lookup j c.entries))
unfolding get
get_lem c k j now d = elim (Option-cases (lookup k c.entries)) [
  | inl missing ↦ (ground arith, ground (arith, str_eq_iff k j))
  | inr (e, found) ↦ elim (Bool-cases (ltb now e.expires_at)) [
    | inl live ↦ (ground arith, ground (arith, str_eq_iff k j))
    | inr gone ↦ (
      ground arith,
      ground (
        arith,
        lookup-remove_self k c.entries d,
        lookup-remove_ne k j c.entries,
        str_eq_iff k j,
        str_ne_iff k j,
      ),
    )
  ]
]

module _ (iter : HashMap CachedResponse → HashMap CachedResponse) where
  get-after_put :
      (c : ResponseCache) (k : Str) (status : ℕ) (headers : List (Str × Str)) (body : List ℕ)
      (now later at : ℕ)
      → (get (after_put iter c k status headers body now later) k at).1 ≡ (
          if ltb at (later + c.ttl)
          then some (record {
            status = status;
            headers = headers;
            body = body;
            expires_at = later + c.ttl;
          })
          else none)
  unfolding get after_put
  get-after_put c k status headers body now later at =
      let room = make_room iter c.capacity k now c.entries in
      let entry : CachedResponse = record {
        status = status;
        headers = headers;
        body = body;
        expires_at = later + c.ttl;
      } in
      ground (arith, lookup-insert k k entry room, str_eq_refl k)

  -- What a put that returns has stored is answered until its time to live has passed, and not from
  -- then on, whatever was evicted for it.
  pub get-put :
      (c c' : ResponseCache) (k : Str) (status : ℕ) (headers : List (Str × Str)) (body : List ℕ)
      (now later at : ℕ)
      → put iter c k status headers body now later ≡ some c'
      → (get c' k at).1 ≡ (
          if ltb at (later + c.ttl)
          then some (record {
            status = status;
            headers = headers;
            body = body;
            expires_at = later + c.ttl;
          })
          else none)
  get-put c c' k status headers body now later at e =
      rw (put-after_put iter c c' k status headers body now later e)
        (get-after_put c k status headers body now later at)

remove_victim-spares :
    (o : Option Str) (j : Str) (m : HashMap CachedResponse)
    → o ≢ some j
    → lookup j (remove_victim o m) ≡ lookup j m
remove_victim-spares none j m h = refl
remove_victim-spares (some k) j m h = lookup-remove_ne k j m (λ e. h (ap some e))

find_expired-some :
    (now : ℕ) (m : HashMap CachedResponse) (x : Str) (v : CachedResponse)
    → lookup x m ≡ some v
    → v.expires_at ≤ now
    → (k : Str) × (find_expired now m ≡ some k)
unfolding lookup find_expired
find_expired-some now [] x v e h = absurd (ground arith)
find_expired-some now ((j, w) ∷ m) x v e h = elim (Bool-cases (leb w.expires_at now)) [
  | inl gone ↦ (j, ground arith)
  | inr live ↦ let (k, found) = find_expired-some now m x v (ground arith) h in (k, ground arith)
]

-- The victim that the scan finds has expired.
find_expired-expired :
    (now : ℕ) (m : HashMap CachedResponse) (k : Str)
    → Distinct m
    → find_expired now m ≡ some k
    → (v : CachedResponse) × (lookup k m ≡ some v) × (v.expires_at ≤ now)
unfolding lookup find_expired
find_expired-expired now [] k d e = absurd (ground arith)
find_expired-expired now ((j, w) ∷ m) k d e = elim (Bool-cases (leb w.expires_at now)) [
  | inl gone ↦ (w, ground (arith, str_eq_iff j k), ground arith)
  | inr live ↦
      let (v, found, h) = find_expired-expired now m k d.1 (ground arith) in
      let apart : str_eq j k ≡ false =
        (str_ne_iff j k).1 (λ s. absurd (ground (arith, lookup-absent j m d.0, s))) in
      (v, ground arith, h)
]

module _ (iter : HashMap CachedResponse → HashMap CachedResponse) (order : Iterates iter) where
  -- With an expired entry in the cache, a live one is no victim.
  victim-ne_live :
      (now : ℕ) (m : HashMap CachedResponse) (x j : Str) (v e : CachedResponse)
      → Distinct m
      → lookup x m ≡ some v
      → v.expires_at ≤ now
      → lookup j m ≡ some e
      → now < e.expires_at
      → victim iter now m ≢ some j
  unfolding victim
  victim-ne_live now m x j v e d at gone at' live bad =
      let (k, found) = find_expired-some now (iter m) x v (order.same_entries x m ∙ at) gone in
      let same : k ≡ j = ground arith in
      let (w, there, h) = find_expired-expired now (iter m) k (order.same_distinct m d) found in
      let mine : some w ≡ some e = sym there ∙ order.same_entries k m ∙ rw same at' in
      absurd (ground arith)

  -- The cache has room for the key, or holds an entry that has expired.
  abbrev pub Spares : ResponseCache → Str → ℕ → Type 0
  Spares c k now =
      (length c.entries < c.capacity)
      ⊎ ((contains_key k c.entries ≡ true)
          ⊎ ((x : Str) × (v : CachedResponse) × (lookup x c.entries ≡ some v)
              × (v.expires_at ≤ now)))

  make_room-Spares :
      (c : ResponseCache) (k j : Str) (now : ℕ) (e : CachedResponse)
      → IsBounded c
      → Spares c k now
      → lookup j c.entries ≡ some e
      → now < e.expires_at
      → lookup j (make_room iter c.capacity k now c.entries) ≡ some e
  unfolding make_room
  make_room-Spares c k j now e b (inl roomy) at live = ground arith
  make_room-Spares c k j now e b (inr (inl present)) at live = ground arith
  make_room-Spares c k j now e b (inr (inr (x, v, there, gone))) at live = ground (
    arith,
    remove_victim-spares (victim iter now c.entries) j c.entries
        (victim-ne_live now c.entries x j v e b.distinct there gone at live),
  )

  lookup-after_put :
      (c : ResponseCache) (k j : Str) (status : ℕ) (headers : List (Str × Str)) (body : List ℕ)
      (now later : ℕ) (e : CachedResponse)
      → IsBounded c
      → k ≢ j
      → Spares c k now
      → lookup j c.entries ≡ some e
      → now < e.expires_at
      → lookup j (after_put iter c k status headers body now later).entries ≡ some e
  unfolding after_put
  lookup-after_put c k j status headers body now later e b ne s at live =
      let room = make_room iter c.capacity k now c.entries in
      let entry : CachedResponse = record {
        status = status;
        headers = headers;
        body = body;
        expires_at = later + c.ttl;
      } in
      ground (
        arith,
        lookup-insert k j entry room,
        str_ne_iff k j,
        make_room-Spares c k j now e b s at live,
      )

  -- Where there is room for a key, the key is there already, or some entry has expired, a `put` of
  -- it that returns loses no live entry of another key.
  pub lookup-put :
      (c c' : ResponseCache) (k j : Str) (status : ℕ) (headers : List (Str × Str)) (body : List ℕ)
      (now later : ℕ) (e : CachedResponse)
      → IsBounded c
      → k ≢ j
      → Spares c k now
      → lookup j c.entries ≡ some e
      → now < e.expires_at
      → put iter c k status headers body now later ≡ some c'
      → lookup j c'.entries ≡ some e
  lookup-put c c' k j status headers body now later e b ne s at live runs =
      rw (put-after_put iter c c' k status headers body now later runs)
        (lookup-after_put c k j status headers body now later e b ne s at live)
