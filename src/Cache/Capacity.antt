-- ===== src/Cache/Capacity.antt =====
-- The cache never exceeds its capacity.
use rust_api_gateway.Base.{
  ℕ, ◌+◌, ◌≤◌, ◌<◌, ◌≡◌, refl, sym, ◌∙◌, ◌⊎◌, inl, inr, true, false, Bool-cases, Option, none, some,
  Option-cases, List, [], ◌∷◌, Str, HashMap, Distinct, lookup, contains_key, length, arith,
  length-insert_absent, length-insert_present, length-remove_present, length-remove_le,
  insert-Distinct, remove-Distinct, contains_key-remove_absent, leb, ltb, str_eq_iff,
}
use rust_api_gateway.Cache.{
  or_first, remove_victim, CachedResponse, ResponseCache, new, get, find_expired, victim, make_room,
  after_put, Call, gets, puts, step, run, Iterates,
}

-- The first key of a list with an entry is one of its keys.
find_expired-contains :
    (now : ℕ) (m : HashMap CachedResponse) (k : Str)
    → find_expired now m ≡ some k
    → contains_key k m ≡ true
unfolding find_expired contains_key
find_expired-contains now [] k e = absurd (ground arith)
find_expired-contains now ((j, v) ∷ m) k e =
    ground (arith, find_expired-contains now m k, str_eq_iff j k)

or_first-contains :
    (o : Option Str) (m : HashMap CachedResponse)
    → ((k : Str) → o ≡ some k → contains_key k m ≡ true)
    → 0 < length m
    → (k : Str) × (or_first o m ≡ some k) × (contains_key k m ≡ true)
unfolding contains_key
or_first-contains (some k) m f h = (k, refl, f k refl)
or_first-contains none [] f h = absurd (omega arith)
or_first-contains none ((j, v) ∷ m) f h = (j, refl, ground (arith, str_eq_iff j j))

-- At most as many entries as the capacity allows, each key once.
pub record IsBounded (c : ResponseCache) : Type 0 where
  pub positive : 1 ≤ c.capacity
  pub fits : length c.entries ≤ c.capacity
  pub distinct : Distinct c.entries

pub new-IsBounded : (ttl capacity : ℕ) → IsBounded (new ttl capacity)
unfolding new
new-IsBounded ttl capacity = record { positive = omega arith; fits = omega arith; distinct = tt }

pub get-IsBounded :
    (c : ResponseCache) (k : Str) (now : ℕ) → IsBounded c → IsBounded (get c k now).0
unfolding get
get-IsBounded c k now b = elim (Option-cases (lookup k c.entries)) [
  | inl missing ↦ rw (missing, get) b
  | inr (entry, found) ↦ elim (Bool-cases (ltb now entry.expires_at)) [
    | inl live ↦ rw (found, get, live) b
    | inr gone ↦
        rw (found, get, gone)
          (record {
            positive = b.positive;
            fits = omega (arith, b.fits, length-remove_le k c.entries);
            distinct = remove-Distinct k c.entries b.distinct;
          })
  ]
]

module _ (iter : HashMap CachedResponse → HashMap CachedResponse) (order : Iterates iter) where
  -- A full map has a victim, which is one of its keys.
  victim-contains :
      (now : ℕ) (m : HashMap CachedResponse)
      → 0 < length m
      → (k : Str) × (victim iter now m ≡ some k) × (contains_key k m ≡ true)
  unfolding victim
  victim-contains now m h =
      let (k, e, c) =
        or_first-contains (find_expired now (iter m)) (iter m) (find_expired-contains now (iter m))
          (omega (arith, order.same_length m)) in
      (k, e, sym (order.same_keys k m) ∙ c)

  remove_victim-Distinct :
      (o : Option Str) (m : HashMap CachedResponse) → Distinct m → Distinct (remove_victim o m)
  remove_victim-Distinct none m d = d
  remove_victim-Distinct (some k) m d = remove-Distinct k m d

  remove_victim-absent :
      (o : Option Str) (k : Str) (m : HashMap CachedResponse)
      → contains_key k m ≡ false
      → contains_key k (remove_victim o m) ≡ false
  remove_victim-absent none k m h = h
  remove_victim-absent (some j) k m h = contains_key-remove_absent j k m h

  -- There is room for the key: it is there already, or the entries are fewer than the capacity.
  make_room-fits :
      (capacity : ℕ) (k : Str) (now : ℕ) (m : HashMap CachedResponse)
      → 1 ≤ capacity
      → length m ≤ capacity
      → ((contains_key k (make_room iter capacity k now m) ≡ true)
          × (length (make_room iter capacity k now m) ≤ capacity))
        ⊎ ((contains_key k (make_room iter capacity k now m) ≡ false)
            × (length (make_room iter capacity k now m) < capacity))
  unfolding make_room
  make_room-fits capacity k now m p h = elim (Bool-cases (contains_key k m)) [
    | inl present ↦ inl (ground (arith, present), ground (arith, present))
    | inr absent ↦ elim (Bool-cases (leb capacity (length m))) [
      | inr roomy ↦ inr (ground (arith, absent), ground (arith, absent))
      | inl full ↦
          let (j, e, c) = victim-contains now m (ground arith) in
          let gone = remove_victim-absent (victim iter now m) k m absent in
          let shorter = length-remove_present j m c in
          inr (ground (arith, absent, gone), ground (arith, absent, e, shorter))
    ]
  ]

  make_room-Distinct :
      (capacity : ℕ) (k : Str) (now : ℕ) (m : HashMap CachedResponse)
      → Distinct m
      → Distinct (make_room iter capacity k now m)
  unfolding make_room
  make_room-Distinct capacity k now m d =
      ground (arith, remove_victim-Distinct (victim iter now m) m d)

  pub after_put-IsBounded :
      (c : ResponseCache) (k : Str) (status : ℕ) (headers : List (Str × Str)) (body : List ℕ)
      (now later : ℕ)
      → IsBounded c
      → IsBounded (after_put iter c k status headers body now later)
  unfolding after_put
  after_put-IsBounded c k status headers body now later b =
      let room = make_room iter c.capacity k now c.entries in
      let entry : CachedResponse = record {
        status = status;
        headers = headers;
        body = body;
        expires_at = later + c.ttl;
      } in
      record {
        positive = b.positive;
        fits = elim (make_room-fits c.capacity k now c.entries b.positive b.fits) [
          | inl (present, le) ↦ omega (arith, length-insert_present k entry room present, le)
          | inr (absent, lt) ↦ omega (arith, length-insert_absent k entry room absent, lt)
        ];
        distinct =
            insert-Distinct k entry room (make_room-Distinct c.capacity k now c.entries b.distinct);
      }

  run-IsBounded : (c : ResponseCache) (es : List Call) → IsBounded c → IsBounded (run iter c es)
  unfolding run step
  run-IsBounded c [] b = b
  run-IsBounded c (gets k now ∷ es) b = run-IsBounded (get c k now).0 es (get-IsBounded c k now b)
  run-IsBounded c (puts k st hs body now later ∷ es) b =
      run-IsBounded (after_put iter c k st hs body now later) es
        (after_put-IsBounded c k st hs body now later b)

-- After any calls that return a new cache holds at most as many entries as its capacity (at least 1), and no
-- key twice, in whatever order the map is iterated.
pub run-new-IsBounded :
    (iter : HashMap CachedResponse → HashMap CachedResponse) (ttl capacity : ℕ) (es : List Call)
    → Iterates iter
    → IsBounded (run iter (new ttl capacity) es)
run-new-IsBounded iter ttl capacity es order =
    run-IsBounded iter order (new ttl capacity) es (new-IsBounded ttl capacity)
