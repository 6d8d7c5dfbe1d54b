-- ===== src/Cache/Tests.antt =====
-- Tests of the response cache, after those of the source.
use rust_api_gateway.Base.{
  ℕ, ◌+◌, ◌≡◌, refl, none, some, List, [], ◌∷◌, Str, str, str_ne_iff, HashMap, lookup, arith,
  from_secs, maps, texts, inl, length, if◌then◌else◌, ltb,
}
use rust_api_gateway.Cache.{
  CachedResponse, ResponseCache, new, key, get, find_expired, victim, make_room, put, after_put,
  Call, puts, step, run, Iterates,
}
use rust_api_gateway.Cache.Capacity.{IsBounded, run-new-IsBounded}
use rust_api_gateway.Cache.Contents.{get-put, lookup-put}
use rust_api_gateway.Cache.Keys.{NoSpace, key_injective}

runs : Unit {0}
unfolding new key get find_expired victim make_room put after_put step run maps texts
runs = tt

-- The order in which the entries are listed.
abbrev as_listed : HashMap CachedResponse → HashMap CachedResponse
as_listed m = m

as_listed-Iterates : Iterates as_listed
as_listed-Iterates = record {
  same_keys = λ k m. refl;
  same_entries = λ k m. refl;
  same_length = λ m. refl;
  same_distinct = λ m d. d;
}

abbrev hi : List ℕ
hi = str "hi"

abbrev page : ℕ → CachedResponse
page expires_at = record { status = 200; headers = []; body = hi; expires_at = expires_at }

abbrev puts_hi : Str → ℕ → Call
puts_hi k t = puts k 200 [] hi t t

abbrev k1 : Str
k1 = str "k"

stores_and_returns_within_ttl :
    (get (after_put as_listed (new (from_secs 60) 10) k1 200 [] hi 0 0) k1 5).1
    ≡ some (page (from_secs 60))
unfolding runs
stores_and_returns_within_ttl = refl

expired_entries_are_dropped : (get (after_put as_listed (new 0 10) k1 200 [] hi 0 0) k1 5).1 ≡ none
unfolding runs
expired_entries_are_dropped = refl

abbrev three_puts : List Call
three_puts = puts_hi (str "a") 0 ∷ puts_hi (str "b") 1 ∷ puts_hi (str "c") 2 ∷ []

capacity_is_bounded : length (run as_listed (new (from_secs 60) 2) three_puts).entries ≡ 2
unfolding runs
capacity_is_bounded = refl

run-new-IsBounded_example : IsBounded (run as_listed (new (from_secs 60) 2) three_puts)
run-new-IsBounded_example =
    run-new-IsBounded as_listed (from_secs 60) 2 three_puts as_listed-Iterates

get-put_example :
    (get (after_put as_listed (new 60 10) k1 200 [] hi 0 0) k1 5).1
    ≡ (if ltb 5 (0 + (new 60 10).ttl) then some (page (0 + (new 60 10).ttl)) else none)
unfolding runs
get-put_example =
    get-put as_listed (new 60 10) (after_put as_listed (new 60 10) k1 200 [] hi 0 0) k1 200 [] hi 0
      0 5 refl

-- A cache with one entry that expires at 60.
abbrev one_page : ResponseCache
one_page = record { ttl = 60; capacity = 2; entries = (k1, page 60) ∷ [] }

one_page-IsBounded : IsBounded one_page
unfolding runs
one_page-IsBounded = record { positive = omega arith; fits = omega arith; distinct = (refl, tt) }

lookup-put_example :
    lookup k1 (after_put as_listed one_page (str "j") 200 [] hi 5 5).entries ≡ some (page 60)
unfolding runs
lookup-put_example =
    lookup-put as_listed as_listed-Iterates one_page
      (after_put as_listed one_page (str "j") 200 [] hi 5 5) (str "j") k1 200 [] hi 5 5 (page 60)
      one_page-IsBounded ((str_ne_iff (str "j") k1).0 refl) (inl (omega arith)) refl (omega arith)
      refl

key_injective_example : (str "GET" ≡ str "GET") × (str "a b" ≡ str "a b") × (str "/x" ≡ str "/x")
unfolding runs
key_injective_example =
    key_injective (str "GET") (str "GET") (str "a b") (str "a b") (str "/x") (str "/x") no_space_get
      no_space_get no_space_target no_space_target refl
  where
    no_space_get : NoSpace (str "GET")
    no_space_get = (λ e. cc, (λ e. cc, (λ e. cc, tt)))

    no_space_target : NoSpace (str "/x")
    no_space_target = (λ e. cc, (λ e. cc, tt))
