-- ===== src/RateLimit/RedisBudget.antt =====
-- How many requests the Redis limiter admits.
use rust_api_gateway.Base.{
  ℕ, zero, suc, ◌+◌, ◌-◌, min, ◌<◌, ◌≡◌, refl, ap, ◌∙◌, List, [], ◌∷◌, All, length, true,
  Bool-cases, inl, inr, none, Str, u32_mod, ℤ, pos, as_u64, arith, leb,
}
use rust_api_gateway.RateLimit.Interface.{admitted, RateLimiter, checks, admitted-checks}
use rust_api_gateway.RateLimit.Redis.{
  Redis, CountsUp, redis_key, window_secs, is_one, counted, redis_check, redis_checks,
}

-- A check whose count fails lets the request through and reports the whole limit as remaining.
pub redis_check-fails_open :
    (r : Redis) (key : Str) (limit window : ℕ) (s : r.State)
    → (r.incr (redis_key key) s).0 ≡ none
    → let d = (redis_check r key limit window s).1 in
      (d.allowed ≡ true) × (d.remaining ≡ limit) × (d.reset_secs ≡ as_u64 (window_secs window))
unfolding redis_check
redis_check-fails_open r key limit window s e = rw (e, redis_check) (refl, refl, refl)

module _ (r : Redis) (c : CountsUp r) where
  counted-keeps :
      (key : Str) (limit window : ℕ) (n : ℤ) (s : r.State)
      → c.count key (counted r key limit window n s).0 ≡ c.count key s
  unfolding counted
  counted-keeps key limit window n s = elim (Bool-cases (is_one n)) [
    | inl one ↦ rw one (c.ttl_keeps key _ ∙ c.expire_keeps key _ s)
    | inr more ↦ rw more (c.ttl_keeps key s)
  ]

  counted-allowed :
      (key : Str) (limit window n : ℕ) (s : r.State)
      → n < u32_mod
      → (counted r key limit window (pos n) s).1.allowed ≡ leb n limit
  unfolding counted
  counted-allowed key limit window n s h = ground arith

  redis_check-counts :
      (key : Str) (limit window : ℕ) (s : r.State)
      → c.count (redis_key key) s + 1 < u32_mod
      → (c.count (redis_key key) (redis_check r key limit window s).0
          ≡ suc (c.count (redis_key key) s))
        × ((redis_check r key limit window s).1.allowed
            ≡ leb (suc (c.count (redis_key key) s)) limit)
  unfolding redis_check
  redis_check-counts key limit window s h =
      let k = redis_key key in
      let n = c.count k s in
      rw (c.incr_replies k s, redis_check)
        (
          counted-keeps k limit window (pos (suc n)) (r.incr k s).1 ∙ c.incr_counts k s,
          counted-allowed k limit window (suc n) (r.incr k s).1 (omega arith),
        )

  -- The limiter in Redis, whose clock is that of Redis; no key expires.
  in_redis : RateLimiter r.State
  in_redis = record {
    check = λ now s key limit window. redis_check r key limit window s;
    used = λ key s. c.count (redis_key key) s;
    IsOpen = λ key window s now. Unit;
    counts = λ now s key limit window o h. (redis_check-counts key limit window s h).0;
    decides = λ now s key limit window o h. (redis_check-counts key limit window s h).1;
    stays = λ now later s key limit window o o'. tt;
  }

  -- The clock of the process makes no difference.
  abbrev zeros : ℕ → List ℕ
  zeros zero = []
  zeros (suc n) = 0 ∷ zeros n

  length-zeros : (n : ℕ) → length (zeros n) ≡ n
  length-zeros zero = refl
  length-zeros (suc n) = ap suc (length-zeros n)

  abbrev AnyTime : ℕ → Type 0
  AnyTime t = Unit

  always_open : (n : ℕ) → All AnyTime (zeros n)
  always_open zero = tt
  always_open (suc n) = (tt, always_open n)

  redis_checks-in_redis :
      (key : Str) (limit window n : ℕ) (s : r.State)
      → redis_checks r key limit window n s ≡ checks in_redis key limit window s (zeros n)
  unfolding redis_checks checks in_redis
  redis_checks-in_redis key limit window zero s = refl
  redis_checks-in_redis key limit window (suc n) s =
      ap (λ ds. (redis_check r key limit window s).1 ∷ ds)
        (redis_checks-in_redis key limit window n (redis_check r key limit window s).0)

  redis_checks-admitted :
      (key : Str) (limit window n : ℕ) (s : r.State)
      → c.count (redis_key key) s + n < u32_mod
      → admitted (redis_checks r key limit window n s)
        ≡ min limit (c.count (redis_key key) s + n) - min limit (c.count (redis_key key) s)
  unfolding in_redis
  redis_checks-admitted key limit window n s h =
      let k = c.count (redis_key key) s in
      ap admitted (redis_checks-in_redis key limit window n s)
      ∙ admitted-checks in_redis key limit window s (zeros n) (always_open n)
          (omega (arith, length-zeros n))
      ∙ ap (λ m. min limit (k + m) - min limit k) (length-zeros n)

-- While a key does not expire, as many checks as are made (fewer than 2^32) admit as many requests
-- as the limit allows from a count of zero on: the budget of a window of the in-memory limiter.
pub redis_checks-budget :
    (r : Redis) (c : CountsUp r) (key : Str) (limit window n : ℕ) (s : r.State)
    → c.count (redis_key key) s ≡ 0
    → n < u32_mod
    → admitted (redis_checks r key limit window n s) ≡ min limit n
redis_checks-budget r c key limit window n s z h =
    omega (arith, z, redis_checks-admitted r c key limit window n s (omega (arith, z)))
