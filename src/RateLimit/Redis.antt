-- ===== src/RateLimit/Redis.antt =====
-- The Redis limiter of crates/gateway/src/ratelimit.rs, over the three commands that it sends. The
-- server and the client library are not part of the program.
use rust_api_gateway.Base.{
  ℕ, zero, suc, max, ◌≡◌, Bool, true, false, ◌==◌, Option, none, some, List, [], ◌∷◌, ◌++◌, Str,
  str, as_secs, ℤ, pos, max_zero, as_u32, as_i64, as_u64, if◌then◌else◌,
}
use rust_api_gateway.RateLimit.{RateDecision, decide}

-- A server's state and its commands; a reply that is an error is `none`.
pub record Redis : Type 1 where
  pub State : Type 0
  pub incr : Str → State → Option ℤ × State
  pub expire : Str → ℤ → State → State
  pub ttl : Str → State → Option ℤ × State

-- What Redis documents of a key that does not expire in between: `INCR` replies with the count that
-- it stores, and neither `EXPIRE` nor `TTL` changes it.
pub record CountsUp (r : Redis) : Type 0 where
  pub count : Str → r.State → ℕ
  pub incr_replies : (k : Str) (s : r.State) → (r.incr k s).0 ≡ some (pos (suc (count k s)))
  pub incr_counts : (k : Str) (s : r.State) → count k (r.incr k s).1 ≡ suc (count k s)
  pub expire_keeps : (k : Str) (n : ℤ) (s : r.State) → count k (r.expire k n s) ≡ count k s
  pub ttl_keeps : (k : Str) (s : r.State) → count k (r.ttl k s).1 ≡ count k s

abbrev pub redis_key : Str → Str
redis_key key = str "gw:rl:" ++ key

-- `window.as_secs().max(1) as i64`
abbrev pub window_secs : ℕ → ℤ
window_secs window = as_i64 (max (as_secs window) 1)

abbrev pub is_one : ℤ → Bool
is_one (pos n) = n == 1
is_one _ = false

abbrev or_window : Option ℤ → ℤ → ℤ
or_window none w = w
or_window (some t) w = t

module _ (r : Redis) where
  open r use {State, incr, expire, ttl}

  -- After a count: the expiry on the first hit, the time to live, and the decision.
  unfoldable pub counted : Str → ℕ → ℕ → ℤ → State → State × RateDecision
  counted key limit window count s =
      let expiring = if is_one count then expire key (window_secs window) s else s in
      let (reply, s') = ttl key expiring in
      (s', decide (as_u32 (max_zero count)) limit (max_zero (or_window reply (window_secs window))))

  -- `RedisLimiter::check`
  unfoldable pub redis_check : Str → ℕ → ℕ → State → State × RateDecision
  redis_check key limit window s =
      let (reply, s') = incr (redis_key key) s in
      elim reply [
        | none ↦ (
          s',
          record {
            allowed = true;
            limit = limit;
            remaining = limit;
            reset_secs = as_u64 (window_secs window);
          },
        )
        | some count ↦ counted (redis_key key) limit window count s'
      ]

  -- As many checks in a row, for one key.
  unfoldable pub redis_checks : Str → ℕ → ℕ → ℕ → State → List RateDecision
  redis_checks key limit window zero s = []
  redis_checks key limit window (suc n) s =
      let (s', d) = redis_check key limit window s in d ∷ redis_checks key limit window n s'
