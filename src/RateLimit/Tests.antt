-- ===== src/RateLimit/Tests.antt =====
-- Tests of the rate limiters, after those of the source, and a server that counts up.
use rust_api_gateway.Base.{
  ℕ, suc, ◌≡◌, refl, min, Bool, true, false, Option, none, some, List, [], ◌∷◌, Str, str, HashMap,
  lookup, insert, lookup-insert, str_eq_refl, arith, from_secs, maps, texts, inl, pos,
}
use rust_api_gateway.RateLimit.{RateDecision, Request, count_in, check, check_all}
use rust_api_gateway.RateLimit.Keys.{decisions_for, requests_for, decisions_for-check_all}
use rust_api_gateway.RateLimit.Interface.{admitted}
use rust_api_gateway.RateLimit.Budget.{requests, admitted-check_all}
use rust_api_gateway.RateLimit.Redis.{Redis, CountsUp, redis_check, redis_checks}
use rust_api_gateway.RateLimit.RedisBudget.{redis_check-fails_open, redis_checks-budget}

runs : Unit {0}
unfolding count_in check check_all redis_check redis_checks maps texts
runs = tt

abbrev minute : ℕ
minute = from_secs 60

abbrev verdicts : List RateDecision → List Bool
verdicts [] = []
verdicts (d ∷ ds) = d.allowed ∷ verdicts ds

in_memory_blocks_over_limit :
    verdicts (check_all [] (requests (str "k") 3 minute (0 ∷ 1 ∷ 2 ∷ 3 ∷ [])))
    ≡ true ∷ true ∷ true ∷ false ∷ []
unfolding runs
in_memory_blocks_over_limit = refl

abbrev at_key : Str → ℕ → Request
at_key k now = record { key = k; limit = 1; window = minute; now = now }

abbrev two_keys : List Request
two_keys = at_key (str "a") 0 ∷ at_key (str "a") 1 ∷ at_key (str "b") 2 ∷ []

in_memory_separates_keys : verdicts (check_all [] two_keys) ≡ true ∷ false ∷ true ∷ []
unfolding runs
in_memory_separates_keys = refl

window_passes :
    verdicts (check_all [] (requests (str "k") 1 minute (0 ∷ 1 ∷ minute ∷ [])))
    ≡ true ∷ false ∷ true ∷ []
unfolding runs
window_passes = refl

decisions_for-check_all_example :
    decisions_for (str "b") [] two_keys ≡ check_all [] (requests_for (str "b") two_keys)
decisions_for-check_all_example = decisions_for-check_all (str "b") [] [] two_keys refl

admitted-check_all_example :
    admitted (check_all [] (requests (str "k") 2 minute (0 ∷ 1 ∷ 2 ∷ []))) ≡ min 2 3
unfolding runs
admitted-check_all_example =
    admitted-check_all [] (str "k") 2 minute 0 (1 ∷ 2 ∷ []) (inl refl)
      (omega arith, (omega arith, tt)) (omega arith)

abbrev or_zero : Option ℕ → ℕ
or_zero none = 0
or_zero (some n) = n

-- A server that only counts, and never expires a key.
abbrev counting : Redis
counting = record {
  State = HashMap ℕ;
  incr = λ k s. (some (pos (suc (or_zero (lookup k s)))), insert k (suc (or_zero (lookup k s))) s);
  expire = λ k n s. s;
  ttl = λ k s. (some (pos 60), s);
}

counting-CountsUp : CountsUp counting
counting-CountsUp = record {
  count = λ k s. or_zero (lookup k s);
  incr_replies = λ k s. refl;
  incr_counts =
      λ k s. ground (arith, lookup-insert k k (suc (or_zero (lookup k s))) s, str_eq_refl k);
  expire_keeps = λ k n s. refl;
  ttl_keeps = λ k s. refl;
}

-- A server that is down.
abbrev down : Redis
down = record { State = Unit; incr = λ k s. (none, s); expire = λ k n s. s; ttl = λ k s. (none, s) }

redis_checks-budget_example : admitted (redis_checks counting (str "k") 2 minute 3 []) ≡ min 2 3
unfolding runs counting-CountsUp
redis_checks-budget_example =
    redis_checks-budget counting counting-CountsUp (str "k") 2 minute 3 [] refl (omega arith)

lets_through_without_redis : (redis_check down (str "k") 2 minute tt).1.allowed ≡ true
lets_through_without_redis = (redis_check-fails_open down (str "k") 2 minute tt refl).0
