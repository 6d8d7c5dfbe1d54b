-- ===== src/Proxy/Tests.antt =====
-- Runs of the retry loop, and requests that the helpers of the handler judge.
use rust_api_gateway.Base.{
  ℕ, zero, suc, ◌≡◌, ◌≤◌, ◌≢◌, refl, true, false, Option, none, some, List, [], ◌∷◌, Str, str,
  length, texts, Lacks, All, IsEarly, arith,
}
use rust_api_gateway.Breaker
use rust_api_gateway.Breaker.{state_code}
use rust_api_gateway.Config.{ip, by_key}
use rust_api_gateway.Headers.Instance.{listed}
use rust_api_gateway.Balancer.{
  Balancer, eligible, new_upstream, expand, from_route, try_at, rr_rounds, first_eligible,
  pick_round_robin, least_from, pick_least_conn, acquire_guard, drop_guard, pick,
}
use rust_api_gateway.Balancer.Order.{IsBalancer, from_route-IsBalancer}
use rust_api_gateway.Proxy.{
  is_idempotent, max_attempts, client_ip, presented_key, rate_key, cache_bypass, response_cacheable,
  set_header,
}
use rust_api_gateway.Proxy.Attempts.{
  Exchange, responds, fails, Outcome, finishes, no_healthy_upstream, all_attempts_failed, Ran,
  report_to, retryable, answer, settle, attempts, retry_loop,
}
use rust_api_gateway.Proxy.Instants.{IsBrief}
use rust_api_gateway.Proxy.Trail.{SameShape, Trail}
use rust_api_gateway.Proxy.Retries.{
  AllDifferent, AllConnectErrors, IsAnswer, retry_loop-Trail, retry_loop-bounds,
  retry_loop-not_idempotent,
}
use rust_api_gateway.Proxy.Gauge.{IsNotOpen, retry_loop-IsNotOpen}
use rust_api_gateway.Proxy.Keys.{SameSubject, rate_key_injective}
use rust_api_gateway.Samples.{weighted_route}

runs : Unit {0}
unfolding Breaker.new Breaker.allow_at Breaker.record_success Breaker.after_failure
    Breaker.record_failure_at state_code eligible new_upstream expand from_route try_at rr_rounds
    first_eligible pick_round_robin least_from pick_least_conn acquire_guard drop_guard pick
    is_idempotent max_attempts client_ip presented_key rate_key cache_bypass response_cacheable
    set_header retryable report_to answer settle attempts retry_loop texts
runs = tt

-- No connection at first, then a response.
abbrev second_time : ℕ → Str → Exchange Str
second_time zero url = fails true
second_time (suc n) url = responds 200 url

abbrev always_503 : ℕ → Str → Exchange Str
always_503 n url = responds 503 url

abbrev alone : ℕ → Balancer → Balancer
alone n b = b

alone-SameShape : (n : ℕ) (b : Balancer) → SameShape b (alone n b)
alone-SameShape n b = record { same_order = refl; same_number = refl; same_cooldowns = refl }

abbrev run_loop : (ℕ → Str → Exchange Str) → Str → ℕ → Option (Ran Str)
run_loop exchange method again =
    retry_loop exchange alone (λ n i. n) (λ n. 8) method again (from_route weighted_route)

abbrev outcome : Option (Ran Str) → Option (Outcome Str)
outcome none = none
outcome (some r) = some r.outcome

post_again_after_no_connection :
    outcome (run_loop second_time (str "POST") 1) ≡ some (finishes 200 (str "http://b"))
unfolding runs
post_again_after_no_connection = refl

post_not_again_after_503 :
    outcome (run_loop always_503 (str "POST") 5) ≡ some (finishes 503 (str "http://a"))
unfolding runs
post_not_again_after_503 = refl

get_runs_out_of_upstreams : outcome (run_loop always_503 (str "GET") 5) ≡ some no_healthy_upstream
unfolding runs
get_runs_out_of_upstreams = refl

usable : IsBalancer (from_route weighted_route)
usable = from_route-IsBalancer weighted_route (λ e. cc)

early : ℕ → IsEarly 8
early m = omega arith

brief : IsBrief (from_route weighted_route)
unfolding runs
brief = (omega arith, (omega arith, tt))

retry_loop-Trail_example :
    (r : Ran Str) × (run_loop second_time (str "POST") 1 ≡ some r)
    × Trail second_time alone
        (λ n i. n)
        (λ n. 8)
        (is_idempotent (str "POST"))
        (max_attempts 1)
        0
        []
        (from_route weighted_route)
        r.tried
        r.outcome
        r.balancer
    × SameShape (from_route weighted_route) r.balancer
retry_loop-Trail_example =
    retry_loop-Trail second_time alone (λ n i. n) (λ n. 8) (str "POST") 1
      (from_route weighted_route) alone-SameShape early usable brief

retry_loop-bounds_example :
    (r : Ran Str) × (run_loop always_503 (str "GET") 5 ≡ some r)
    × (length r.tried ≤ max_attempts 5)
    × AllDifferent r.tried
    × IsAnswer r.tried r.outcome
    × (r.outcome ≢ all_attempts_failed)
retry_loop-bounds_example =
    retry_loop-bounds always_503 alone (λ n i. n) (λ n. 8) (str "GET") 5 (from_route weighted_route)
      alone-SameShape early usable brief

retry_loop-not_idempotent_example :
    (r : Ran Str) × (run_loop second_time (str "POST") 1 ≡ some r) × AllConnectErrors r.tried
unfolding runs
retry_loop-not_idempotent_example =
    retry_loop-not_idempotent second_time alone (λ n i. n) (λ n. 8) (str "POST") 1
      (from_route weighted_route) alone-SameShape early usable brief refl

abbrev no_headers : List (Str × Str)
no_headers = []

address_from_chain :
    client_ip listed ((str "x-forwarded-for", str " 10.0.0.1, 10.0.0.2") ∷ []) (str "1.2.3.4")
    ≡ str "10.0.0.1"
unfolding runs
address_from_chain = refl

address_of_peer : client_ip listed no_headers (str "1.2.3.4") ≡ str "1.2.3.4"
unfolding runs
address_of_peer = refl

key_of_nobody : rate_key listed by_key (str "api") (str "1.2.3.4") no_headers ≡ str "api:key:anon"
unfolding runs
key_of_nobody = refl

asks_for_fresh : cache_bypass listed ((str "cache-control", str "No-Cache") ∷ []) ≡ true
unfolding runs
asks_for_fresh = refl

private_not_stored :
    response_cacheable listed ((str "cache-control", str "private, max-age=9") ∷ []) ≡ false
unfolding runs
private_not_stored = refl

rate_key_injective_example :
    (str "api" ≡ str "api")
    × SameSubject ip ip
        (str "1.2.3.4")
        (str "1.2.3.4")
        (presented_key listed no_headers)
        (presented_key listed no_headers)
rate_key_injective_example =
    rate_key_injective listed ip ip (str "api") (str "api") (str "1.2.3.4") (str "1.2.3.4")
      no_headers no_headers lacks lacks refl
  where
    lacks : Lacks b':' (str "api")
    lacks = (λ e. cc, (λ e. cc, (λ e. cc, tt)))

retry_loop-IsNotOpen_example :
    (r : Ran Str) × (run_loop always_503 (str "GET") 5 ≡ some r) × All IsNotOpen r.notes
retry_loop-IsNotOpen_example =
    retry_loop-IsNotOpen always_503 (λ n i. n) (λ n. 8) (str "GET") 5 (from_route weighted_route)
      early usable brief
