-- ===== src/Proxy/Runs.antt =====
-- Requests to a gateway that is built from the sample configuration.
use rust_api_gateway.Base.{
  All, arith, ℕ, pos, ◌≡◌, refl, true, Option, none, some, List, [], ◌∷◌, Str, str, HashMap, length,
  maps, texts,
}
use rust_api_gateway.Breaker
use rust_api_gateway.Breaker.{state_code}
use rust_api_gateway.Config.{ok, GatewayConfig}
use rust_api_gateway.Config.Validate.{validate, validate_routes, validate_route, validate_upstreams}
use rust_api_gateway.Headers.Instance.{listed}
use rust_api_gateway.Router.{
  match_route, consider, match_from, path_matches, host_matches, strip_port, forward_path,
}
use rust_api_gateway.Balancer.{
  eligible, new_upstream, expand, from_route, try_at, rr_rounds, first_eligible, pick_round_robin,
  least_from, pick_least_conn, acquire_guard, drop_guard, pick,
}
use rust_api_gateway.RateLimit.{Window, RateDecision, count_in, check}
use rust_api_gateway.Transform.{
  any_ignoring_case, is_hop_by_hop, copy_end_to_end, set, forwarded_request_headers,
  filtered_response_headers, remove_all, add_all, apply_transforms,
}
use rust_api_gateway.Auth.{Claims, extract_api_key, authorize}
use rust_api_gateway.State.{GatewayState, from_config, build_routes, choose_limiter, build, route}
use rust_api_gateway.Proxy.{
  is_idempotent, max_attempts, client_ip, presented_key, rate_key, cache_bypass, response_cacheable,
  set_header,
}
use rust_api_gateway.Proxy.Attempts.{
  Exchange, responds, retryable, answer, settle, report_to, attempts, retry_loop,
}
use rust_api_gateway.Proxy.Responses.{
  Response, Answer, error, record_request, cached_response, finish_response,
}
use rust_api_gateway.Proxy.Handler.{
  Request, Forwarded, Times, refuse, end_with, conclude, forwarded, with_body, looked_up,
  with_cache,
}
use rust_api_gateway.Proxy.Gateway.{
  Gateway, World, serve, reject, with_limit, with_auth, route_and_proxy, handle,
}
use rust_api_gateway.Proxy.Served.{counts}
use rust_api_gateway.Proxy.Instants.{IsEarlyAt}
use rust_api_gateway.Proxy.Wellformed.{IsBriefState, IsOrderly}
use rust_api_gateway.Proxy.Lifetime.{
  IsBriefRoute, build-IsBriefState, build-IsWellformed, active, handle_all, handle_all-build,
}
use rust_api_gateway.Samples.{root_route, api_route, users_route, hosted_route, sample}

runs : Unit {0}
unfolding Breaker.new Breaker.allow_at Breaker.record_success Breaker.after_failure
    Breaker.record_failure_at state_code validate validate_routes validate_route validate_upstreams
    match_route match_from consider path_matches host_matches strip_port forward_path eligible
    new_upstream expand from_route try_at rr_rounds first_eligible pick_round_robin least_from
    pick_least_conn acquire_guard drop_guard pick count_in check any_ignoring_case is_hop_by_hop
    copy_end_to_end set forwarded_request_headers filtered_response_headers remove_all add_all
    apply_transforms extract_api_key authorize from_config build_routes choose_limiter build route
    is_idempotent max_attempts client_ip presented_key rate_key cache_bypass response_cacheable
    set_header retryable answer settle report_to attempts retry_loop error record_request
    cached_response finish_response refuse end_with conclude forwarded with_body looked_up
    with_cache serve reject with_limit with_auth route_and_proxy handle maps texts
runs = tt

abbrev pub Windows : Type 0
Windows = HashMap Window

abbrev no_token : Str → Str → Option Claims
no_token token secret = none

-- The limiter in memory, at one time.
abbrev check_now : Windows → Str → ℕ → ℕ → Windows × RateDecision
check_now windows key limit window = check windows key limit window 7

abbrev times : Times
times = record { looked_up = 7; stored = 8; expiry_from = 8; picks = λ n i. 7; failed_at = λ n. 8 }

-- Upstreams that answer with the url that they are asked for.
abbrev echo : ℕ → Forwarded listed → Exchange (Answer listed)
echo n f = responds 200 (record { headers = []; body = some f.url })

abbrev pub world : World listed Windows
world = record {
  decode = no_token;
  check = check_now;
  iter = λ m. m;
  times = times;
  during = λ n b. b;
  send = echo;
}

pub world-IsOrderly : IsOrderly listed world
world-IsOrderly = record {
  quiet = λ n b. record { same_order = refl; same_number = refl; same_cooldowns = refl };
  order = record {
    same_keys = λ k m. refl;
    same_entries = λ k m. refl;
    same_length = λ m. refl;
    same_distinct = λ m d. d;
  };
}

pub world-IsEarlyAt : IsEarlyAt times
world-IsEarlyAt = record { failures = λ m. omega arith; expiry = omega arith }

abbrev pub get_request : Str → Request listed
get_request path = record {
  method = str "GET";
  path = path;
  query = none;
  path_and_query = some path;
  headers = [];
  body = λ limit. some [];
  peer_ip = str "1.2.3.4";
  new_id = str "id";
}

abbrev started : GatewayConfig → Gateway Windows
started config = record {
  state = record { config = config; routes = build_routes [] config.routes; limiter = [] };
  metrics = [];
}

abbrev status_of : Option (Gateway Windows × Response listed) → Option ℕ
status_of none = none
status_of (some (g, r)) = some r.status

abbrev counted : Option (Gateway Windows × Response listed) → List (Str × Str × ℕ)
counted none = []
counted (some (g, r)) = counts g.metrics

abbrev answered : Option (Gateway Windows × Response listed)
answered = handle listed world (get_request (str "/api/users/7")) (started sample)

answers_a_user : counted answered ≡ (str "users", str "GET", 200) ∷ []
unfolding runs
answers_a_user = refl

abbrev pub no_connect : Str → Option Windows
no_connect url = none

pub accepts_sample : validate sample ≡ ok tt
unfolding runs
accepts_sample = refl

abbrev pub built : GatewayState Windows
built = (build-IsWellformed no_connect [] sample accepts_sample).0

abbrev pub fresh : Gateway Windows
fresh = record { state = built; metrics = [] }

pub sample-IsBrief : All IsBriefRoute sample.routes
sample-IsBrief =
    let root : IsBriefRoute root_route = record { cooldown = omega arith; ttl = λ c e. cc } in
    let api : IsBriefRoute api_route = record { cooldown = omega arith; ttl = λ c e. cc } in
    let users : IsBriefRoute users_route = record { cooldown = omega arith; ttl = λ c e. cc } in
    let hosted : IsBriefRoute hosted_route = record { cooldown = omega arith; ttl = λ c e. cc } in
    (root, (api, (users, (hosted, tt))))

pub fresh-IsBriefState : IsBriefState fresh.state
fresh-IsBriefState =
    build-IsBriefState no_connect [] sample fresh.state
      (build-IsWellformed no_connect [] sample accepts_sample).1 sample-IsBrief

abbrev two_requests : List (World listed Windows × Request listed)
two_requests = (world, get_request (str "/api")) ∷ (world, get_request (str "/nothing")) ∷ []

handle_all-build_example :
    (s : GatewayState Windows) × (build true no_connect [] sample ≡ some s)
    × (g : Gateway Windows) × (rs : List (Response listed)) × (handle_all listed two_requests
          (record { state = s; metrics = [] })
        ≡ some (g, rs))
    × (length rs ≡ 2)
    × (length (counts g.metrics) ≡ 2)
    × (active g.metrics ≡ pos 0)
handle_all-build_example =
    handle_all-build listed no_connect [] sample two_requests accepts_sample sample-IsBrief
      (world-IsOrderly, (world-IsOrderly, tt)) (world-IsEarlyAt, (world-IsEarlyAt, tt))
