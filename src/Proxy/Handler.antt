-- ===== src/Proxy/Handler.antt =====
-- The pipeline of `handle` and `route_and_proxy` in crates/gateway/src/proxy.rs, a definition for
-- each stage and what follows it. The limiter, the network, the clock and what other tasks do to
-- the balancer are arguments; a panic is `none`.
use rust_api_gateway.Base.{
  ℕ, Bool, true, false, not, ◌&&◌, Option, none, some, List, [], ◌∷◌, ◌++◌, map, Str, str, str_eq,
  HashMap,
}
use rust_api_gateway.Headers.{Http}
use rust_api_gateway.Router.{forward_path}
use rust_api_gateway.Balancer.{Balancer}
use rust_api_gateway.Cache
use rust_api_gateway.Cache.{CachedResponse, ResponseCache}
use rust_api_gateway.Transform.{get_str, forwarded_request_headers, apply_transforms}
use rust_api_gateway.State.{RouteRuntime}
use rust_api_gateway.Proxy.{unwrap_or, client_ip, cache_bypass, set_header}
use rust_api_gateway.Proxy.Attempts.{
  Exchange, Ran, Outcome, finishes, no_healthy_upstream, upstream_unavailable, all_attempts_failed,
  retry_loop,
}
use rust_api_gateway.Proxy.Responses.{
  Metric, cache_hit, cache_miss, in_loop, Answer, Served, is_some, record_request, error,
  cached_response, finish_response, finished_response, correlation_header, status_or_ok,
}

-- The readings of the clock: for the cache, its `put`, and each attempt.
pub record Times : Type 0 where
  pub looked_up : ℕ
  pub stored : ℕ
  pub expiry_from : ℕ
  pub picks : ℕ → ℕ → ℕ
  pub failed_at : ℕ → ℕ

module _ (h : Http) where
  open h use {HeaderMap}

  -- A request, as the http crate splits its target. The body is what reading it up to a limit gives.
  pub record Request : Type 0 where
    pub method : Str
    pub path : Str
    pub query : Option Str
    pub path_and_query : Option Str
    pub headers : HeaderMap
    pub body : ℕ → Option Str
    pub peer_ip : Str
    pub new_id : Str

  -- A request that is sent to an upstream.
  pub record Forwarded : Type 0 where
    pub method : Str
    pub url : Str
    pub headers : HeaderMap
    pub body : Str
    pub timeout_ms : ℕ

  abbrev pub host_of : Request → Str
  host_of req = unwrap_or (get_str h req.headers (str "host")) []

  abbrev pub correlation_of : Request → Str
  correlation_of req = unwrap_or (get_str h req.headers correlation_header) req.new_id

  abbrev pub with_query : Str → Option Str → Str
  with_query path none = path
  with_query path (some q) = path ++ (str "?" ++ q)

  abbrev pub note : List Metric → Served h → Served h
  note ms s = record s { metrics = ms ++ s.metrics }

  abbrev pub note_all : List Metric → Option (Served h) → Option (Served h)
  note_all ms none = none
  note_all ms (some s) = some (note ms s)

  module _ (iter : HashMap CachedResponse → HashMap CachedResponse) (times : Times)
      (during : ℕ → Balancer → Balancer) (send : ℕ → Forwarded → Exchange (Answer h))
      (default_timeout_ms max_body_bytes : ℕ) (name : Str) (req : Request) where
    -- An error that is counted.
    unfoldable pub refuse : RouteRuntime → ℕ → Str → Served h
    refuse runtime status message = record {
      runtime = runtime;
      metrics = record_request name req.method status;
      response = error h status message (correlation_of req);
    }

    -- The answer to the outcome of the loop.
    unfoldable pub end_with : RouteRuntime → Bool → Str → Outcome (Answer h) → Option (Served h)
    end_with runtime cache_enabled cache_key (finishes status answer) =
        finish_response h iter times.stored times.expiry_from runtime name req.method status answer
          cache_enabled cache_key (correlation_of req)
    end_with runtime cache_enabled cache_key no_healthy_upstream =
        some (refuse runtime 503 (str "no healthy upstream"))
    end_with runtime cache_enabled cache_key upstream_unavailable =
        some (refuse runtime 502 (str "upstream unavailable"))
    end_with runtime cache_enabled cache_key all_attempts_failed =
        some (refuse runtime 502 (str "all upstream attempts failed"))

    unfoldable pub conclude : RouteRuntime → Bool → Str → Ran (Answer h) → Option (Served h)
    conclude runtime cache_enabled cache_key r =
        note_all (map (in_loop name) r.notes)
          (end_with (record runtime { balancer = r.balancer }) cache_enabled cache_key r.outcome)

    -- What they come to where the response is stored without a panic, if it is stored.
    unfoldable pub ended_with : RouteRuntime → Bool → Str → Outcome (Answer h) → Served h
    ended_with runtime cache_enabled cache_key (finishes status answer) =
        finished_response h iter times.stored times.expiry_from runtime name req.method status
          answer cache_enabled cache_key (correlation_of req)
    ended_with runtime cache_enabled cache_key no_healthy_upstream =
        refuse runtime 503 (str "no healthy upstream")
    ended_with runtime cache_enabled cache_key upstream_unavailable =
        refuse runtime 502 (str "upstream unavailable")
    ended_with runtime cache_enabled cache_key all_attempts_failed =
        refuse runtime 502 (str "all upstream attempts failed")

    unfoldable pub concluded : RouteRuntime → Bool → Str → Ran (Answer h) → Served h
    concluded runtime cache_enabled cache_key r =
        note (map (in_loop name) r.notes)
          (ended_with (record runtime { balancer = r.balancer }) cache_enabled cache_key r.outcome)

    -- The request as it is sent to the upstream with a url.
    unfoldable pub forwarded : RouteRuntime → Str → Str → Forwarded
    forwarded runtime body url =
        let headers =
          forwarded_request_headers h req.headers (client_ip h req.headers req.peer_ip)
            (host_of req) (str "http") in
        let headers = apply_transforms h headers runtime.config.request_headers in
        record {
          method = req.method;
          url = url ++ with_query (forward_path req.path runtime.config) req.query;
          headers = set_header h headers correlation_header (correlation_of req);
          body = body;
          timeout_ms = unwrap_or runtime.config.timeout_ms default_timeout_ms;
        }

    abbrev pub conclude_all :
        RouteRuntime → Bool → Str → Option (Ran (Answer h)) → Option (Served h)
    conclude_all runtime cache_enabled cache_key none = none
    conclude_all runtime cache_enabled cache_key (some r) =
        conclude runtime cache_enabled cache_key r

    -- From the buffering of the body on.
    unfoldable pub with_body : RouteRuntime → Bool → Str → Option (Served h)
    with_body runtime cache_enabled cache_key = elim (req.body max_body_bytes) [
      | none ↦ some (refuse runtime 413 (str "request body too large"))
      | some body ↦ conclude_all runtime cache_enabled cache_key (
          retry_loop (λ n url. send n (forwarded runtime body url)) during times.picks
            times.failed_at req.method runtime.config.retries runtime.balancer)
    ]

    -- Whether the request may be answered from the cache, and its key.
    abbrev pub uses_cache : RouteRuntime → Bool
    uses_cache runtime =
        is_some runtime.cache && (str_eq req.method (str "GET") && not (cache_bypass h req.headers))

    abbrev pub key_of : Str
    key_of = Cache.key req.method (host_of req) (unwrap_or req.path_and_query (str "/"))

    -- The lookup in a cache and what follows.
    unfoldable pub looked_up : RouteRuntime → ResponseCache → Option (Served h)
    looked_up runtime cache =
        let (cache', found) = Cache.get cache key_of times.looked_up in
        let runtime' = record runtime { cache = some cache' } in
        elim found [
          | some hit ↦ some (record {
            runtime = runtime';
            metrics = cache_hit name ∷ record_request name req.method (status_or_ok hit.status);
            response = cached_response h hit runtime' (correlation_of req);
          })
          | none ↦ note_all (cache_miss name ∷ []) (with_body runtime' true key_of)
        ]

    unfoldable pub with_cache : RouteRuntime → Option (Served h)
    with_cache runtime = elim (uses_cache runtime) [
      | false ↦ with_body runtime false key_of
      | true ↦ elim (runtime.cache) [
        | none ↦ with_body runtime true key_of
        | some cache ↦ looked_up runtime cache
      ]
    ]
