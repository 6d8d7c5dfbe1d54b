-- ===== src/Proxy/Responses.antt =====
-- The responses of crates/gateway/src/proxy.rs: errors, what the cache answers, and what is made of
-- an upstream's answer.
use rust_api_gateway.Base.{
  ℕ, zero, suc, ◌+◌, ◌/◌, ◌%◌, Bool, true, false, ◌&&◌, Option, none, some, List, [], ◌∷◌, ◌++◌,
  Str, str, HashMap, if◌then◌else◌, ltb, leb, ◌==◌,
}
use rust_api_gateway.Headers.{Http}
use rust_api_gateway.Transform.{insert_valid, apply_transforms, filtered_response_headers}
use rust_api_gateway.Cache.{CachedResponse, ResponseCache, put, after_put}
use rust_api_gateway.State.{RouteRuntime}
use rust_api_gateway.Proxy.{set_header, response_cacheable}
use rust_api_gateway.Proxy.Attempts.{Note}

-- A change of a metric, without the time that is observed.
pub data Metric : Type 0 where
  connection_opened connection_closed : Metric
  request_counted : (route method : Str) (status : ℕ) → Metric
  gateway_latency auth_rejection rate_limit_rejection cache_hit cache_miss : (route : Str) → Metric
  in_loop : (route : Str) (note : Note) → Metric

-- A body in memory, or one that is streamed from an upstream and breaks off where that is `none`.
pub data Body : Type 0 where
  bytes : Str → Body
  stream : Option Str → Body

abbrev pub is_some {ℓ} : {A : Type ℓ} → Option A → Bool
is_some none = false
is_some (some a) = true

-- The decimal digits of a number of at most so many.
abbrev digits : ℕ → ℕ → Str
digits zero n = []
digits (suc fuel) n =
    let rest = digits fuel (n / 10) in
    if ltb n 10 then (b'0' + n) ∷ [] else rest ++ ((b'0' + n % 10) ∷ [])

-- `to_string` of a `u32` or a `u64`, which have at most twenty digits.
abbrev pub decimal : ℕ → Str
decimal n = digits 20 n

-- `record`
unfoldable pub record_request : Str → Str → ℕ → List Metric
record_request route method status =
    request_counted route method status ∷ gateway_latency route ∷ []

abbrev pub correlation_header : Str
correlation_header = str "x-request-id"

-- `StatusCode::from_u16(s).unwrap_or(StatusCode::OK)`
abbrev pub status_or_ok : ℕ → ℕ
status_or_ok s = if leb 100 s && ltb s 1000 then s else 200

module _ (h : Http) where
  open h use {
    HeaderMap, HeaderName, HeaderValue, iter, name_from_bytes, value_from_str, as_str, to_str,
  }

  pub record Response : Type 0 where
    pub status : ℕ
    pub headers : HeaderMap
    pub body : Body

  -- What an upstream answers, but for the status.
  pub record Answer : Type 0 where
    pub headers : HeaderMap
    pub body : Option Str

  -- The headers that a text is sent with.
  abbrev pub plain_text : HeaderMap
  plain_text = set_header h h.new (str "content-type") (str "text/plain; charset=utf-8")

  -- The messages hold nothing that JSON escapes.
  unfoldable pub error : ℕ → Str → Str → Response
  error status message correlation = record {
    status = status;
    headers =
        set_header h (set_header h plain_text (str "content-type") (str "application/json"))
          correlation_header correlation;
    body = bytes (str "{\"error\":\"" ++ (message ++ str "\"}"));
  }

  unfoldable pub add_ratelimit_headers : HeaderMap → ℕ → ℕ → ℕ → HeaderMap
  add_ratelimit_headers m limit remaining reset =
      let m = set_header h m (str "x-ratelimit-limit") (decimal limit) in
      let m = set_header h m (str "x-ratelimit-remaining") (decimal remaining) in
      let m = set_header h m (str "x-ratelimit-reset") (decimal reset) in
      set_header h m (str "retry-after") (decimal reset)

  -- The headers of a response that are text.
  unfoldable pub header_pairs : List (HeaderName × HeaderValue) → List (Str × Str)
  header_pairs [] = []
  header_pairs ((n, v) ∷ l) = elim (to_str v) [
    | none ↦ header_pairs l
    | some t ↦ (as_str n, t) ∷ header_pairs l
  ]

  unfoldable pub insert_pairs : HeaderMap → List (Str × Str) → HeaderMap
  insert_pairs m [] = m
  insert_pairs m ((n, v) ∷ l) =
      insert_pairs (insert_valid h m (name_from_bytes n) (value_from_str v)) l

  unfoldable pub cached_response : CachedResponse → RouteRuntime → Str → Response
  cached_response hit runtime correlation =
      let headers = insert_pairs h.new hit.headers in
      let headers = apply_transforms h headers runtime.config.response_headers in
      let headers = set_header h headers (str "x-cache") (str "HIT") in
      record {
        status = status_or_ok hit.status;
        headers = set_header h headers correlation_header correlation;
        body = bytes hit.body;
      }

  -- What serving a request on a route leaves of its runtime, the metrics and the response.
  pub record Served : Type 0 where
    pub runtime : RouteRuntime
    pub metrics : List Metric
    pub response : Response

  -- Whether `finish_response` stores the response.
  abbrev pub is_stored : RouteRuntime → ℕ → Answer → Bool → Bool
  is_stored runtime status answer cache_enabled =
      cache_enabled
      && ((status == 200) && (is_some runtime.cache && response_cacheable h answer.headers))

  module _ (iter_entries : HashMap CachedResponse → HashMap CachedResponse) (now later : ℕ) where
    abbrev kept : Option ResponseCache → Option (Option ResponseCache)
    kept none = none
    kept (some c) = some (some c)

    abbrev pub stores :
        Option ResponseCache → Str → ℕ → List (Str × Str) → Str → Option (Option ResponseCache)
    stores none key status pairs body = some none
    stores (some c) key status pairs body =
        kept (put iter_entries c key status pairs body now later)

    unfoldable pub finish_response :
        RouteRuntime → Str → Str → ℕ → Answer → Bool → Str → Str → Option Served
    finish_response runtime route method status answer cache_enabled cache_key correlation =
        let out = filtered_response_headers h answer.headers in
        let out = apply_transforms h out runtime.config.response_headers in
        let out = set_header h out correlation_header correlation in
        let missed = set_header h out (str "x-cache") (str "MISS") in
        let counted = record_request route method status in
        let store =
          cache_enabled
          && ((status == 200) && (is_some runtime.cache && response_cacheable h answer.headers)) in
        elim store [
          | true ↦ elim (answer.body) [
            | none ↦ some (record {
              runtime = runtime;
              metrics = counted;
              response = error 502 (str "upstream read failed") correlation;
            })
            | some body ↦
                elim (stores runtime.cache cache_key status (header_pairs (iter out)) body) [
                  | none ↦ none
                  | some cache ↦ some (record {
                    runtime = record runtime { cache = cache };
                    metrics = counted;
                    response = record { status = status; headers = missed; body = bytes body };
                  })
                ]
          ]
          | false ↦ some (record {
            runtime = runtime;
            metrics = counted;
            response = record {
              status = status;
              headers = if cache_enabled then missed else out;
              body = stream answer.body;
            };
          })
        ]

    -- What storing leaves of a cache, and `finish_response` of the rest, where `put` returns.
    abbrev pub store_in :
        Option ResponseCache → Str → ℕ → List (Str × Str) → Str → Option ResponseCache
    store_in none key status pairs body = none
    store_in (some c) key status pairs body =
        some (after_put iter_entries c key status pairs body now later)

    unfoldable pub finished_response :
        RouteRuntime → Str → Str → ℕ → Answer → Bool → Str → Str → Served
    finished_response runtime route method status answer cache_enabled cache_key correlation =
        let out = filtered_response_headers h answer.headers in
        let out = apply_transforms h out runtime.config.response_headers in
        let out = set_header h out correlation_header correlation in
        let missed = set_header h out (str "x-cache") (str "MISS") in
        let counted = record_request route method status in
        let store =
          cache_enabled
          && ((status == 200) && (is_some runtime.cache && response_cacheable h answer.headers)) in
        elim store [
          | true ↦ elim (answer.body) [
            | none ↦ record {
              runtime = runtime;
              metrics = counted;
              response = error 502 (str "upstream read failed") correlation;
            }
            | some body ↦ record {
              runtime = record runtime {
                cache = store_in runtime.cache cache_key status (header_pairs (iter out)) body;
              };
              metrics = counted;
              response = record { status = status; headers = missed; body = bytes body };
            }
          ]
          | false ↦ record {
            runtime = runtime;
            metrics = counted;
            response = record {
              status = status;
              headers = if cache_enabled then missed else out;
              body = stream answer.body;
            };
          }
        ]
