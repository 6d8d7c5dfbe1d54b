-- ===== src/Proxy/Served.antt =====
-- What each stage of the pipeline leaves of the runtime of its route, and what it counts.
use rust_api_gateway.Base.{
  ℕ, ◌≡◌, refl, ap, ◌∙◌, ◌⊎◌, inl, inr, Bool, true, false, Bool-cases, ◌&&◌, Option, none, some,
  Option-cases, List, [], ◌∷◌, ◌++◌, map, Str, HashMap, arith, ◌==◌,
}
use rust_api_gateway.Headers.{Http}
use rust_api_gateway.Balancer.Order.{IsBalancer}
use rust_api_gateway.Cache.{CachedResponse, ResponseCache, Iterates, after_put}
use rust_api_gateway.Cache.Capacity.{IsBounded, after_put-IsBounded}
use rust_api_gateway.State.{RouteRuntime}
use rust_api_gateway.Proxy.{response_cacheable}
use rust_api_gateway.Proxy.Attempts.{Note}
use rust_api_gateway.Proxy.Responses.{
  Metric, connection_opened, connection_closed, request_counted, gateway_latency, auth_rejection,
  rate_limit_rejection, cache_hit, cache_miss, in_loop, Answer, Served, is_some, store_in,
  record_request, error, finished_response,
}
use rust_api_gateway.Proxy.Handler.{note}
use rust_api_gateway.Proxy.Instants.{ttl_of, KeepsTimes, KeepsTimes-refl}

-- The requests that are counted, with their route, method and status.
abbrev pub counts : List Metric → List (Str × Str × ℕ)
counts [] = []
counts (request_counted route method status ∷ l) = (route, method, status) ∷ counts l
counts (connection_opened ∷ l) = counts l
counts (connection_closed ∷ l) = counts l
counts (gateway_latency r ∷ l) = counts l
counts (auth_rejection r ∷ l) = counts l
counts (rate_limit_rejection r ∷ l) = counts l
counts (cache_hit r ∷ l) = counts l
counts (cache_miss r ∷ l) = counts l
counts (in_loop r n ∷ l) = counts l

pub counts-append : (k l : List Metric) → counts (k ++ l) ≡ counts k ++ counts l
counts-append [] l = refl
counts-append (request_counted route method status ∷ k) l =
    ap (λ x. (route, method, status) ∷ x) (counts-append k l)
counts-append (connection_opened ∷ k) l = counts-append k l
counts-append (connection_closed ∷ k) l = counts-append k l
counts-append (gateway_latency r ∷ k) l = counts-append k l
counts-append (auth_rejection r ∷ k) l = counts-append k l
counts-append (rate_limit_rejection r ∷ k) l = counts-append k l
counts-append (cache_hit r ∷ k) l = counts-append k l
counts-append (cache_miss r ∷ k) l = counts-append k l
counts-append (in_loop r n ∷ k) l = counts-append k l

pub counts-notes : (name : Str) (ns : List Note) → counts (map (in_loop name) ns) ≡ []
counts-notes name [] = refl
counts-notes name (n ∷ ns) = counts-notes name ns

-- The openings (true) and closings (false) of connections.
abbrev pub connections : List Metric → List Bool
connections [] = []
connections (connection_opened ∷ l) = true ∷ connections l
connections (connection_closed ∷ l) = false ∷ connections l
connections (request_counted route method status ∷ l) = connections l
connections (gateway_latency r ∷ l) = connections l
connections (auth_rejection r ∷ l) = connections l
connections (rate_limit_rejection r ∷ l) = connections l
connections (cache_hit r ∷ l) = connections l
connections (cache_miss r ∷ l) = connections l
connections (in_loop r n ∷ l) = connections l

pub connections-append : (k l : List Metric) → connections (k ++ l) ≡ connections k ++ connections l
connections-append [] l = refl
connections-append (connection_opened ∷ k) l = ap (λ x. true ∷ x) (connections-append k l)
connections-append (connection_closed ∷ k) l = ap (λ x. false ∷ x) (connections-append k l)
connections-append (request_counted route method status ∷ k) l = connections-append k l
connections-append (gateway_latency r ∷ k) l = connections-append k l
connections-append (auth_rejection r ∷ k) l = connections-append k l
connections-append (rate_limit_rejection r ∷ k) l = connections-append k l
connections-append (cache_hit r ∷ k) l = connections-append k l
connections-append (cache_miss r ∷ k) l = connections-append k l
connections-append (in_loop r n ∷ k) l = connections-append k l

pub connections-notes : (name : Str) (ns : List Note) → connections (map (in_loop name) ns) ≡ []
connections-notes name [] = refl
connections-notes name (n ∷ ns) = connections-notes name ns

abbrev pub CacheBounded : Option ResponseCache → Type 0
CacheBounded none = Unit
CacheBounded (some c) = IsBounded c

-- A runtime that picks do not panic on, with a cache within its capacity.
pub record IsRuntime (r : RouteRuntime) : Type 0 where
  pub usable : IsBalancer r.balancer
  pub bounded : CacheBounded r.cache

module _ (h : Http) where
  -- The request is counted once, under its route and method, with the status of the response. The
  -- exception is a response whose body cannot be read for the cache: it is counted as a success, and
  -- answered as a failure.
  abbrev pub IsCountedOnce : Str → Str → Served h → Type 0
  IsCountedOnce name method s =
      (counts s.metrics ≡ (name, method, s.response.status) ∷ [])
      ⊎ ((counts s.metrics ≡ (name, method, 200) ∷ []) × (s.response.status ≡ 502))

  -- The request is counted once, no connection is opened or closed, and the runtime stays sound and
  -- keeps its configuration and its durations.
  pub record IsServed (name method : Str) (before : RouteRuntime) (s : Served h) : Type 0 where
    pub sound : IsRuntime s.runtime
    pub same_config : s.runtime.config ≡ before.config
    pub counted : IsCountedOnce name method s
    pub no_connections : connections s.metrics ≡ []
    pub same_times : KeepsTimes before s.runtime

  pub note-IsServed :
      (name method : Str) (before : RouteRuntime) (ms : List Metric) (s : Served h)
      → counts ms ≡ []
      → connections ms ≡ []
      → IsServed name method before s
      → IsServed name method before (note h ms s)
  note-IsServed name method before ms s e f v = record {
    sound = v.sound;
    same_config = v.same_config;
    counted = elim (v.counted) [
      | inl c ↦ inl (counts-append ms s.metrics ∙ rw e c)
      | inr (c, st) ↦ inr (counts-append ms s.metrics ∙ rw e c, st)
    ];
    no_connections = connections-append ms s.metrics ∙ rw f v.no_connections;
    same_times = v.same_times;
  }

  module _ (iter : HashMap CachedResponse → HashMap CachedResponse) (order : Iterates iter)
      (now later : ℕ) where
    store_in-CacheBounded :
        (c : Option ResponseCache) (key : Str) (status : ℕ) (pairs : List (Str × Str)) (body : Str)
        → CacheBounded c
        → CacheBounded (store_in h iter now later c key status pairs body)
    store_in-CacheBounded none key status pairs body b = tt
    store_in-CacheBounded (some c) key status pairs body b =
        after_put-IsBounded iter order c key status pairs body now later b

    store_in-ttl :
        (c : Option ResponseCache) (key : Str) (status : ℕ) (pairs : List (Str × Str)) (body : Str)
        → ttl_of (store_in h iter now later c key status pairs body) ≡ ttl_of c
    unfolding after_put
    store_in-ttl none key status pairs body = refl
    store_in-ttl (some c) key status pairs body = refl

    pub finished_response-IsServed :
        (runtime : RouteRuntime) (name method : Str) (status : ℕ) (answer : Answer h)
        (cache_enabled : Bool) (key correlation : Str)
        → IsRuntime runtime
        → IsServed name method runtime (
            finished_response h iter now later runtime name method status answer cache_enabled key
              correlation)
    unfolding finished_response record_request error
    finished_response-IsServed runtime name method status answer cache_enabled key correlation v =
        elim (Bool-cases (
          cache_enabled
          && ((status == 200) && (is_some runtime.cache && response_cacheable h answer.headers)))) [
            | inr skipped ↦
                rw (skipped, finished_response)
                  (record {
                    sound = v;
                    same_config = refl;
                    counted = inl refl;
                    no_connections = refl;
                    same_times = KeepsTimes-refl runtime;
                  })
            | inl stored ↦
                let fine : status ≡ 200 = ground arith in
                elim (Option-cases (answer.body)) [
                  | inl broken ↦
                      rw (stored, finished_response)
                        (rw broken (record {
                          sound = v;
                          same_config = refl;
                          counted = inr (rw fine refl, refl);
                          no_connections = refl;
                          same_times = KeepsTimes-refl runtime;
                        }))
                  | inr (body, read) ↦
                      rw (stored, finished_response)
                        (rw read (record {
                          sound = record {
                            usable = v.usable;
                            bounded =
                                store_in-CacheBounded runtime.cache key status _ body v.bounded;
                          };
                          same_config = refl;
                          counted = inl refl;
                          no_connections = refl;
                          same_times = record {
                            same_cooldowns = refl;
                            same_ttl = store_in-ttl runtime.cache key status _ body;
                          };
                        }))
                ]
          ]
