-- ===== src/Proxy/Correlation.antt =====
-- The correlation id of the responses.
use rust_api_gateway.Base.{
  ℕ, ◌≡◌, ◌≢◌, refl, ap, ◌∙◌, inl, inr, Bool, true, false, Bool-cases, some, Option-cases, Str, str,
  str_ne_iff, str_eq, HashMap, to_ascii_lowercase, texts, ◌&&◌, ◌==◌,
}
use rust_api_gateway.Headers.{Http, HttpLaws, is_plain_name, is_visible}
use rust_api_gateway.Cache.{CachedResponse}
use rust_api_gateway.Transform.{get_str, text_of, set}
use rust_api_gateway.Transform.Forwarding.{set-get_ne, set-get_str}
use rust_api_gateway.State.{RouteRuntime}
use rust_api_gateway.Proxy.{set_header, response_cacheable}
use rust_api_gateway.Proxy.Responses.{
  Response, Answer, correlation_header, is_some, error, add_ratelimit_headers, cached_response,
  finished_response, decimal,
}
use rust_api_gateway.Proxy.Handler.{Request, correlation_of}

module _ (h : Http) (laws : HttpLaws h) where
  -- A plain name is a header name, so that `set_header` writes what `set` does.
  set_header-set :
      (m : h.HeaderMap) (name value : Str)
      → is_plain_name name ≡ true
      → set_header h m name value ≡ set h m name value
  unfolding set_header set
  set_header-set m name value p = rw (laws.from_bytes_plain name p, set_header) refl

  set_header-get_str :
      (m : h.HeaderMap) (name value : Str)
      → is_plain_name name ≡ true
      → to_ascii_lowercase name ≡ name
      → is_visible value ≡ true
      → get_str h (set_header h m name value) name ≡ some value
  set_header-get_str m name value p l vis =
      ap (λ x. get_str h x name) (set_header-set m name value p)
      ∙ set-get_str h laws m name value p l vis

  set_header-get_ne :
      (m : h.HeaderMap) (name value s : Str)
      → is_plain_name name ≡ true
      → name ≢ to_ascii_lowercase s
      → get_str h (set_header h m name value) s ≡ get_str h m s
  set_header-get_ne m name value s p ne =
      ap (λ x. get_str h x s) (set_header-set m name value p)
      ∙ ap (text_of h) (set-get_ne h laws m name value s p ne)

  -- The id of a request is visible text, as those that are made for it are.
  correlation_of-visible :
      (req : Request h) → is_visible req.new_id ≡ true → is_visible (correlation_of h req) ≡ true
  correlation_of-visible req fresh = elim (Option-cases (h.get req.headers correlation_header)) [
    | inl none_given ↦ rw none_given fresh
    | inr (v, given) ↦ elim (Option-cases (h.to_str v)) [
      | inl opaque ↦ rw given (rw opaque fresh)
      | inr (s, read) ↦ rw given (rw read (laws.to_str_visible v s read))
    ]
  ]

  module _ (req : Request h) (fresh : is_visible req.new_id ≡ true) where
    -- The response carries the id that the request brought, or the one that was made for it.
    abbrev pub IsCorrelated : Response h → Type 0
    IsCorrelated r = get_str h r.headers correlation_header ≡ some (correlation_of h req)

    correlated :
        (m : h.HeaderMap)
        → get_str h (set_header h m correlation_header (correlation_of h req)) correlation_header
          ≡ some (correlation_of h req)
    unfolding texts
    correlated m =
        set_header-get_str m correlation_header (correlation_of h req) refl refl
          (correlation_of-visible req fresh)

    kept :
        (m : h.HeaderMap) (name value : Str)
        → is_plain_name name ≡ true
        → str_eq name (to_ascii_lowercase correlation_header) ≡ false
        → get_str h (set_header h m name value) correlation_header ≡ get_str h m correlation_header
    kept m name value p ne =
        set_header-get_ne m name value correlation_header p ((str_ne_iff _ _).0 ne)

    pub error-IsCorrelated :
        (status : ℕ) (message : Str) → IsCorrelated (error h status message (correlation_of h req))
    unfolding error
    error-IsCorrelated status message = correlated _

    pub add_ratelimit_headers-kept :
        (m : h.HeaderMap) (limit remaining reset : ℕ)
        → get_str h (add_ratelimit_headers h m limit remaining reset) correlation_header
          ≡ get_str h m correlation_header
    unfolding add_ratelimit_headers texts str_eq
    add_ratelimit_headers-kept m limit remaining reset =
        kept _ (str "retry-after") (decimal reset) refl refl
        ∙ kept _ (str "x-ratelimit-reset") (decimal reset) refl refl
        ∙ kept _ (str "x-ratelimit-remaining") (decimal remaining) refl refl
        ∙ kept m (str "x-ratelimit-limit") (decimal limit) refl refl

    pub cached_response-IsCorrelated :
        (entry : CachedResponse) (rt : RouteRuntime)
        → IsCorrelated (cached_response h entry rt (correlation_of h req))
    unfolding cached_response
    cached_response-IsCorrelated entry rt = correlated _

    module _ (iter : HashMap CachedResponse → HashMap CachedResponse) (now later : ℕ) where
      missed-kept :
          (m : h.HeaderMap)
          → get_str h (set_header h m (str "x-cache") (str "MISS")) correlation_header
            ≡ get_str h m correlation_header
      unfolding texts str_eq
      missed-kept m = kept m (str "x-cache") (str "MISS") refl refl

      pub finished_response-IsCorrelated :
          (rt : RouteRuntime) (name method : Str) (status : ℕ) (answer : Answer h) (enabled : Bool)
          (key : Str)
          → IsCorrelated
              (finished_response h iter now later rt name method status answer enabled key
                (correlation_of h req)).response
      unfolding finished_response
      finished_response-IsCorrelated rt name method status answer enabled key =
          elim (Bool-cases (
            enabled
            && ((status == 200) && (is_some rt.cache && response_cacheable h answer.headers)))) [
              | inr skipped ↦ elim (Bool-cases enabled) [
                | inl on ↦ rw (skipped, finished_response) (rw on (missed-kept _ ∙ correlated _))
                | inr off ↦ rw (skipped, finished_response) (rw off (correlated _))
              ]
              | inl stored ↦ elim (Option-cases (answer.body)) [
                | inl broken ↦
                    rw (stored, finished_response)
                      (rw broken (error-IsCorrelated 502 (str "upstream read failed")))
                | inr (body, read) ↦
                    rw (stored, finished_response) (rw read (missed-kept _ ∙ correlated _))
              ]
            ]
