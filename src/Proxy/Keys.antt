-- ===== src/Proxy/Keys.antt =====
-- Different subjects have different rate-limit keys.
use rust_api_gateway.Base.{◌≡◌, refl, ◌∷◌, ◌++◌, Str, str, Lacks, eq_before, arith}
use rust_api_gateway.Config.{RateScope, ip, by_key, by_route}
use rust_api_gateway.Headers.{Http}
use rust_api_gateway.Proxy.{scope_text, presented_key, rate_key}

-- What a scope counts requests by.
abbrev pub SameSubject : RateScope → RateScope → (client client' key key' : Str) → Type 0
SameSubject ip ip client client' key key' = client ≡ client'
SameSubject by_route by_route client client' key key' = Unit
SameSubject by_key by_key client client' key key' = key ≡ key'
SameSubject ip by_route client client' key key' = ⊥
SameSubject ip by_key client client' key key' = ⊥
SameSubject by_route ip client client' key key' = ⊥
SameSubject by_route by_key client client' key key' = ⊥
SameSubject by_key ip client client' key key' = ⊥
SameSubject by_key by_route client client' key key' = ⊥

-- The text of a scope after its colon.
abbrev subject : RateScope → Str → Str → Str
subject ip client key = str "ip:" ++ client
subject by_route client key = str "route"
subject by_key client key = str "key:" ++ key

scope_text-subject : (s : RateScope) (c k : Str) → scope_text s c k ≡ b':' ∷ subject s c k
scope_text-subject ip c k = refl
scope_text-subject by_route c k = refl
scope_text-subject by_key c k = refl

subject_injective :
    (s s' : RateScope) (c c' k k' : Str)
    → subject s c k ≡ subject s' c' k'
    → SameSubject s s' c c' k k'
subject_injective ip ip c c' k k' e = ground arith
subject_injective by_route by_route c c' k k' e = tt
subject_injective by_key by_key c c' k k' e = ground arith
subject_injective ip by_route c c' k k' e = absurd (ground arith)
subject_injective ip by_key c c' k k' e = absurd (ground arith)
subject_injective by_route ip c c' k k' e = absurd (ground arith)
subject_injective by_route by_key c c' k k' e = absurd (ground arith)
subject_injective by_key ip c c' k k' e = absurd (ground arith)
subject_injective by_key by_route c c' k k' e = absurd (ground arith)

-- Where the names of routes hold no colon, two requests share a rate-limit key only if they are for
-- the same route with the same scope, and come from the same address, or have the same presented_key, as
-- the scope says. The presented_key of a request without a key is "anon": such requests share a limit
-- with each other and with one that presents the key "anon".
pub rate_key_injective :
    (h : Http) (s s' : RateScope) (route route' client client' : Str)
    (headers headers' : h.HeaderMap)
    → Lacks b':' route
    → Lacks b':' route'
    → rate_key h s route client headers ≡ rate_key h s' route' client' headers'
    → (route ≡ route')
      × SameSubject s s' client client' (presented_key h headers) (presented_key h headers')
unfolding rate_key
rate_key_injective h s s' route route' client client' headers headers' l l' e =
    let key = presented_key h headers in
    let key' = presented_key h headers' in
    let (same, rest) =
      eq_before b':' route route' (subject s client key) (subject s' client' key') l l'
        (rw (scope_text-subject s client key, scope_text-subject s' client' key') at e) in
    (same, subject_injective s s' client client' key key' rest)
