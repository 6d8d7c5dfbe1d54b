-- ===== src/Cache/Keys.antt =====
-- Different requests have different cache keys.
use rust_api_gateway.Base.{◌≡◌, Str, Lacks, eq_before, eq_after}
use rust_api_gateway.Cache.{key}

abbrev pub NoSpace : Str → Type 0
NoSpace = Lacks 32

-- Methods and request targets hold no space; a host may. Then two requests share a cache key only
-- if they have the same method, host and target.
pub key_injective :
    (method method' host host' target target' : Str)
    → NoSpace method
    → NoSpace method'
    → NoSpace target
    → NoSpace target'
    → key method host target ≡ key method' host' target'
    → (method ≡ method') × (host ≡ host') × (target ≡ target')
unfolding key
key_injective m m' h h' t t' a a' b b' e =
    let (p, rest) = eq_before 32 m m' _ _ a a' e in
    let (q, r) = eq_after 32 h h' t t' b b' rest in (p, q, r)
