-- ===== src/RateLimit/Budget.antt =====
-- How many requests a window of the in-memory limiter of crates/gateway/src/ratelimit.rs admits.
use rust_api_gateway.Base.{
  ℕ, suc, ◌+◌, ◌-◌, ◌*◌, ◌≤◌, ◌<◌, min, ◌≡◌, refl, sym, ap, ◌∙◌, true, Option, none, some, List, [],
  ◌∷◌, Str, HashMap, lookup, insert, lookup-insert, str_eq_refl, length, All, arith, u32_mod,
  nanos_per_sec, leb, Bool-cases, ◌⊎◌, inl, inr,
}
use rust_api_gateway.RateLimit.{Window, Request, count_in, check, check_all}
use rust_api_gateway.RateLimit.Interface.{admitted, RateLimiter, checks, admitted-checks}

-- Requests for one key with one limit and one window length, at the given times.
abbrev pub requests : Str → ℕ → ℕ → List ℕ → List Request
requests key limit window [] = []
requests key limit window (t ∷ ts) =
    record { key = key; limit = limit; window = window; now = t } ∷ requests key limit window ts

count_in-open :
    (entry : Option Window) (w : Window) (window now : ℕ)
    → entry ≡ some w
    → now - w.start < window
    → w.used + 1 < u32_mod
    → count_in entry window now ≡ record w { used = suc w.used }
unfolding count_in
count_in-open entry w window now e h k = rw e (ground arith)

-- A window that is new or that has passed counts from one.
pub count_in-fresh :
    (entry : Option Window) (window now : ℕ)
    → ((entry ≡ none) ⊎ ((w : Window) × (entry ≡ some w) × (window ≤ now - w.start)))
    → count_in entry window now ≡ record { start = now; used = 1 }
unfolding count_in
count_in-fresh entry window now (inl e) = rw e (ground arith)
count_in-fresh entry window now (inr (w, e, h)) = rw e (ground arith)

-- The window of a key is open at a time.
abbrev pub IsOpen : Str → ℕ → HashMap Window → ℕ → Type 0
IsOpen key window m now = (w : Window) × (lookup key m ≡ some w) × (now - w.start < window)

-- How many requests are counted for a key.
abbrev used : Str → HashMap Window → ℕ
used key m = elim (lookup key m) [ none ↦ 0 | some w ↦ w.used ]

used_at :
    (key : Str) (m : HashMap Window) (w : Window) → lookup key m ≡ some w → used key m ≡ w.used
used_at key m w at = rw (at, used) refl

All-IsOpen :
    (key : Str) (m : HashMap Window) (window : ℕ) (w : Window) (ts : List ℕ)
    → lookup key m ≡ some w
    → All (λ t. t - w.start < window) ts
    → All (IsOpen key window m) ts
All-IsOpen key m window w [] at a = tt
All-IsOpen key m window w (t ∷ ts) at (o, a) = ((w, at, o), All-IsOpen key m window w ts at a)

check-open :
    (now : ℕ) (m : HashMap Window) (key : Str) (limit window : ℕ) (w : Window)
    → lookup key m ≡ some w
    → now - w.start < window
    → w.used + 1 < u32_mod
    → let next : Window = record w { used = suc w.used } in
      (lookup key (check m key limit window now).0 ≡ some next)
      × ((check m key limit window now).1.allowed ≡ leb (suc w.used) limit)
unfolding check
check-open now m key limit window w at o h =
    let next : Window = record w { used = suc w.used } in
    let counted = count_in-open (lookup key m) w window now at o h in
    (rw counted (ground (arith, lookup-insert key key next m, str_eq_refl key)), rw counted refl)

check-stays :
    (now later : ℕ) (m : HashMap Window) (key : Str) (limit window : ℕ)
    → IsOpen key window m now
    → IsOpen key window m later
    → IsOpen key window (check m key limit window now).0 later
unfolding check count_in
check-stays now later m key limit window (w, at, o) (w', at', o') =
    let next = count_in (lookup key m) window now in
    let one : w' ≡ w = ground (arith, at, at') in
    let same : next.start ≡ w.start = rw (at, count_in) (ground (arith, o)) in
    (
      next,
      ground (arith, lookup-insert key key next m, str_eq_refl key),
      rw same (ground (arith, one, o')),
    )

check-counts :
    (now : ℕ) (m : HashMap Window) (key : Str) (limit window : ℕ)
    → IsOpen key window m now
    → used key m + 1 < u32_mod
    → (used key (check m key limit window now).0 ≡ suc (used key m))
      × ((check m key limit window now).1.allowed ≡ leb (suc (used key m)) limit)
check-counts now m key limit window (w, at, o) h =
    let same = used_at key m w at in
    let next : Window = record w { used = suc w.used } in
    let (there, allowed) = check-open now m key limit window w at o (omega (arith, same)) in
    (
      used_at key (check m key limit window now).0 next there ∙ ap suc (sym same),
      allowed ∙ ap (λ n. leb (suc n) limit) (sym same),
    )

-- The limiter in memory.
in_memory : RateLimiter (HashMap Window)
in_memory = record {
  check = λ now m key limit window. check m key limit window now;
  used = used;
  IsOpen = IsOpen;
  counts = λ now m key limit window o h. (check-counts now m key limit window o h).0;
  decides = λ now m key limit window o h. (check-counts now m key limit window o h).1;
  stays = check-stays;
}

checks-in_memory :
    (m : HashMap Window) (key : Str) (limit window : ℕ) (ts : List ℕ)
    → check_all m (requests key limit window ts) ≡ checks in_memory key limit window m ts
unfolding check_all checks in_memory
checks-in_memory m key limit window [] = refl
checks-in_memory m key limit window (t ∷ ts) =
    ap (λ ds. (check m key limit window t).1 ∷ ds)
      (checks-in_memory (check m key limit window t).0 key limit window ts)

-- Within the window that is open for a key, the requests are counted on.
admitted-open :
    (m : HashMap Window) (key : Str) (limit window : ℕ) (w : Window) (ts : List ℕ)
    → lookup key m ≡ some w
    → All (λ t. t - w.start < window) ts
    → w.used + length ts < u32_mod
    → admitted (check_all m (requests key limit window ts))
      ≡ min limit (w.used + length ts) - min limit w.used
unfolding in_memory
admitted-open m key limit window w ts at a h =
    let same = used_at key m w at in
    ap admitted (checks-in_memory m key limit window ts)
    ∙ admitted-checks in_memory key limit window m ts (All-IsOpen key m window w ts at a)
        (omega (arith, same))
    ∙ ap (λ n. min limit (n + length ts) - min limit n) same

-- From the first request on, when the key is new or its window has passed, and as long as the
-- window lasts, exactly the first `limit` requests are allowed.
pub admitted-check_all :
    (windows : HashMap Window) (key : Str) (limit window t : ℕ) (ts : List ℕ)
    → ((lookup key windows ≡ none)
        ⊎ ((w : Window) × (lookup key windows ≡ some w) × (window ≤ t - w.start)))
    → All (λ s. s - t < window) ts
    → suc (length ts) < u32_mod
    → admitted (check_all windows (requests key limit window (t ∷ ts)))
      ≡ min limit (suc (length ts))
unfolding check_all check
admitted-check_all windows key limit window t ts e a h =
    let first : Window = record { start = t; used = 1 } in
    let counted = count_in-fresh (lookup key windows) window t e in
    let rest =
      admitted-open (insert key first windows) key limit window first ts
        (ground (arith, lookup-insert key key first windows, str_eq_refl key)) a (omega arith) in
    rw counted (ground (arith, rest))

-- What a decision tells the client is consistent: the remainder is what the limit leaves, an
-- exhausted request has none, the limit is that of the route, and the reset lies within the window.
pub check_bounds :
    (windows : HashMap Window) (key : Str) (limit window now : ℕ)
    → let d = (check windows key limit window now).1 in
      (d.remaining ≤ d.limit)
      × (d.limit ≡ limit)
      × ((d.allowed ≡ true) ⊎ (d.remaining ≡ 0))
      × (d.reset_secs * nanos_per_sec ≤ window)
unfolding check
check_bounds windows key limit window now =
    let w = count_in (lookup key windows) window now in
    (
      ground arith,
      refl,
      elim (Bool-cases (leb w.used limit)) [
        | inl within ↦ inl within
        | inr beyond ↦ inr (ground arith)
      ],
      ground arith,
    )
