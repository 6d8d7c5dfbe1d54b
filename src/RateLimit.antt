-- ===== src/RateLimit.antt =====
-- The rate limiters of crates/gateway/src/ratelimit.rs. A check of the in-memory limiter holds its
-- mutex throughout, so it is one step on the map of windows; the clock is an argument.
pub mod Interface
pub mod Redis
pub mod Budget
pub mod Keys
pub mod RedisBudget
pub mod Tests
use rust_api_gateway.Base.{
  ℕ, ◌+◌, ◌-◌, min, Bool, Option, none, some, List, [], ◌∷◌, Str, HashMap, lookup, insert, add_u32,
  as_secs, if◌then◌else◌, leb,
}

pub record RateDecision : Type 0 where
  pub allowed : Bool
  pub limit : ℕ
  pub remaining : ℕ
  pub reset_secs : ℕ

-- The start of a window and the requests counted in it.
pub record Window : Type 0 where
  pub start : ℕ
  pub used : ℕ

-- `entry(key).or_insert((now, 0))`
abbrev pub or_new : Option Window → ℕ → Window
or_new none now = record { start = now; used = 0 }
or_new (some w) now = w

-- The entry after the reset of a window that has passed and the count of one request.
unfoldable pub count_in : Option Window → ℕ → ℕ → Window
count_in entry window now =
    let w = or_new entry now in
    let current = if leb window (now - w.start) then record { start = now; used = 0 } else w in
    record current { used = add_u32 current.used 1 }

abbrev pub decide : ℕ → ℕ → ℕ → RateDecision
decide used limit reset = record {
  allowed = leb used limit;
  limit = limit;
  remaining = limit - min used limit;
  reset_secs = reset;
}

-- `InMemoryLimiter::check`
unfoldable pub check : HashMap Window → Str → (limit window now : ℕ) → HashMap Window × RateDecision
check windows key limit window now =
    let w = count_in (lookup key windows) window now in
    (insert key w windows, decide w.used limit (as_secs (window - (now - w.start))))

-- A request that reaches the limiter.
pub record Request : Type 0 where
  pub key : Str
  pub limit : ℕ
  pub window : ℕ
  pub now : ℕ

-- The decisions on a sequence of requests.
unfoldable pub check_all : HashMap Window → List Request → List RateDecision
check_all windows [] = []
check_all windows (r ∷ rs) =
    let (windows', d) = check windows r.key r.limit r.window r.now in d ∷ check_all windows' rs
