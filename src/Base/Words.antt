-- ===== src/Base/Words.antt =====
-- Machine words, instants and durations. An instant or a duration is its number of nanoseconds;
-- `Instant` is read from a clock that the operations take as an argument.
use Prim.Native.Nat.{ℕ, ◌+◌, ◌*◌, ◌/◌, ◌%◌, ◌<◌, ◌≤◌}

abbrev pub u32_mod : ℕ
u32_mod = 4294967296

abbrev pub u64_mod : ℕ
u64_mod = 18446744073709551616

-- Overflow wraps in a release build.
abbrev pub add_u32 : ℕ → ℕ → ℕ
add_u32 a b = (a + b) % u32_mod

abbrev pub add_u64 : ℕ → ℕ → ℕ
add_u64 a b = (a + b) % u64_mod

abbrev pub nanos_per_sec : ℕ
nanos_per_sec = 1000000000

-- `Duration::from_secs` and `Duration::as_secs`.
abbrev pub from_secs : ℕ → ℕ
from_secs s = s * nanos_per_sec

abbrev pub as_secs : ℕ → ℕ
as_secs d = d / nanos_per_sec

-- Where the instants end: the seconds of an `Instant` are an i64 on Linux. `Instant + Duration` panics
-- beyond.
abbrev pub instant_end : ℕ
instant_end = 9223372036854775808 * nanos_per_sec

-- Instants that come early enough, and durations that are short enough, for a sum before that end.
abbrev pub IsEarly : ℕ → Type 0
IsEarly t = t < 4611686018427387904 * nanos_per_sec

abbrev pub IsShort : ℕ → Type 0
IsShort d = d ≤ 4611686018427387904 * nanos_per_sec
