-- ===== src/Base/Int.antt =====
-- `i64` values of replies, and the casts between them and unsigned words.
use Prim.Native.Nat.{ℕ, suc, ◌-◌, ◌%◌}
use rust_api_gateway.Base.Tests.{ltb, if◌then◌else◌}
use rust_api_gateway.Base.Words.{u32_mod, u64_mod}

-- `negsuc n` is -(n + 1).
pub data ℤ : Type 0 where
  pos : ℕ → ℤ
  negsuc : ℕ → ℤ

-- `x.max(0)`, which no longer has a sign.
abbrev pub max_zero : ℤ → ℕ
max_zero (pos n) = n
max_zero (negsuc n) = 0

-- `x as u32` of a number that is not negative.
abbrev pub as_u32 : ℕ → ℕ
as_u32 n = n % u32_mod

-- `x as i64` of a `u64`.
abbrev pub as_i64 : ℕ → ℤ
as_i64 n = if ltb n 9223372036854775808 then pos n else negsuc (u64_mod - suc n)

-- `x as u64` of an `i64`.
abbrev pub as_u64 : ℤ → ℕ
as_u64 (pos n) = n
as_u64 (negsuc n) = u64_mod - suc n
