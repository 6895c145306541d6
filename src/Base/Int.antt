-- ===== src/Base/Int.antt =====
-- Signed integers over the native numbers, and the casts to `i32`.
use Prim.Native.Nat.{ℕ, zero, suc, ◌+◌, ◌-◌, ◌^◌}
use chain_upgrade.Base.Tests.{ltb, ◌==◌, if◌then◌else◌}

-- `negsuc n` is -(n + 1).
pub data ℤ : Type 0 where
  pos : ℕ → ℤ
  negsuc : ℕ → ℤ

-- `n as i32` of a `u32`
abbrev pub as_i32 : ℕ → ℤ
as_i32 n = if ltb n (2 ^ 31) then pos n else negsuc (2 ^ 32 - n - 1)

-- `-i` of an `i32`, which wraps at the minimum.
abbrev pub neg_i32 : ℤ → ℤ
neg_i32 (pos zero) = pos 0
neg_i32 (pos (suc n)) = negsuc n
neg_i32 (negsuc n) = if n == 2 ^ 31 - 1 then negsuc n else pos (n + 1)
