-- ===== src/Base/Words.antt =====
-- Unsigned machine integers: plain numbers, with saturation and wrap-around written out.
use Prim.Native.Nat.{ℕ, zero, suc, ◌+◌, ◌-◌, ◌*◌, ◌/◌, ◌^◌, ◌≤◌, min}
use native.Mathlib.Nat.{mul-le-mul, mul-le-mul_left, le-div_iff_mul-le, div-mul-le_self}
use native.Mathlib.Omega.{arith}
use mathlib.Core.Path.{◌≡◌}
use mathlib.Core.Option.{Option, none, some}
use chain_upgrade.Base.Tests.{leb, if◌then◌else◌}

abbrev pub u32_max : ℕ
u32_max = 4_294_967_295

abbrev pub u128_max : ℕ
u128_max = 2 ^ 128 - 1

-- `saturating_add` at the maximum `m`; `saturating_sub` is the truncated `◌-◌`.
abbrev pub sat_add : ℕ → ℕ → ℕ → ℕ
sat_add m a b = if leb (a + b) m then a + b else m

abbrev pub sat_mul : ℕ → ℕ → ℕ → ℕ
sat_mul m a b = if leb (a * b) m then a * b else m

-- `wrapping_add` of two numbers of at most the maximum `m`
abbrev pub wrapping_add : ℕ → ℕ → ℕ → ℕ
wrapping_add m a b = if leb (a + b) m then a + b else a + b - (m + 1)

-- `checked_add` at the maximum `m`
abbrev pub checked_add : ℕ → ℕ → ℕ → Option ℕ
checked_add m a b = if leb (a + b) m then some (a + b) else none

-- `checked_sub`
abbrev pub checked_sub : ℕ → ℕ → Option ℕ
checked_sub a b = if leb b a then some (a - b) else none

abbrev pub u64_max : ℕ
u64_max = 2 ^ 64 - 1

-- `x.max(1)`, for a divisor
abbrev pub at_least_one : ℕ → ℕ
at_least_one zero = 1
at_least_one (suc n) = suc n

pub sat_add-min : (m a b : ℕ) → sat_add m a b ≡ min m (a + b)
sat_add-min m a b = ground arith

pub sat_mul-min : (m a b : ℕ) → sat_mul m a b ≡ min m (a * b)
sat_mul-min m a b = ground arith

-- A sum that stops at the maximum is the stopped sum.
pub sat_add_sum :
    (m a b c d : ℕ) → sat_add m (sat_add m (sat_add m a (min m b)) c) d ≡ min m (a + b + c + d)
sat_add_sum m a b c d = ground arith

pub sat_add_mono : (m a b c d : ℕ) → a ≤ c → b ≤ d → sat_add m a b ≤ sat_add m c d
sat_add_mono m a b c d p q = ground arith

pub min_mono : (a b m : ℕ) → a ≤ b → min a m ≤ min b m
min_mono a b m h = omega arith

pub sat_mul_mono : (m a b c d : ℕ) → a ≤ c → b ≤ d → sat_mul m a b ≤ sat_mul m c d
sat_mul_mono m a b c d p q = ground (arith, mul-le-mul p q)

pub at_least_one_pos : (a : ℕ) → 1 ≤ at_least_one a
at_least_one_pos zero = ground arith
at_least_one_pos (suc a) = ground arith

at_least_one_mono : (a b : ℕ) → a ≤ b → at_least_one a ≤ at_least_one b
at_least_one_mono zero b h = at_least_one_pos b
at_least_one_mono (suc a) zero h = ground arith
at_least_one_mono (suc a) (suc b) h = h

-- A larger divisor gives a smaller quotient.
pub div_antitone : (n a b : ℕ) → a ≤ b → n / at_least_one b ≤ n / at_least_one a
div_antitone n a b h = (le-div_iff_mul-le (omega (arith, at_least_one_pos a))).1 (
    omega (
      arith,
      div-mul-le_self n (at_least_one b),
      mul-le-mul_left (n / at_least_one b) (at_least_one_mono a b h),
    ))
