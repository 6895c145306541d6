-- ===== src/Payment/Adjustment.antt =====
-- The multiplier of modules/transaction_payment/src/lib.rs: `TargetedFeeAdjustment`, which the end of a
-- block applies, and what it does to the fees. The fixed-point numbers are a parameter.
use chain_upgrade.Base.{
  ℕ, ◌+◌, ◌-◌, ◌≡◌, ◌<◌, Bool, true, false, leb, Option, none, some, min, max, u128_max,
  at_least_one,
}
use chain_upgrade.Payment.Fees.{Multiplier, Config}

-- `FixedU128` by its inner number, and the constants of the runtime. `target_of` is the product of the
-- ideal saturation and a weight.
pub record FixedPoint : Type 0 where
  pub saturating_from_rational : ℕ → ℕ → Multiplier
  pub saturating_from_integer : ℕ → Multiplier
  pub saturating_add : Multiplier → Multiplier → Multiplier
  pub saturating_sub : Multiplier → Multiplier → Multiplier
  pub saturating_mul : Multiplier → Multiplier → Multiplier
  pub div : Multiplier → Multiplier → Multiplier
  pub target_of : ℕ → ℕ
  pub variability : Multiplier
  pub minimum : Multiplier

abbrev pub unwrap_or {ℓ} : {A : Type ℓ} → Option A → A → A
unwrap_or (some a) b = a
unwrap_or none b = b

module _ (f : FixedPoint) where
  open f use {
    saturating_from_rational, saturating_from_integer, saturating_add, saturating_sub,
    saturating_mul, div, variability, minimum,
  }

  -- The next multiplier, whether the first term is positive, from the two terms.
  abbrev pub adjusted : Bool → Multiplier → Multiplier → Multiplier → Multiplier
  adjusted true first_term second_term previous =
      let excess = saturating_mul (saturating_add first_term second_term) previous in
      max (saturating_add previous excess) minimum
  adjusted false first_term second_term previous =
      let negative = saturating_mul (saturating_sub first_term second_term) previous in
      max (saturating_sub previous negative) minimum

  -- From the maximum, the weight and the target of a block.
  unfoldable pub adjusted_between : ℕ → ℕ → ℕ → Multiplier → Multiplier
  adjusted_between normal_max_weight block_weight target_weight previous =
      let positive = leb target_weight block_weight in
      let diff_abs = max block_weight target_weight - min block_weight target_weight in
      let diff = saturating_from_rational diff_abs (at_least_one normal_max_weight) in
      let diff_squared = saturating_mul diff diff in
      let v_squared_2 = div (saturating_mul variability variability) (saturating_from_integer 2) in
      let first_term = saturating_mul variability diff in
      let second_term = saturating_mul v_squared_2 diff_squared in
      adjusted positive first_term second_term previous

module _ (c : Config) (f : FixedPoint) where
  abbrev pub normal_max_weight : Option c.Weight → c.Weight
  normal_max_weight max_total = unwrap_or max_total c.max_block

  -- The weight of the block's normal transactions, up to the maximum, and its target.
  abbrev pub block_weight_of : Option c.Weight → c.Weight → ℕ
  block_weight_of max_total normal = c.ref_time (c.weight_min normal (normal_max_weight max_total))

  abbrev pub target_weight_of : Option c.Weight → ℕ
  target_weight_of max_total = f.target_of (c.ref_time (normal_max_weight max_total))

  unfoldable pub next_multiplier : Option c.Weight → c.Weight → Multiplier → Multiplier
  next_multiplier max_total normal previous =
      adjusted_between f (c.ref_time (normal_max_weight max_total))
        (block_weight_of max_total normal) (target_weight_of max_total) (max previous f.minimum)

-- What is documented for the fixed-point numbers.
pub record Saturates (f : FixedPoint) : Type 0 where
  pub saturating_add_lem : (a b : ℕ) → f.saturating_add a b ≡ min u128_max (a + b)
  pub saturating_sub_lem : (a b : ℕ) → f.saturating_sub a b ≡ a - b
  pub saturating_mul_zero : (a : ℕ) → f.saturating_mul a 0 ≡ 0
  pub saturating_zero_mul : (a : ℕ) → f.saturating_mul 0 a ≡ 0
  pub saturating_from_zero : (n : ℕ) → 0 < n → f.saturating_from_rational 0 n ≡ 0
