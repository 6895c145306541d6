-- ===== src/Payment/Fees.antt =====
-- The fee of a transaction, as modules/transaction_payment/src/lib.rs computes it. Weights, fixed-point
-- numbers and the fee details of the payment library are parameters, with what is documented for them.
use chain_upgrade.Base.{
  ℕ, ◌/◌, ◌≡◌, ◌≤◌, Option, none, some, sat_add, sat_mul, min, at_least_one, u128_max, u64_max,
}
use chain_upgrade.Substrate.{Balance}

-- The inner number of a `FixedU128`.
abbrev pub Multiplier : Type 0
Multiplier = ℕ

pub data Pays : Type 0 where
  yes : Pays
  no : Pays

pub record InclusionFee : Type 0 where
  pub base_fee : Balance
  pub len_fee : Balance
  pub adjusted_weight_fee : Balance

pub record FeeDetails : Type 0 where
  pub inclusion_fee : Option InclusionFee
  pub tip : Balance

-- The runtime's configuration, and the operations of the libraries.
pub record Config : Type 1 where
  pub Weight : Type 0
  pub ref_time : Weight → ℕ
  pub weight_min : Weight → Weight → Weight
  pub Class : Type 0
  pub max_block : Weight
  pub base_extrinsic : Class → Weight
  -- The maximal length of a block's normal transactions.
  pub max_length : ℕ
  pub transaction_byte_fee : Balance
  pub weight_to_fee : Weight → Balance
  -- `FixedU128::saturating_mul_int`
  pub saturating_mul_int : Multiplier → Balance → Balance
  -- `FeeDetails::final_fee`
  pub final_fee : FeeDetails → Balance

pub record DispatchInfo (c : Config) : Type 0 where
  pub weight : c.Weight
  pub class : c.Class
  pub pays_fee : Pays

pub record PostDispatchInfo (c : Config) : Type 0 where
  pub actual_weight : Option c.Weight
  pub pays_fee : Pays

-- What frame_support says of a finished dispatch.
pub record PostInfo (c : Config) : Type 0 where
  pub calc_actual_weight : PostDispatchInfo c → DispatchInfo c → c.Weight
  pub pays_fee : PostDispatchInfo c → DispatchInfo c → Pays

module _ (c : Config) where
  open c use {
    Weight, ref_time, weight_min, Class, max_block, base_extrinsic, max_length,
    transaction_byte_fee, saturating_mul_int, final_fee,
  }

  unfoldable pub weight_to_fee : Weight → Balance
  weight_to_fee weight = c.weight_to_fee (weight_min weight max_block)

  -- The length is a `u32`.
  unfoldable pub compute_fee_raw : ℕ → Weight → Balance → Pays → Class → Multiplier → FeeDetails
  unfolding weight_to_fee
  compute_fee_raw len weight tip yes class next_fee_multiplier =
      let fixed_len_fee = sat_mul u128_max transaction_byte_fee len in
      let adjusted_weight_fee = saturating_mul_int next_fee_multiplier (weight_to_fee weight) in
      let base_fee = weight_to_fee (base_extrinsic class) in
      record {
        inclusion_fee = some (record {
          base_fee = base_fee;
          len_fee = fixed_len_fee;
          adjusted_weight_fee = adjusted_weight_fee;
        });
        tip = tip;
      }
  compute_fee_raw len weight tip no class next_fee_multiplier = record {
    inclusion_fee = none;
    tip = tip;
  }

  unfoldable pub compute_fee_details : ℕ → DispatchInfo c → Balance → Multiplier → FeeDetails
  unfolding compute_fee_raw
  compute_fee_details len info tip next =
      compute_fee_raw len info.weight tip info.pays_fee info.class next

  unfoldable pub compute_fee : ℕ → DispatchInfo c → Balance → Multiplier → Balance
  unfolding compute_fee_details
  compute_fee len info tip next = final_fee (compute_fee_details len info tip next)

  unfoldable pub compute_actual_fee_details :
      PostInfo c → ℕ → DispatchInfo c → PostDispatchInfo c → Balance → Multiplier → FeeDetails
  unfolding compute_fee_raw
  compute_actual_fee_details post len info post_info tip next =
      compute_fee_raw len (post.calc_actual_weight post_info info) tip
        (post.pays_fee post_info info) info.class next

  unfoldable pub compute_actual_fee :
      PostInfo c → ℕ → DispatchInfo c → PostDispatchInfo c → Balance → Multiplier → Balance
  unfolding compute_actual_fee_details
  compute_actual_fee post len info post_info tip next =
      final_fee (compute_actual_fee_details post len info post_info tip next)

  -- The part of a fee that the weight contributes.
  unfoldable pub convert : Weight → Multiplier → Balance
  unfolding weight_to_fee
  convert weight next = saturating_mul_int next (weight_to_fee weight)

  unfoldable pub get_priority : DispatchInfo c → ℕ → Balance → ℕ
  get_priority info len final =
      let weight_saturation = ref_time max_block / at_least_one (ref_time info.weight) in
      let len_saturation = max_length / at_least_one len in
      let coefficient = min weight_saturation len_saturation in
      min (sat_mul u128_max final coefficient) u64_max

-- What is documented for the parameters: an order of weights, which the conversion to a fee respects,
-- the sum that the final fee is, and that a finished dispatch is never charged more than announced.
pub record Documented (c : Config) (post : PostInfo c) : Type 1 where
  pub IsLighter : c.Weight → c.Weight → Type 0
  pub weight_min_mono :
      (w v m : c.Weight) → IsLighter w v → IsLighter (c.weight_min w m) (c.weight_min v m)
  pub weight_to_fee_mono : (w v : c.Weight) → IsLighter w v → c.weight_to_fee w ≤ c.weight_to_fee v
  pub saturating_mul_int_mono :
      (m : Multiplier) (a b : Balance) → a ≤ b → c.saturating_mul_int m a ≤ c.saturating_mul_int m b
  pub final_fee_none :
      (tip : Balance) → c.final_fee (record { inclusion_fee = none; tip = tip }) ≡ tip
  pub final_fee_some :
      (base len adjusted tip : Balance)
      → c.final_fee (record {
        inclusion_fee =
            some (record { base_fee = base; len_fee = len; adjusted_weight_fee = adjusted });
        tip = tip;
      })
        ≡ sat_add u128_max (sat_add u128_max (sat_add u128_max base len) adjusted) tip
  pub calc_actual_weight_le :
      (p : PostDispatchInfo c) (info : DispatchInfo c)
      → IsLighter (post.calc_actual_weight p info) info.weight
  pub pays_fee_lem :
      (p : PostDispatchInfo c) (info : DispatchInfo c)
      → info.pays_fee ≡ no
      → post.pays_fee p info ≡ no
