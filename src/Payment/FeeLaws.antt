-- ===== src/Payment/FeeLaws.antt =====
-- What the fees of modules/transaction_payment/src/lib.rs satisfy: the fee after the dispatch is not
-- higher than the fee before it, a fee covers its tip, and heavier transactions do not come first.
use chain_upgrade.Base.{
  ℕ, ◌/◌, ◌*◌, ◌+◌, ◌≡◌, ◌≤◌, ◌≢◌, refl, ap, ◌∙◌, arith, sat_add, sat_mul, sat_mul-min, sat_add_sum,
  sat_mul_mono, min_mono, div_antitone, min, at_least_one, u128_max, u64_max,
}
use chain_upgrade.Substrate.{Balance}
use chain_upgrade.Payment.Fees.{
  Multiplier, Pays, yes, no, Config, DispatchInfo, PostDispatchInfo, PostInfo, Documented,
  weight_to_fee, convert, compute_fee, compute_fee_details, compute_actual_fee_details,
  compute_fee_raw, compute_actual_fee, get_priority,
}

yes≢no : yes ≢ no
yes≢no p = ground arith

module _ {c : Config} {post : PostInfo c} (d : Documented c post) where
  open d use {
    IsLighter, weight_min_mono, weight_to_fee_mono, saturating_mul_int_mono, final_fee_none,
    final_fee_some, calc_actual_weight_le, pays_fee_lem,
  }

  raw_yes :
      (len : ℕ) (w : c.Weight) (tip : Balance) (k : c.Class) (next : Multiplier)
      → c.final_fee (compute_fee_raw c len w tip yes k next)
        ≡ min u128_max (
            weight_to_fee c (c.base_extrinsic k)
            + c.transaction_byte_fee * len
            + convert c w next
            + tip)
  unfolding compute_fee_raw convert
  raw_yes len w tip k next =
      let base = weight_to_fee c (c.base_extrinsic k) in
      let fee = c.saturating_mul_int next (weight_to_fee c w) in
      final_fee_some base (sat_mul u128_max c.transaction_byte_fee len) fee tip
      ∙ ap (λ l. sat_add u128_max (sat_add u128_max (sat_add u128_max base l) fee) tip)
          (sat_mul-min u128_max c.transaction_byte_fee len)
      ∙ sat_add_sum u128_max base (c.transaction_byte_fee * len) fee tip

  raw_no :
      (len : ℕ) (w : c.Weight) (tip : Balance) (k : c.Class) (next : Multiplier)
      → c.final_fee (compute_fee_raw c len w tip no k next) ≡ tip
  unfolding compute_fee_raw
  raw_no len w tip k next = final_fee_none tip

  -- The fee of a transaction that pays is the documented sum of the fee of its class, of its length and
  -- of its weight, and of the tip, stopped at the maximum of balances; any other pays the tip.
  pub compute_fee_lem :
      (len : ℕ) (info : DispatchInfo c) (tip : Balance) (next : Multiplier)
      → ((info.pays_fee ≡ yes)
          → compute_fee c len info tip next
            ≡ min u128_max (
                weight_to_fee c (c.base_extrinsic info.class)
                + c.transaction_byte_fee * len
                + convert c info.weight next
                + tip))
        × ((info.pays_fee ≡ no) → compute_fee c len info tip next ≡ tip)
  unfolding compute_fee compute_fee_details
  compute_fee_lem len info tip next = (
    (λ y.
        ap (λ p. c.final_fee (compute_fee_raw c len info.weight tip p info.class next)) y
        ∙ raw_yes len info.weight tip info.class next),
    (λ n.
        ap (λ p. c.final_fee (compute_fee_raw c len info.weight tip p info.class next)) n
        ∙ raw_no len info.weight tip info.class next),
  )

  convert_mono :
      (w v : c.Weight) (next : Multiplier) → IsLighter w v → convert c w next ≤ convert c v next
  unfolding convert weight_to_fee
  convert_mono w v next h =
      let wm = c.weight_min w c.max_block in
      let vm = c.weight_min v c.max_block in
      saturating_mul_int_mono next (c.weight_to_fee wm) (c.weight_to_fee vm)
        (weight_to_fee_mono wm vm (weight_min_mono w v c.max_block h))

  raw_mono :
      (len : ℕ) (w v : c.Weight) (tip : Balance) (p q : Pays) (k : c.Class) (next : Multiplier)
      → tip ≤ u128_max
      → (q ≡ no → p ≡ no)
      → IsLighter w v
      → c.final_fee (compute_fee_raw c len w tip p k next)
        ≤ c.final_fee (compute_fee_raw c len v tip q k next)
  raw_mono len w v tip yes yes k next small pays h =
      omega (arith, raw_yes len w tip k next, raw_yes len v tip k next, convert_mono w v next h)
  raw_mono len w v tip no yes k next small pays h =
      omega (arith, raw_no len w tip k next, raw_yes len v tip k next)
  raw_mono len w v tip yes no k next small pays h = absurd (yes≢no (pays refl))
  raw_mono len w v tip no no k next small pays h =
      omega (arith, raw_no len w tip k next, raw_no len v tip k next)

  -- The fee that a finished dispatch owes is at most the fee that was announced before it.
  pub compute_actual_fee-compute_fee :
      (len : ℕ) (info : DispatchInfo c) (post_info : PostDispatchInfo c) (tip : Balance)
      (next : Multiplier)
      → tip ≤ u128_max
      → compute_actual_fee c post len info post_info tip next ≤ compute_fee c len info tip next
  unfolding compute_actual_fee compute_actual_fee_details compute_fee compute_fee_details
  compute_actual_fee-compute_fee len info post_info tip next small =
      raw_mono len (post.calc_actual_weight post_info info) info.weight tip
        (post.pays_fee post_info info) info.pays_fee info.class next small
        (pays_fee_lem post_info info) (calc_actual_weight_le post_info info)

-- Of two transactions of the same fee, the one that is longer and takes more time has no higher
-- priority; a higher fee gives no lower priority.
pub get_priority_antitone :
    (c : Config) (light heavy : DispatchInfo c) (short long : ℕ) (less more : Balance)
    → c.ref_time light.weight ≤ c.ref_time heavy.weight
    → short ≤ long
    → less ≤ more
    → get_priority c heavy long less ≤ get_priority c light short more
unfolding get_priority
get_priority_antitone c light heavy short long less more p q r =
    let a =
      div_antitone (c.ref_time c.max_block) (c.ref_time light.weight) (c.ref_time heavy.weight) p in
    let b = div_antitone c.max_length short long q in
    let slow =
      min (c.ref_time c.max_block / at_least_one (c.ref_time heavy.weight))
        (c.max_length / at_least_one long) in
    let fast =
      min (c.ref_time c.max_block / at_least_one (c.ref_time light.weight))
        (c.max_length / at_least_one short) in
    let le : slow ≤ fast = omega (arith, a, b) in
    min_mono (sat_mul u128_max less slow) (sat_mul u128_max more fast) u64_max
      (sat_mul_mono u128_max less slow more fast r le)
