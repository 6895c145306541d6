-- ===== src/Payment/Reserved.antt =====
-- The fees that other modules reserve, charge and refund through `TransactionPayment` of
-- modules/transaction_payment/src/lib.rs.
use chain_upgrade.Base.{
  ◌+◌, ◌≡◌, ◌≤◌, sym, ap, ◌∙◌, subst, false, ok, ◌>>=◌, Result-cases, arith, inl, inr,
}
use chain_upgrade.Substrate.{AccountId, Balance}
use chain_upgrade.Payment.Fees.{Config, PostInfo, Documented, weight_to_fee}
use chain_upgrade.Payment.Charging.{
  FeeCurrency, distribute, reserve_fee, unreserve_fee, unreserve_and_charge_fee, refund_fee,
}
use chain_upgrade.Payment.Settlement.{FeeCurrencyLaws, IsPaidOut, offset_refund_lem, distribute_lem}

module _ {k : FeeCurrency} (laws : FeeCurrencyLaws k) where
  open laws use {withdraw_lem, reserve_lem, unreserve_lem}

  reserve_fee_lem :
      (c : Config) (who : AccountId) (weight : c.Weight) (l m : k.Ledger) (fee : Balance)
      → reserve_fee k c who weight l ≡ ok (fee, m)
      → (k.reserve who (weight_to_fee c weight) l ≡ ok m) × (fee ≡ weight_to_fee c weight)
  unfolding reserve_fee
  reserve_fee_lem c who weight l m fee h =
      elim (Result-cases (k.reserve who (weight_to_fee c weight) l)) [
        | inl (m', done) ↦ (ground arith, ground arith)
        | inr (e, refused) ↦ absurd (ground arith)
      ]

  charge_lem :
      (c : Config) (who : AccountId) (weight : c.Weight) (l m : k.Ledger) (fee : Balance)
      (n : k.Negative)
      → unreserve_and_charge_fee k c who weight l ≡ ok ((fee, n), m)
      → (k.withdraw who (weight_to_fee c weight) false (k.unreserve who (weight_to_fee c weight) l)
          ≡ ok (n, m))
        × (fee ≡ weight_to_fee c weight)
  unfolding unreserve_and_charge_fee
  charge_lem c who weight l m fee n h =
      elim (Result-cases (
        k.withdraw who (weight_to_fee c weight) false
          (k.unreserve who (weight_to_fee c weight) l))) [
            | inl ((n', m'), done) ↦ (ground arith, ground arith)
            | inr (e, refused) ↦ absurd (ground arith)
          ]

  -- A reserved fee that is given back leaves the balances of the account as they were.
  pub unreserve_fee-reserve_fee :
      (c : Config) (who : AccountId) (weight : c.Weight) (l m : k.Ledger) (fee : Balance)
      → reserve_fee k c who weight l ≡ ok (fee, m)
      → (k.free_balance who (unreserve_fee k who fee m) ≡ k.free_balance who l)
        × (k.reserved_balance who (unreserve_fee k who fee m) ≡ k.reserved_balance who l)
  unfolding unreserve_fee
  unreserve_fee-reserve_fee c who weight l m fee h =
      let (done, same) = reserve_fee_lem c who weight l m fee h in
      let held = reserve_lem who (weight_to_fee c weight) l m done in
      let back = unreserve_lem who fee m (omega (arith, held.1, same)) in
      (omega (arith, held.0, back.0, same), omega (arith, held.1, back.1, same))

  refund_fee_lem :
      (c : Config) (who : AccountId) (weight : c.Weight) (n : k.Negative) (l : k.Ledger)
      → weight_to_fee c weight ≤ k.value n
      → (m : k.Ledger) × ((refund_fee k c who weight n l ≡ ok m)
          × IsPaidOut k who (weight_to_fee c weight) (k.value n) 0 l m)
  unfolding refund_fee
  refund_fee_lem c who weight n l small =
      let (r, (between, (done, settled))) =
        offset_refund_lem laws who (weight_to_fee c weight) n l small in
      (
        distribute k r 0 between,
        (
          ap (λ o. o >>= λ x. ok (distribute k x.0 0 x.1)) done,
          (r, (between, (settled, distribute_lem laws r 0 between))),
        ),
      )

  -- A fee that is reserved and then charged is taken once from the free balance, and the reserved balance
  -- is as before. A refund for a weight that is no heavier never fails: the account gets the fee of that
  -- weight back, unless the currency refuses it, and the receiver gets the rest.
  pub refund_fee-unreserve_and_charge_fee :
      {c : Config} {post : PostInfo c} (d : Documented c post) (who : AccountId)
      (weight refunded : c.Weight) (l l₁ l₂ : k.Ledger) (fee charged : Balance) (n : k.Negative)
      → reserve_fee k c who weight l ≡ ok (fee, l₁)
      → unreserve_and_charge_fee k c who weight l₁ ≡ ok ((charged, n), l₂)
      → d.IsLighter refunded weight
      → ((k.free_balance who l₂ + fee ≡ k.free_balance who l)
          × (k.reserved_balance who l₂ ≡ k.reserved_balance who l))
        × ((m : k.Ledger) × ((refund_fee k c who refunded n l₂ ≡ ok m)
              × IsPaidOut k who (weight_to_fee c refunded) fee 0 l₂ m))
  unfolding weight_to_fee
  refund_fee-unreserve_and_charge_fee {c = c} d who weight refunded l l₁ l₂ fee charged n h g
        light =
      let (done, same) = reserve_fee_lem c who weight l l₁ fee h in
      let (taken, also) = charge_lem c who weight l₁ l₂ charged n g in
      let held = reserve_lem who (weight_to_fee c weight) l l₁ done in
      let back = unreserve_lem who (weight_to_fee c weight) l₁ (omega (arith, held.1)) in
      let paid =
        withdraw_lem who (weight_to_fee c weight) false
          (k.unreserve who (weight_to_fee c weight) l₁) l₂ n taken in
      let small =
        d.weight_to_fee_mono (c.weight_min refunded c.max_block) (c.weight_min weight c.max_block)
          (d.weight_min_mono refunded weight c.max_block light) in
      let (m, (refund, out)) = refund_fee_lem c who refunded n l₂ (omega (arith, paid.0, small)) in
      (
        (omega (arith, held.0, back.0, paid.1.0, same), omega (arith, held.1, back.1, paid.1.1)),
        (
          m,
          (
            refund,
            subst (λ v. IsPaidOut k who (weight_to_fee c refunded) v 0 l₂ m) (paid.0 ∙ sym same)
                out,
          ),
        ),
      )
