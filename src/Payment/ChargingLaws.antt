-- ===== src/Payment/ChargingLaws.antt =====
-- What `ChargeTransactionPayment` of modules/transaction_payment/src/lib.rs takes and gives back.
use chain_upgrade.Base.{
  ℕ, ◌+◌, ◌-◌, ◌%◌, ◌^◌, ◌≡◌, ◌≤◌, inl, inr, ap, ◌∙◌, subst, not, [], ◌∷◌, ◌++◌, some, ok, ◌>>=◌,
  Result-cases, ◌==◌, arith, u128_max,
}
use chain_upgrade.Substrate.{AccountId, Balance}
use chain_upgrade.Payment.Fees.{Config, DispatchInfo, PostDispatchInfo, PostInfo, Documented}
use chain_upgrade.Payment.FeeLaws.{compute_actual_fee-compute_fee}
use chain_upgrade.Payment.Charging.{
  FeeCurrency, transaction_fee_paid, State, Pre, distribute, withdraw_fee, pre_dispatch,
  settle_payment, post_dispatch,
}
use chain_upgrade.Payment.Settlement.{
  FeeCurrencyLaws, IsSettled, IsPaidOut, announced_fee, owed_fee, offset_refund_lem, distribute_lem,
}

module _ {CurrencyId : Type 0} {k : FeeCurrency} (laws : FeeCurrencyLaws k) {c : Config}
    {post : PostInfo c} (d : Documented c post) where
  open laws use {withdraw_lem}

  settle_payment_lem :
      (tip : Balance) (who : AccountId) (payed : k.Negative) (fee : Balance) (info : DispatchInfo c)
      (post_info : PostDispatchInfo c) (len : ℕ) (s : State CurrencyId k)
      → k.value payed ≡ fee
      → (m : k.Ledger) × ((settle_payment k c post tip who payed fee info post_info len s
            ≡ ok (record s {
              ledger = m;
              events =
                  s.events
                  ++ transaction_fee_paid who
                      (owed_fee c post len info post_info tip s.next_fee_multiplier)
                      tip
                    ∷ [];
            }))
          × IsPaidOut k who
              (fee - owed_fee c post len info post_info tip s.next_fee_multiplier)
              fee
              tip
              s.ledger
              m)
  unfolding settle_payment
  settle_payment_lem tip who payed fee info post_info len s full =
      let owed = owed_fee c post len info post_info tip s.next_fee_multiplier in
      let (r, (l, (done, settled))) =
        offset_refund_lem laws who (fee - owed) payed s.ledger (omega (arith, full)) in
      (
        distribute k r tip l,
        (
          ap
              (λ o. o >>= λ x. ok (record s {
                ledger = distribute k x.0 tip x.1;
                events = s.events ++ transaction_fee_paid who owed tip ∷ [];
              }))
              done,
          (
            r,
            (
              l,
              (
                subst (λ v. IsSettled k who (fee - owed) v s.ledger r l) full settled,
                distribute_lem laws r tip l,
              ),
            ),
          ),
        ),
      )

  pre_dispatch_lem :
      (tip : Balance) (who : AccountId) (info : DispatchInfo c) (len : ℕ)
      (s s₁ : State CurrencyId k) (pre : Pre CurrencyId k)
      → pre_dispatch k c tip who info len s ≡ ok (pre, s₁)
      → (n : k.Negative) × ((k.withdraw who
              (announced_fee c len info tip s.next_fee_multiplier)
              (not (tip == 0))
              s.ledger
            ≡ ok (n, s₁.ledger))
          × (pre ≡ record {
            tip = tip;
            who = who;
            imbalance = some n;
            fee = announced_fee c len info tip s.next_fee_multiplier;
          }))
  unfolding pre_dispatch withdraw_fee
  pre_dispatch_lem tip who info len s s₁ pre h =
      elim (Result-cases (
        k.withdraw who (announced_fee c len info tip s.next_fee_multiplier) (not (tip == 0))
          s.ledger)) [
            | inl ((n, l), paid) ↦ (n, (ground arith, ground arith))
            | inr (e, refused) ↦ absurd (ground arith)
          ]

  -- A transaction that has paid its fee in advance is settled, whatever its dispatch did to the ledger:
  -- this never fails. The account has paid the announced fee, of which the owed fee is a part, and unless
  -- the currency refuses the deposit it gets the difference back; the receiver gets the tip and the rest
  -- of the payment, and nothing else.
  pub post_dispatch-pre_dispatch :
      (tip : Balance) (who : AccountId) (info : DispatchInfo c) (post_info : PostDispatchInfo c)
      (len : ℕ) (s s₁ s₂ : State CurrencyId k) (pre : Pre CurrencyId k)
      → tip ≤ u128_max
      → pre_dispatch k c tip who info len s ≡ ok (pre, s₁)
      → s₂.next_fee_multiplier ≡ s.next_fee_multiplier
      → (k.free_balance who s₁.ledger + announced_fee c len info tip s.next_fee_multiplier
          ≡ k.free_balance who s.ledger)
        × ((owed_fee c post len info post_info tip s.next_fee_multiplier
              ≤ announced_fee c len info tip s.next_fee_multiplier)
            × ((s₃ : State CurrencyId k) × ((post_dispatch k c post (some pre) info post_info len s₂
                    ≡ ok s₃)
                  × IsPaidOut k who
                      (announced_fee c len info tip s.next_fee_multiplier
                        - owed_fee c post len info post_info tip s.next_fee_multiplier)
                      (announced_fee c len info tip s.next_fee_multiplier)
                      tip
                      s₂.ledger
                      s₃.ledger)))
  unfolding post_dispatch
  post_dispatch-pre_dispatch tip who info post_info len s s₁ s₂ pre small paid same_fee =
      let (n, (withdrawn, is_pre)) = pre_dispatch_lem tip who info len s s₁ pre paid in
      let fee = announced_fee c len info tip s.next_fee_multiplier in
      let taken = withdraw_lem who fee (not (tip == 0)) s.ledger s₁.ledger n withdrawn in
      let (m, (settled, out)) = settle_payment_lem tip who n fee info post_info len s₂ taken.0 in
      let s₃ = record s₂ {
        ledger = m;
        events =
            s₂.events
            ++ transaction_fee_paid who
                (owed_fee c post len info post_info tip s₂.next_fee_multiplier) tip
              ∷ [];
      } in
      (
        taken.1.0,
        (
          compute_actual_fee-compute_fee d (len % 2 ^ 32) info post_info tip s.next_fee_multiplier
              small,
          (
            s₃,
            (
              ap (λ p. post_dispatch k c post (some p) info post_info len s₂) is_pre ∙ settled,
              subst
                  (λ f.
                    IsPaidOut k who (fee - owed_fee c post len info post_info tip f) fee tip
                      s₂.ledger m)
                  same_fee out,
            ),
          ),
        ),
      )
