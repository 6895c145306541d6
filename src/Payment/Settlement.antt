-- ===== src/Payment/Settlement.antt =====
-- A refund and what is left of a payment, as modules/transaction_payment/src/lib.rs sets them off and hands
-- the rest on, with what is documented for the imbalances of the currency.
use chain_upgrade.Base.{
  err, String, ℕ, ◌+◌, ◌%◌, ◌^◌, ◌≡◌, ◌≤◌, ◌<◌, ◌⊎◌, inl, inr, refl, ap, ◌∙◌, Bool, ok,
  Result-cases, min, arith,
}
use chain_upgrade.Substrate.{AccountId, Balance}
use chain_upgrade.Payment.Fees.{
  Multiplier, Config, DispatchInfo, PostDispatchInfo, PostInfo, compute_fee, compute_actual_fee,
}
use chain_upgrade.Payment.Charging.{
  SameOrOther, neither, same, other, FeeCurrency, rest_of, payment_after, offset_refund, distribute,
}

-- What is documented for the currency: the free balance that an operation moves, the value of its
-- imbalance, and how imbalances are set off and split.
pub record FeeCurrencyLaws (k : FeeCurrency) : Type 0 where
  pub withdraw_lem :
      (who : AccountId) (a : Balance) (tip : Bool) (l m : k.Ledger) (n : k.Negative)
      → k.withdraw who a tip l ≡ ok (n, m)
      → (k.value n ≡ a)
        × ((k.free_balance who m + a ≡ k.free_balance who l)
            × (k.reserved_balance who m ≡ k.reserved_balance who l))
  pub deposit_lem :
      (who : AccountId) (a : Balance) (l m : k.Ledger) (p : k.Positive)
      → k.deposit_into_existing who a l ≡ ok (p, m)
      → (k.positive_value p ≡ a) × (k.free_balance who m ≡ k.free_balance who l + a)
  pub offset_same :
      (n r : k.Negative) (p : k.Positive)
      → k.offset n p ≡ same r
      → k.value r + k.positive_value p ≡ k.value n
  pub offset_neither :
      (n : k.Negative) (p : k.Positive) → k.offset n p ≡ neither → k.positive_value p ≡ k.value n
  pub offset_other :
      (n : k.Negative) (p q : k.Positive) → k.offset n p ≡ other q → k.value n < k.positive_value p
  pub zero_imbalance_lem : k.value k.zero_imbalance ≡ 0
  pub split_lem :
      (n : k.Negative) (a : Balance)
      → (k.value (k.split n a).0 ≡ min (k.value n) a)
        × (k.value (k.split n a).0 + k.value (k.split n a).1 ≡ k.value n)
  pub reserve_lem :
      (who : AccountId) (a : Balance) (l m : k.Ledger)
      → k.reserve who a l ≡ ok m
      → (k.free_balance who m + a ≡ k.free_balance who l)
        × (k.reserved_balance who m ≡ k.reserved_balance who l + a)
  pub unreserve_lem :
      (who : AccountId) (a : Balance) (l : k.Ledger)
      → a ≤ k.reserved_balance who l
      → (k.free_balance who (k.unreserve who a l) ≡ k.free_balance who l + a)
        × (k.reserved_balance who (k.unreserve who a l) + a ≡ k.reserved_balance who l)

-- The account `who` has got `refund` of `payed` back and `r` is the rest, or the currency refuses the
-- deposit and it gets nothing.
abbrev pub IsSettled :
    (k : FeeCurrency) → AccountId → Balance → Balance → k.Ledger → k.Negative → k.Ledger → Type 0
IsSettled k who refund payed l r m =
    ((k.free_balance who m ≡ k.free_balance who l + refund) × (k.value r + refund ≡ payed))
    ⊎ (((e : String) × (k.deposit_into_existing who refund l ≡ err e))
        × ((m ≡ l) × (k.value r ≡ payed)))

-- What a receiver gets for a payment is the tip and the rest of the payment.
abbrev pub IsHanded : (k : FeeCurrency) → k.Negative → Balance → k.Ledger → k.Ledger → Type 0
IsHanded k r tip l m =
    (first : k.Negative) × ((second : k.Negative) × ((m ≡ k.on_unbalanceds first second l)
        × ((k.value first ≡ min (k.value r) tip) × (k.value first + k.value second ≡ k.value r))))

-- The ledger after a settled payment: the refund, and the rest handed to the receiver in two parts.
abbrev pub IsPaidOut :
    (k : FeeCurrency) → AccountId → Balance → Balance → Balance → k.Ledger → k.Ledger → Type 0
IsPaidOut k who refund payed tip l m =
    (r : k.Negative) × ((between : k.Ledger) × (IsSettled k who refund payed l r between
        × IsHanded k r tip between m))

-- The fee that a transaction announces, and the one that it owes in the end.
abbrev pub announced_fee : (c : Config) → ℕ → DispatchInfo c → Balance → Multiplier → Balance
announced_fee c len info tip next = compute_fee c (len % 2 ^ 32) info tip next

abbrev pub owed_fee :
    (c : Config)
    → PostInfo c
    → ℕ
    → DispatchInfo c
    → PostDispatchInfo c
    → Balance
    → Multiplier
    → Balance
owed_fee c post len info post_info tip next =
    compute_actual_fee c post (len % 2 ^ 32) info post_info tip next

SameOrOther-cases :
    {N P : Type 0} (o : SameOrOther N P)
    → (o ≡ neither) ⊎ (((r : N) × (o ≡ same r)) ⊎ ((q : P) × (o ≡ other q)))
SameOrOther-cases neither = inl refl
SameOrOther-cases (same r) = inr (inl (r, refl))
SameOrOther-cases (other q) = inr (inr (q, refl))

module _ {k : FeeCurrency} (laws : FeeCurrencyLaws k) where
  open laws use {
    withdraw_lem, deposit_lem, offset_same, offset_neither, offset_other, zero_imbalance_lem,
    split_lem, reserve_lem, unreserve_lem,
  }

  -- A refund of at most the payment is settled.
  pub offset_refund_lem :
      (who : AccountId) (refund : Balance) (payed : k.Negative) (l : k.Ledger)
      → refund ≤ k.value payed
      → (r : k.Negative) × ((m : k.Ledger) × ((offset_refund k who refund payed l ≡ ok (r, m))
            × IsSettled k who refund (k.value payed) l r m))
  unfolding offset_refund
  offset_refund_lem who refund payed l small =
      elim (Result-cases (k.deposit_into_existing who refund l)) [
        | inr (e, gone) ↦
            (payed, (l, (ap (λ d. payment_after k d payed l) gone, inr ((e, gone), (refl, refl)))))
        | inl ((p, m), paid) ↦
            let free_of = deposit_lem who refund l m p paid in
            elim (SameOrOther-cases (k.offset payed p)) [
              | inl none_left ↦ (
                k.zero_imbalance,
                (
                  m,
                  (
                    ap (λ d. payment_after k d payed l) paid ∙ ap (λ o. rest_of k o m) none_left,
                    inl (
                      free_of.1,
                      omega
                          (arith, zero_imbalance_lem, offset_neither payed p none_left, free_of.0),
                    ),
                  ),
                ),
              )
              | inr (inl (r, rest)) ↦ (
                r,
                (
                  m,
                  (
                    ap (λ d. payment_after k d payed l) paid ∙ ap (λ o. rest_of k o m) rest,
                    inl (free_of.1, omega (arith, offset_same payed r p rest, free_of.0)),
                  ),
                ),
              )
              | inr (inr (q, over)) ↦ absurd (omega (arith, offset_other payed p q over, free_of.0))
            ]
      ]

  pub distribute_lem :
      (r : k.Negative) (tip : Balance) (l : k.Ledger) → IsHanded k r tip l (distribute k r tip l)
  distribute_lem r tip l = ((k.split r tip).0, ((k.split r tip).1, (refl, split_lem r tip)))
