-- ===== src/Payment/Charging.antt =====
-- How a transaction pays its fee, as `ChargeTransactionPayment` of modules/transaction_payment/src/lib.rs
-- takes it before the dispatch and gives a part back after it. The currency, its imbalances and what
-- receives the fees are parameters. `ensure_can_charge_fee` only reads the state and returns nothing, so
-- its calls are left out.
use chain_upgrade.Base.{
  ℕ, ◌-◌, ◌%◌, ◌^◌, Bool, false, not, String, List, [], ◌∷◌, ◌++◌, Option, none, some, Result, ok,
  err, ◌>>=◌, map_err, ◌==◌,
}
use chain_upgrade.Base.Map.{Map, insert, remove}
use chain_upgrade.Substrate.{AccountId, Balance}
use chain_upgrade.Payment.Fees.{
  Multiplier, Config, DispatchInfo, PostDispatchInfo, PostInfo, weight_to_fee, compute_fee,
  compute_actual_fee, get_priority,
}

-- `SameOrOther` of frame_support
pub data SameOrOther (N P : Type 0) : Type 0 where
  neither : SameOrOther N P
  same : N → SameOrOther N P
  other : P → SameOrOther N P

-- `Currency` with its imbalances, and `OnTransactionPayment`. `withdraw` has the reason
-- `TRANSACTION_PAYMENT`, with `TIP` or without, and keeps the account alive.
pub record FeeCurrency : Type 1 where
  pub Ledger : Type 0
  pub Negative : Type 0
  pub Positive : Type 0
  pub value : Negative → Balance
  pub positive_value : Positive → Balance
  pub free_balance : AccountId → Ledger → Balance
  pub reserved_balance : AccountId → Ledger → Balance
  pub withdraw : AccountId → Balance → Bool → Ledger → Result String (Negative × Ledger)
  pub deposit_into_existing : AccountId → Balance → Ledger → Result String (Positive × Ledger)
  pub reserve : AccountId → Balance → Ledger → Result String Ledger
  pub unreserve : AccountId → Balance → Ledger → Ledger
  pub offset : Negative → Positive → SameOrOther Negative Positive
  pub zero_imbalance : Negative
  pub split : Negative → Balance → Negative × Negative
  pub on_unbalanceds : Negative → Negative → Ledger → Ledger

-- `InvalidTransaction::Payment`
pub data Invalid : Type 0 where
  payment : Invalid

pub data Event : Type 0 where
  transaction_fee_paid : AccountId → Balance → Balance → Event

module _ (CurrencyId : Type 0) (k : FeeCurrency) where
  pub record State : Type 0 where
    pub ledger : k.Ledger
    pub next_fee_multiplier : Multiplier
    pub default_fee_currency_id : Map CurrencyId
    pub events : List Event

  -- What `pre_dispatch` hands to `post_dispatch`.
  pub record Pre : Type 0 where
    pub tip : Balance
    pub who : AccountId
    pub imbalance : Option k.Negative
    pub fee : Balance

module _ {CurrencyId : Type 0} {k : FeeCurrency} where
  unfoldable pub set_default_fee_token :
      AccountId → Option CurrencyId → State CurrencyId k → State CurrencyId k
  set_default_fee_token who (some currency_id) s = record s {
    default_fee_currency_id = insert who currency_id s.default_fee_currency_id;
  }
  set_default_fee_token who none s = record s {
    default_fee_currency_id = remove who s.default_fee_currency_id;
  }

  -- The end of a block, with the update of the multiplier that the runtime configures.
  unfoldable pub on_finalize : (Multiplier → Multiplier) → State CurrencyId k → State CurrencyId k
  on_finalize convert s = record s { next_fee_multiplier = convert s.next_fee_multiplier }

module _ (k : FeeCurrency) where
  -- What is left of a payment after a refund. An account that is gone gets none.
  abbrev pub rest_of :
      SameOrOther k.Negative k.Positive → k.Ledger → Result Invalid (k.Negative × k.Ledger)
  rest_of (same actual_payment) l = ok (actual_payment, l)
  rest_of neither l = ok (k.zero_imbalance, l)
  rest_of (other rest) l = err payment

  abbrev pub payment_after :
      Result String (k.Positive × k.Ledger)
      → k.Negative
      → k.Ledger
      → Result Invalid (k.Negative × k.Ledger)
  payment_after (ok (refund_imbalance, m)) payed l = rest_of (k.offset payed refund_imbalance) m
  payment_after (err e) payed l = ok (payed, l)

  unfoldable pub offset_refund :
      AccountId → Balance → k.Negative → k.Ledger → Result Invalid (k.Negative × k.Ledger)
  offset_refund who refund payed l = payment_after (k.deposit_into_existing who refund l) payed l

  -- The two parts of a payment, the tip first, go to the receiver.
  abbrev pub distribute : k.Negative → Balance → k.Ledger → k.Ledger
  distribute actual_payment tip l =
      let (first, second) = k.split actual_payment tip in k.on_unbalanceds first second l

  unfoldable pub unreserve_fee : AccountId → Balance → k.Ledger → k.Ledger
  unreserve_fee who fee l = k.unreserve who fee l

module _ (k : FeeCurrency) (c : Config) where
  -- The `TransactionPayment` of other modules.
  unfoldable pub reserve_fee : AccountId → c.Weight → k.Ledger → Result String (Balance × k.Ledger)
  reserve_fee who weight l = do
    let fee = weight_to_fee c weight
    m ← k.reserve who fee l
    ok (fee, m)

  unfoldable pub unreserve_and_charge_fee :
      AccountId → c.Weight → k.Ledger → Result Invalid ((Balance × k.Negative) × k.Ledger)
  unreserve_and_charge_fee who weight l = do
    let fee = weight_to_fee c weight
    (imbalance, m) ← map_err (λ _. payment) (k.withdraw who fee false (k.unreserve who fee l))
    ok ((fee, imbalance), m)

  unfoldable pub refund_fee : AccountId → c.Weight → k.Negative → k.Ledger → Result Invalid k.Ledger
  refund_fee who refund_weight payed l = do
    let refund = weight_to_fee c refund_weight
    (actual_payment, m) ← offset_refund k who refund payed l
    ok (distribute k actual_payment 0 m)

module _ {CurrencyId : Type 0} (k : FeeCurrency) (c : Config) where
  -- The length is cast to a `u32`.
  unfoldable pub withdraw_fee :
      Balance
      → AccountId
      → DispatchInfo c
      → ℕ
      → State CurrencyId k
      → Result Invalid ((Balance × Option k.Negative) × State CurrencyId k)
  withdraw_fee tip who info len s = do
    let fee = compute_fee c (len % 2 ^ 32) info tip s.next_fee_multiplier
    (imbalance, l) ← map_err (λ _. payment) (k.withdraw who fee (not (tip == 0)) s.ledger)
    ok ((fee, some imbalance), record s { ledger = l })

  -- The priority of a valid transaction.
  unfoldable pub validate :
      Balance
      → AccountId
      → DispatchInfo c
      → ℕ
      → State CurrencyId k
      → Result Invalid (ℕ × State CurrencyId k)
  unfolding withdraw_fee
  validate tip who info len s = do
    ((fee, imbalance), s') ← withdraw_fee tip who info len s
    ok (get_priority c info len fee, s')

  unfoldable pub pre_dispatch :
      Balance
      → AccountId
      → DispatchInfo c
      → ℕ
      → State CurrencyId k
      → Result Invalid (Pre CurrencyId k × State CurrencyId k)
  unfolding withdraw_fee
  pre_dispatch tip who info len s = do
    ((fee, imbalance), s') ← withdraw_fee tip who info len s
    ok (record { tip = tip; who = who; imbalance = imbalance; fee = fee }, s')

  -- The payment of a transaction that has paid.
  unfoldable pub settle_payment :
      PostInfo c
      → Balance
      → AccountId
      → k.Negative
      → Balance
      → DispatchInfo c
      → PostDispatchInfo c
      → ℕ
      → State CurrencyId k
      → Result Invalid (State CurrencyId k)
  settle_payment post tip who payed fee info post_info len s = do
    let actual_fee =
        compute_actual_fee c post (len % 2 ^ 32) info post_info tip s.next_fee_multiplier
    (actual_payment, l) ← offset_refund k who (fee - actual_fee) payed s.ledger
    ok (record s {
      ledger = distribute k actual_payment tip l;
      events = s.events ++ transaction_fee_paid who actual_fee tip ∷ [];
    })

  unfoldable pub post_dispatch :
      PostInfo c
      → Option (Pre CurrencyId k)
      → DispatchInfo c
      → PostDispatchInfo c
      → ℕ
      → State CurrencyId k
      → Result Invalid (State CurrencyId k)
  unfolding settle_payment
  post_dispatch post none info post_info len s = ok s
  post_dispatch post (some pre) info post_info len s = elim pre.imbalance [
    | none ↦ ok s
    | some payed ↦ settle_payment post pre.tip pre.who payed pre.fee info post_info len s
  ]
