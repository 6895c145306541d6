-- ===== src/Payment/Samples.antt =====
-- A concrete configuration and a concrete currency, which show that what is documented can hold.
use chain_upgrade.Base.{
  ℕ, ◌+◌, ◌-◌, ◌*◌, ◌≡◌, ◌≤◌, refl, Bool, Option, none, some, ok, err, if◌then◌else◌, leb, ltb, min,
  sat_add, u128_max, arith, ◌/◌,
}
use native.Mathlib.Nat.{mul-le-mul_left, zero-div}
use chain_upgrade.Substrate.{Balance}
use chain_upgrade.Substrate.Ledger.{Book, set_at, book_reserve, book_unreserve}
use chain_upgrade.Payment.Fees.{Pays, yes, no, InclusionFee, Config, PostInfo, Documented}
use chain_upgrade.Payment.Adjustment.{FixedPoint, Saturates}
use chain_upgrade.Payment.Charging.{SameOrOther, neither, same, other, FeeCurrency}
use chain_upgrade.Payment.Settlement.{FeeCurrencyLaws}

abbrev pub sum_of : Option InclusionFee → Balance → Balance
sum_of none tip = tip
sum_of (some i) tip =
    sat_add u128_max
      (sat_add u128_max (sat_add u128_max i.base_fee i.len_fee) i.adjusted_weight_fee) tip

abbrev pub config : Config
config = record {
  Weight = ℕ;
  ref_time = λ w. w;
  weight_min = min;
  Class = Bool;
  max_block = 1000;
  base_extrinsic = λ _. 10;
  max_length = 5000;
  transaction_byte_fee = 2;
  weight_to_fee = λ w. w;
  saturating_mul_int = λ m a. m * a;
  final_fee = λ f. sum_of f.inclusion_fee f.tip;
}

abbrev pub actual_of : Option ℕ → ℕ → ℕ
actual_of none w = w
actual_of (some v) w = min v w

abbrev pub both_pay : Pays → Pays → Pays
both_pay yes q = q
both_pay no q = no

abbrev pub post_info_of : PostInfo config
post_info_of = record {
  calc_actual_weight = λ p info. actual_of p.actual_weight info.weight;
  pays_fee = λ p info. both_pay p.pays_fee info.pays_fee;
}

pub actual_of_le : (o : Option ℕ) (w : ℕ) → actual_of o w ≤ w
actual_of_le none w = omega arith
actual_of_le (some v) w = omega arith

pub both_pay_no : (p q : Pays) → q ≡ no → both_pay p q ≡ no
both_pay_no yes q h = h
both_pay_no no q h = refl

abbrev pub documented : Documented config post_info_of
documented = record {
  IsLighter = λ v w. v ≤ w;
  weight_min_mono = λ w v m h. omega (arith, h);
  weight_to_fee_mono = λ w v h. h;
  saturating_mul_int_mono = λ m a b h. mul-le-mul_left m h;
  final_fee_none = λ tip. refl;
  final_fee_some = λ base len adjusted tip. refl;
  calc_actual_weight_le = λ p info. actual_of_le p.actual_weight info.weight;
  pays_fee_lem = λ p info h. both_pay_no p.pays_fee info.pays_fee h;
}

-- Multipliers in units of a thousandth.
abbrev pub fixed_point : FixedPoint
fixed_point = record {
  saturating_from_rational = λ a b. a * 1000 / b;
  saturating_from_integer = λ n. n * 1000;
  saturating_add = λ a b. min u128_max (a + b);
  saturating_sub = λ a b. a - b;
  saturating_mul = λ a b. a * b / 1000;
  div = λ a b. a * 1000 / b;
  target_of = λ w. w / 4;
  variability = 100;
  minimum = 5;
}

pub saturates : Saturates fixed_point
saturates = record {
  saturating_add_lem = λ a b. refl;
  saturating_sub_lem = λ a b. refl;
  saturating_mul_zero = λ a. omega arith;
  saturating_zero_mul = λ a. omega arith;
  saturating_from_zero = λ n h. omega (arith, zero-div n);
}

abbrev pub set_off : ℕ → ℕ → SameOrOther ℕ ℕ
set_off n p = if ltb p n then same (n - p) else if ltb n p then other (p - n) else neither

-- Imbalances are their values; the receiver is account 99.
abbrev pub fee_currency : FeeCurrency
fee_currency = record {
  Ledger = Book;
  Negative = ℕ;
  Positive = ℕ;
  value = λ n. n;
  positive_value = λ p. p;
  free_balance = λ who b. b.free who;
  reserved_balance = λ who b. b.held who;
  withdraw = λ who a tip b.
      if leb a (b.free who)
      then ok (a, record b { free = set_at who (b.free who - a) b.free })
      else err "InsufficientBalance";
  deposit_into_existing = λ who a b.
      if ltb 0 (b.free who + b.held who)
      then ok (a, record b { free = set_at who (b.free who + a) b.free })
      else err "DeadAccount";
  reserve = book_reserve;
  unreserve = book_unreserve;
  offset = set_off;
  zero_imbalance = 0;
  split = λ n a. (min n a, n - min n a);
  on_unbalanceds = λ n m b. record b { free = set_at 99 (b.free 99 + n + m) b.free };
}

pub fee_currency_laws : FeeCurrencyLaws fee_currency
fee_currency_laws = record {
  withdraw_lem = λ who a tip l m n h. ground arith;
  deposit_lem = λ who a l m p h. ground arith;
  offset_same = λ n r p h. ground arith;
  offset_neither = λ n p h. ground arith;
  offset_other = λ n p q h. ground arith;
  zero_imbalance_lem = refl;
  split_lem = λ n a. ground arith;
  reserve_lem = λ who a l m h. ground arith;
  unreserve_lem = λ who a l h. ground arith;
}
