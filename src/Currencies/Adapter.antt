-- ===== src/Currencies/Adapter.antt =====
-- `BasicCurrencyAdapter` of modules/currencies/src/lib.rs, which makes a basic currency of a currency of
-- frame_support. That currency is a parameter.
use chain_upgrade.Base.{
  ℕ, suc, ◌+◌, ◌-◌, ◌^◌, ◌≡◌, sym, ap, ◌∙◌, Bool, Option, none, some, ok, ◌>>=◌, ◌>>◌, ensure,
  ok_or, if◌then◌else◌, ◌==◌, checked_sub, zero, arith, true, false,
}
use chain_upgrade.Base.Int.{ℤ, pos, negsuc}
use chain_upgrade.Substrate.{AccountId, Balance, pallet, Dispatch}
use chain_upgrade.Currencies.Interfaces.{
  Error, balance_too_low, deposit_failed, amount_into_balance_failed, BalanceStatus, LockIdentifier,
  Basic,
}

-- `Currency`, `LockableCurrency` and `ReservableCurrency` of frame_support, with all withdraw reasons and
-- `AllowDeath`. Of an imbalance only the value is seen, and it is dropped.
pub record PalletCurrency (World : Type 0) : Type 0 where
  pub minimum_balance : World → Balance
  pub total_issuance : World → Balance
  pub total_balance : AccountId → World → Balance
  pub free_balance : AccountId → World → Balance
  pub ensure_can_withdraw : AccountId → Balance → Balance → World → Dispatch Error (Unit {0})
  pub transfer : AccountId → AccountId → Balance → World → Dispatch Error World
  pub deposit_creating : AccountId → Balance → World → Balance × World
  pub withdraw : AccountId → Balance → World → Dispatch Error World
  pub can_slash : AccountId → Balance → World → Bool
  pub slash : AccountId → Balance → World → Balance × World
  pub set_lock : LockIdentifier → AccountId → Balance → World → World
  pub extend_lock : LockIdentifier → AccountId → Balance → World → World
  pub remove_lock : LockIdentifier → AccountId → World → World
  pub can_reserve : AccountId → Balance → World → Bool
  pub slash_reserved : AccountId → Balance → World → Balance × World
  pub reserved_balance : AccountId → World → Balance
  pub reserve : AccountId → Balance → World → Dispatch Error World
  pub unreserve : AccountId → Balance → World → Balance × World
  pub repatriate_reserved :
      AccountId → AccountId → Balance → BalanceStatus → World → Dispatch Error (Balance × World)

-- `amount.abs().try_into()` of an `i128`: the minimum has no absolute value.
abbrev pub abs_into_balance : ℤ → Option Balance
abs_into_balance (pos n) = some n
abs_into_balance (negsuc n) = if n == 2 ^ 127 - 1 then none else some (suc n)

module _ {World : Type 0} (p : PalletCurrency World) where
  unfoldable pub adapter_ensure_can_withdraw :
      AccountId → Balance → World → Dispatch Error (Unit {0})
  adapter_ensure_can_withdraw who amount w = do
    new_balance ← ok_or (checked_sub (p.free_balance who w) amount) (pallet balance_too_low)
    p.ensure_can_withdraw who amount new_balance w

  unfoldable pub adapter_deposit : AccountId → Balance → World → Dispatch Error World
  adapter_deposit who amount w =
      let (actual_deposit, w') = p.deposit_creating who amount w in
      if amount == 0
      then ok w
      else (ensure (actual_deposit == amount) (pallet deposit_failed) >> ok w')

  -- The deposit or the withdrawal of the absolute value.
  abbrev pub deposit_or_withdraw : ℤ → AccountId → Balance → World → Dispatch Error World
  deposit_or_withdraw (pos zero) who by_balance w = p.withdraw who by_balance w
  deposit_or_withdraw (pos (suc n)) who by_balance w = adapter_deposit who by_balance w
  deposit_or_withdraw (negsuc n) who by_balance w = p.withdraw who by_balance w

  unfoldable pub adapter_update_balance : AccountId → ℤ → World → Dispatch Error World
  adapter_update_balance who by_amount w =
      ok_or (abs_into_balance by_amount) (pallet amount_into_balance_failed) >>= λ by_balance.
      deposit_or_withdraw by_amount who by_balance w

  unfoldable pub basic_currency_adapter : Basic World
  basic_currency_adapter = record {
    minimum_balance = p.minimum_balance;
    total_issuance = p.total_issuance;
    total_balance = p.total_balance;
    free_balance = p.free_balance;
    ensure_can_withdraw = adapter_ensure_can_withdraw;
    transfer = p.transfer;
    deposit = adapter_deposit;
    withdraw = p.withdraw;
    can_slash = p.can_slash;
    slash = p.slash;
    update_balance = adapter_update_balance;
    set_lock = λ id who amount w. ok (p.set_lock id who amount w);
    extend_lock = λ id who amount w. ok (p.extend_lock id who amount w);
    remove_lock = λ id who w. ok (p.remove_lock id who w);
    can_reserve = p.can_reserve;
    slash_reserved = p.slash_reserved;
    reserved_balance = p.reserved_balance;
    reserve = p.reserve;
    unreserve = p.unreserve;
    repatriate_reserved = p.repatriate_reserved;
  }

-- What is documented for the deposits and withdrawals: an account gets what is issued, and it loses what
-- is burned.
pub record PalletCurrencyLaws {World : Type 0} (p : PalletCurrency World) : Type 0 where
  pub deposit_creating_lem :
      (who : AccountId) (a : Balance) (w : World)
      → (p.free_balance who (p.deposit_creating who a w).1
          ≡ p.free_balance who w + (p.deposit_creating who a w).0)
        × (p.total_issuance (p.deposit_creating who a w).1
            ≡ p.total_issuance w + (p.deposit_creating who a w).0)
  pub withdraw_lem :
      (who : AccountId) (a : Balance) (w w' : World)
      → p.withdraw who a w ≡ ok w'
      → (p.free_balance who w' + a ≡ p.free_balance who w)
        × (p.total_issuance w' + a ≡ p.total_issuance w)

-- The second number is the first one shifted by an integer.
abbrev pub IsShifted : ℤ → ℕ → ℕ → Type 0
IsShifted (pos n) a b = b ≡ a + n
IsShifted (negsuc n) a b = b + suc n ≡ a

some_unless :
    {World : Type 0} (b : Bool) (x : ℕ) (f : ℕ → Dispatch Error World) (w' : World)
    → (ok_or (if b then none else some x) (pallet amount_into_balance_failed) >>= f) ≡ ok w'
    → f x ≡ ok w'
some_unless true x f w' done = ground arith
some_unless false x f w' done = done

module _ {World : Type 0} {p : PalletCurrency World} (laws : PalletCurrencyLaws p) where
  open laws use {deposit_creating_lem, withdraw_lem}

  adapter_deposit_lem :
      (who : AccountId) (a : Balance) (w w' : World)
      → adapter_deposit p who a w ≡ ok w'
      → (p.free_balance who w' ≡ p.free_balance who w + a)
        × (p.total_issuance w' ≡ p.total_issuance w + a)
  unfolding adapter_deposit
  adapter_deposit_lem who zero w w' done =
      let same : w ≡ w' = ground arith in
      (
        ap (p.free_balance who) (sym same) ∙ omega arith,
        ap p.total_issuance (sym same) ∙ omega arith,
      )
  adapter_deposit_lem who (suc a) w w' done =
      let whole : (p.deposit_creating who (suc a) w).0 ≡ suc a = ground arith in
      let same : (p.deposit_creating who (suc a) w).1 ≡ w' = ground arith in
      let gained = deposit_creating_lem who (suc a) w in
      (
        ap (p.free_balance who) (sym same) ∙ omega (arith, gained.0, whole),
        ap p.total_issuance (sym same) ∙ omega (arith, gained.1, whole),
      )

  -- An update that succeeds shifts the free balance of the account and the issuance by the amount.
  pub update_balance_lem :
      (who : AccountId) (by_amount : ℤ) (w w' : World)
      → (basic_currency_adapter p).update_balance who by_amount w ≡ ok w'
      → IsShifted by_amount (p.free_balance who w) (p.free_balance who w')
        × IsShifted by_amount (p.total_issuance w) (p.total_issuance w')
  unfolding basic_currency_adapter adapter_update_balance
  update_balance_lem who (pos zero) w w' done =
      let taken = withdraw_lem who 0 w w' done in (omega (arith, taken.0), omega (arith, taken.1))
  update_balance_lem who (pos (suc n)) w w' done = adapter_deposit_lem who (suc n) w w' done
  update_balance_lem who (negsuc n) w w' done =
      withdraw_lem who (suc n) w w'
        (some_unless (n == 2 ^ 127 - 1) (suc n) (λ a. p.withdraw who a w) w' done)
