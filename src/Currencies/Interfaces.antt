-- ===== src/Currencies/Interfaces.antt =====
-- What modules/currencies/src/lib.rs calls, and what it offers to other modules: a basic currency, as a
-- record of operations on the state of the chain.
use chain_upgrade.Base.{ℕ, Bool, List, ◌∷◌, [], ◌++◌, Option, take}
use chain_upgrade.Base.Int.{ℤ}
use chain_upgrade.Base.Bytes.{bytes_of, from_be}
use chain_upgrade.Substrate.{AccountId, Balance, Dispatch}
use chain_upgrade.Evm.Meter.{EvmAddress}
use chain_upgrade.Evm.Execute.{InvokeContext}
use chain_upgrade.Currencies.Ids.{CurrencyId}

pub data Error : Type 0 where
  amount_into_balance_failed : Error
  balance_too_low : Error
  erc20_invalid_operation : Error
  evm_account_not_found : Error
  real_origin_not_found : Error
  deposit_failed : Error

pub data Event : Type 0 where
  transferred : CurrencyId → AccountId → AccountId → Balance → Event
  balance_updated : CurrencyId → AccountId → ℤ → Event
  deposited : CurrencyId → AccountId → Balance → Event
  withdrawn : CurrencyId → AccountId → Balance → Event

pub data BalanceStatus : Type 0 where
  free : BalanceStatus
  reserved : BalanceStatus

abbrev pub LockIdentifier : Type 0
LockIdentifier = ℕ

-- `BasicCurrencyExtended`, `BasicLockableCurrency` and `BasicReservableCurrency` of the traits library.
pub record Basic (World : Type 0) : Type 0 where
  pub minimum_balance : World → Balance
  pub total_issuance : World → Balance
  pub total_balance : AccountId → World → Balance
  pub free_balance : AccountId → World → Balance
  pub ensure_can_withdraw : AccountId → Balance → World → Dispatch Error (Unit {0})
  pub transfer : AccountId → AccountId → Balance → World → Dispatch Error World
  pub deposit : AccountId → Balance → World → Dispatch Error World
  pub withdraw : AccountId → Balance → World → Dispatch Error World
  pub can_slash : AccountId → Balance → World → Bool
  pub slash : AccountId → Balance → World → Balance × World
  pub update_balance : AccountId → ℤ → World → Dispatch Error World
  pub set_lock : LockIdentifier → AccountId → Balance → World → Dispatch Error World
  pub extend_lock : LockIdentifier → AccountId → Balance → World → Dispatch Error World
  pub remove_lock : LockIdentifier → AccountId → World → Dispatch Error World
  pub can_reserve : AccountId → Balance → World → Bool
  pub slash_reserved : AccountId → Balance → World → Balance × World
  pub reserved_balance : AccountId → World → Balance
  pub reserve : AccountId → Balance → World → Dispatch Error World
  pub unreserve : AccountId → Balance → World → Balance × World
  pub repatriate_reserved :
      AccountId → AccountId → Balance → BalanceStatus → World → Dispatch Error (Balance × World)

-- `EVMBridge` of modules/support/src/lib.rs; its queries leave the state as it is. A transfer leaves a
-- state whether it succeeds or fails: a token that answers anything but `true` has already moved the funds.
pub record EvmBridge (World : Type 0) : Type 0 where
  pub total_supply : InvokeContext → World → Dispatch Error Balance
  pub balance_of : InvokeContext → EvmAddress → World → Dispatch Error Balance
  pub transfer : InvokeContext → EvmAddress → Balance → World → Dispatch Error (Unit {0}) × World
  pub get_origin : World → Option AccountId

-- The module's configuration, `blake2_256`, and the deposit of events.
pub record Host (World : Type 0) : Type 0 where
  pub native : Basic World
  pub multi : CurrencyId → Basic World
  pub multi_transfer_all : AccountId → AccountId → World → Dispatch Error World
  pub bridge : EvmBridge World
  pub get_evm_address : AccountId → World → Option EvmAddress
  pub get_or_create_evm_address : AccountId → World → EvmAddress × World
  pub deposit_event : Event → World → World
  pub blake2_256 : List ℕ → List ℕ

-- The first 20 bytes of a hash of "erc20:" and the address.
unfoldable pub reserve_address : {World : Type 0} → Host World → EvmAddress → EvmAddress
reserve_address h address =
    from_be 0 (take 20 (h.blake2_256 ((101 ∷ 114 ∷ 99 ∷ 50 ∷ 48 ∷ 58 ∷ []) ++ bytes_of 20 address)))
