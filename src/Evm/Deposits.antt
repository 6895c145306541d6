-- ===== src/Evm/Deposits.antt =====
-- `StorageMeterHandlerImpl` of modules/evm/src/runner/handler.rs: the root of the meters. Storage is paid
-- for by deposits, which the origin of a transaction has in reserve and the contracts keep.
pub mod Laws
use chain_upgrade.Base.{
  ℕ, ◌+◌, ◌-◌, ◌*◌, ◌≡◌, ◌≢◌, ◌≤◌, ◌<◌, refl, Bool, true, false, String, Result, ok, err, ◌==◌, ltb,
  settle, if◌then◌else◌, sat_add, sat_mul, u32_max, u128_max, map_err, arith,
}
use chain_upgrade.Substrate.{AccountId, Balance, Currency, CurrencyLaws, DispatchError, other}
use chain_upgrade.Evm.Meter.{EvmAddress, DispatchResult, StorageMeterHandler}

-- The origin of the transaction and what the configuration gives: `AddressMapping::get_account_id` and
-- `StorageDepositPerByte`.
pub record Setting : Type 0 where
  pub origin : EvmAddress
  pub get_account_id : EvmAddress → AccountId
  pub storage_deposit_per_byte : Balance

-- The deposit for a number of bytes, saturated.
abbrev pub deposit_for : Setting → ℕ → Balance
deposit_for setting n = sat_mul u128_max setting.storage_deposit_per_byte n

module _ (currency : Currency) (E : Type 0) where
  open currency use {Ledger, reserve, unreserve, transfer, repatriate_reserved, minimum_balance}

  abbrev pub Done : Type 0
  Done = DispatchResult E × Ledger

  -- A call of the currency that fails leaves the ledger as it was.
  abbrev pub attempt : Ledger → (Ledger → Result String Ledger) → (Ledger → Done) → Done
  attempt l f next = elim (f l) [ ok m ↦ next m | err e ↦ (err (other e), l) ]

  abbrev pub finished : Ledger → Done
  finished l = (ok tt, l)

  module _ (setting : Setting) where
    open setting use {origin, get_account_id}

    unfoldable pub reserve_storage : ℕ → Ledger → Done
    reserve_storage limit l =
        if limit == 0
        then finished l
        else attempt l (reserve (get_account_id origin) (deposit_for setting limit)) finished

    unfoldable pub unreserve_storage : ℕ → ℕ → ℕ → Ledger → Done
    unreserve_storage limit used refunded l =
        let unused = sat_add u32_max limit refunded - used in
        if unused == 0
        then finished l
        else finished (unreserve (get_account_id origin) (deposit_for setting unused) l)

    -- The origin's deposit is released, transferred with the minimum balance, and reserved again.
    unfoldable pub move_deposit : AccountId → Balance → Ledger → Done
    move_deposit contract_acc amount l =
        attempt (unreserve (get_account_id origin) amount l)
          (transfer (get_account_id origin) contract_acc (sat_add u128_max amount minimum_balance))
          λ m. attempt m (reserve contract_acc amount) finished

    unfoldable pub charge_storage : EvmAddress → ℕ → ℕ → Ledger → Done
    unfolding move_deposit
    charge_storage contract used refunded l =
        if used == refunded
        then finished l
        else (if ltb refunded used
            then move_deposit (get_account_id contract) (deposit_for setting (used - refunded)) l
            else attempt l
                (repatriate_reserved (get_account_id contract) (get_account_id origin)
                  (deposit_for setting (refunded - used)))
                finished)

    abbrev pub deposit_handler : StorageMeterHandler E Ledger
    deposit_handler = record {
      reserve_storage = reserve_storage;
      unreserve_storage = unreserve_storage;
      charge_storage = charge_storage;
    }
