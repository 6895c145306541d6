-- ===== src/Evm/Contracts/Calls.antt =====
-- The calls of modules/evm/src/lib.rs on contracts and developer deposits. A call returns the new storage or
-- its error, which leaves the storage as it was.
use chain_upgrade.Base.{
  ℕ, Bool, true, not, List, [], ◌∷◌, Option, none, some, ok, err, ◌>>=◌, ◌>>◌, ensure, ok_or,
  map_err, if◌then◌else◌, leb, ◌==◌,
}
use chain_upgrade.Base.Map.{lookup, insert, remove}
use chain_upgrade.Substrate.{AccountId, Currency, Dispatch, pallet, other}
use chain_upgrade.Evm.Meter.{EvmAddress}
use chain_upgrade.Evm.Contracts.Storage.{
  Error, address_not_mapped, contract_not_found, no_permission, contract_development_not_enabled,
  contract_development_already_enabled, contract_already_deployed, contract_exceeds_max_code_size,
  ContractInfo, EvmAccountInfo, new_account, transferred_maintainer, contract_development_enabled,
  contract_development_disabled, contract_deployed, contract_set_code, contract_selfdestructed,
  State, Config, Funds,
}
use chain_upgrade.Evm.Contracts.Code.{size_of, deref_code, ref_code, on_killed_account}

-- Who calls `set_code`.
pub data RootOrSigned : Type 0 where
  root : RootOrSigned
  signed : AccountId → RootOrSigned

-- An account and its contract, or the error that there is none.
unfoldable pub found :
    {Ledger : Type 0} → EvmAddress → State Ledger → Dispatch Error (EvmAccountInfo × ContractInfo)
found contract s = do
  account_info ← ok_or (lookup contract s.accounts) (pallet contract_not_found)
  contract_info ← ok_or account_info.contract_info (pallet contract_not_found)
  ok (account_info, contract_info)

abbrev pub put :
    {Ledger : Type 0}
    → EvmAddress
    → EvmAccountInfo
    → Option ContractInfo
    → State Ledger
    → State Ledger
put contract account_info contract_info s = record s {
  accounts = insert contract (record account_info { contract_info = contract_info }) s.accounts;
}

-- `None` for the maintainer is not checked.
abbrev pub is_maintainer : ContractInfo → Option EvmAddress → Bool
is_maintainer contract_info none = true
is_maintainer contract_info (some maintainer) = contract_info.maintainer == maintainer

module _ (currency : Currency) (funds : Funds currency.Ledger) (config : Config) where
  open currency use {Ledger, reserve, unreserve, reserved_balance}
  open funds use {withdraw_fee, transfer_all}
  open config use {
    max_code_size, developer_deposit, deployment_fee, keccak, get_account_id, get_evm_address,
    get_or_create_evm_address,
  }

  abbrev pub Outcome : Type 0
  Outcome = Dispatch Error (State Ledger)

  abbrev pub Origin : Type 0
  Origin = Dispatch Error AccountId

  unfoldable pub do_transfer_maintainer :
      AccountId → EvmAddress → EvmAddress → State Ledger → Outcome
  do_transfer_maintainer who contract new_maintainer s = do
    entry ← found contract s
    maintainer ← ok_or (get_evm_address who) (pallet address_not_mapped)
    ensure (entry.1.maintainer == maintainer) (pallet no_permission)
    ok (put contract entry.0 (some (record (entry.1) { maintainer = new_maintainer })) s)

  unfoldable pub transfer_maintainer : Origin → EvmAddress → EvmAddress → State Ledger → Outcome
  transfer_maintainer origin contract new_maintainer s = do
    who ← origin
    t ← do_transfer_maintainer who contract new_maintainer s
    ok (record t { events = transferred_maintainer contract new_maintainer ∷ t.events })

  unfoldable pub mark_deployed : EvmAddress → Option EvmAddress → State Ledger → Outcome
  mark_deployed contract maintainer s = do
    entry ← found contract s
    ensure (is_maintainer entry.1 maintainer) (pallet no_permission)
    ensure (not entry.1.deployed) (pallet contract_already_deployed)
    ok (put contract entry.0 (some (record (entry.1) { deployed = true })) s)

  unfoldable pub deploy : Origin → EvmAddress → State Ledger → Outcome
  deploy origin contract s = do
    who ← origin
    address ← ok_or (get_evm_address who) (pallet address_not_mapped)
    l ← map_err other (withdraw_fee who deployment_fee s.ledger)
    t ← mark_deployed contract (some address) (record s { ledger = l })
    ok (record t { events = contract_deployed contract ∷ t.events })

  -- `allowed` is what the origin for free deployments makes of the origin.
  unfoldable pub deploy_free : Dispatch Error (Unit {0}) → EvmAddress → State Ledger → Outcome
  deploy_free allowed contract s = do
    _ ← allowed
    t ← mark_deployed contract none s
    ok (record t { events = contract_deployed contract ∷ t.events })

  -- The account with the deposit, a new one if there is none.
  abbrev pub enable : Option EvmAccountInfo → Dispatch Error EvmAccountInfo
  enable none = ok (record (new_account 0 none) { developer_deposit = some developer_deposit })
  enable (some account_info) = elim account_info.developer_deposit [
    | none ↦ ok (record account_info { developer_deposit = some developer_deposit })
    | some deposit ↦ err (pallet contract_development_already_enabled)
  ]

  unfoldable pub enable_contract_development : Origin → State Ledger → Outcome
  enable_contract_development origin s = do
    who ← origin
    let address = get_or_create_evm_address who
    l ← map_err other (reserve who developer_deposit s.ledger)
    account_info ← enable (lookup address s.accounts)
    ok (record s {
      ledger = l;
      accounts = insert address account_info s.accounts;
      events = contract_development_enabled who ∷ s.events;
    })

  unfoldable pub disable_contract_development : Origin → State Ledger → Outcome
  disable_contract_development origin s = do
    who ← origin
    address ← ok_or (get_evm_address who) (pallet address_not_mapped)
    account_info ← ok_or (lookup address s.accounts) (pallet contract_development_not_enabled)
    deposit ← ok_or account_info.developer_deposit (pallet contract_development_not_enabled)
    ok (record s {
      ledger = unreserve who deposit s.ledger;
      accounts = insert address (record account_info { developer_deposit = none }) s.accounts;
      events = contract_development_disabled who ∷ s.events;
    })

  -- Root may set any code; a signer only as the maintainer of a contract that is not deployed.
  unfoldable pub may_set_code : RootOrSigned → ContractInfo → Dispatch Error (Unit {0})
  may_set_code root contract_info = ok tt
  may_set_code (signed who) contract_info = do
    maintainer ← ok_or (get_evm_address who) (pallet address_not_mapped)
    ensure (contract_info.maintainer == maintainer) (pallet no_permission)
    ensure (not contract_info.deployed) (pallet contract_already_deployed)

  -- The new code is counted and stored. The account is written back as it was read.
  abbrev pub store_code :
      EvmAddress → EvmAccountInfo × ContractInfo → List ℕ → State Ledger → Outcome
  store_code contract entry code s =
      if keccak code == entry.1.code_hash then ok (put contract entry.0 (some entry.1) s) else (do
        ensure (leb (size_of code) max_code_size) (pallet contract_exceeds_max_code_size)
        ok (put contract entry.0 (some entry.1) (ref_code (keccak code) code s)))

  unfoldable pub do_set_code : RootOrSigned → EvmAddress → List ℕ → State Ledger → Outcome
  do_set_code root_or_signed contract code s = do
    entry ← found contract s
    may_set_code root_or_signed entry.1
    store_code contract entry code s

  unfoldable pub set_code :
      Dispatch Error RootOrSigned → EvmAddress → List ℕ → State Ledger → Outcome
  set_code origin contract code s = do
    root_or_signed ← origin
    t ← do_set_code root_or_signed contract code s
    ok (record t { events = contract_set_code contract ∷ t.events })

  unfoldable pub on_killed_accounts : List AccountId → State Ledger → State Ledger
  on_killed_accounts [] s = s
  on_killed_accounts (who ∷ killed) s = on_killed_accounts killed (on_killed_account config who s)

  -- The funds of the contract go to the caller. The account is written back, without its contract,
  -- after everything else, so that the hook of killed accounts still finds the contract in the storage.
  abbrev pub move_funds : EvmAddress → EvmAddress → EvmAccountInfo → State Ledger → Outcome
  move_funds caller contract account_info t = do
    let contract_account_id = get_account_id contract
    let l = unreserve contract_account_id (reserved_balance contract_account_id t.ledger) t.ledger
    moved ← map_err other (transfer_all contract_account_id (get_account_id caller) l)
    ok (put contract account_info none (on_killed_accounts moved.0 (record t { ledger = moved.1 })))

  unfoldable pub remove_contract : EvmAddress → EvmAddress → State Ledger → Outcome
  remove_contract caller contract s = do
    entry ← found contract s
    move_funds caller contract entry.0 (
        deref_code entry.1.code_hash
          (record s { account_storages = remove contract s.account_storages }))

  unfoldable pub do_selfdestruct : EvmAddress → EvmAddress → State Ledger → Outcome
  do_selfdestruct caller contract s = do
    entry ← found contract s
    ensure (entry.1.maintainer == caller) (pallet no_permission)
    ensure (not entry.1.deployed) (pallet contract_already_deployed)
    remove_contract caller contract s

  unfoldable pub selfdestruct : Origin → EvmAddress → State Ledger → Outcome
  selfdestruct origin contract s = do
    who ← origin
    caller ← ok_or (get_evm_address who) (pallet address_not_mapped)
    t ← do_selfdestruct caller contract s
    ok (record t { events = contract_selfdestructed caller contract ∷ t.events })
