-- ===== src/Evm/Contracts/Storage.antt =====
-- The storage, errors and events of modules/evm/src/lib.rs, as far as its contracts go. A hash is a number,
-- and code a list of bytes.
use chain_upgrade.Base.{ℕ, Bool, List, Option, none, String, Result}
use chain_upgrade.Base.Int.{ℤ}
use chain_upgrade.Base.Map.{Map}
use chain_upgrade.Substrate.{AccountId, Balance}
use chain_upgrade.Evm.Meter.{EvmAddress}

abbrev pub Hash : Type 0
Hash = ℕ

pub data Error : Type 0 where
  address_not_mapped : Error
  contract_not_found : Error
  no_permission : Error
  num_out_of_bound : Error
  storage_exceeds_storage_limit : Error
  contract_development_not_enabled : Error
  contract_development_already_enabled : Error
  contract_already_deployed : Error
  contract_exceeds_max_code_size : Error
  out_of_storage : Error
  charge_fee_failed : Error
  conflict_contract_address : Error

pub record ContractInfo : Type 0 where
  pub code_hash : Hash
  pub maintainer : EvmAddress
  pub deployed : Bool

pub record EvmAccountInfo : Type 0 where
  pub nonce : ℕ
  pub contract_info : Option ContractInfo
  pub developer_deposit : Option Balance

-- `EvmAccountInfo::new`
abbrev pub new_account : ℕ → Option ContractInfo → EvmAccountInfo
new_account nonce contract_info = record {
  nonce = nonce;
  contract_info = contract_info;
  developer_deposit = none;
}

pub record CodeInfo : Type 0 where
  pub code_size : ℕ
  pub ref_count : ℕ

-- The reasons, outputs and logs of the interpreter are texts and bytes here.
pub data Event : Type 0 where
  log : List ℕ → Event
  created : EvmAddress → EvmAddress → ℕ → ℤ → Event
  created_failed : EvmAddress → EvmAddress → String → List ℕ → ℕ → ℤ → Event
  executed : EvmAddress → EvmAddress → ℕ → ℤ → Event
  executed_failed : EvmAddress → EvmAddress → String → List ℕ → ℕ → ℤ → Event
  balance_deposit : AccountId → EvmAddress → ℕ → Event
  balance_withdraw : AccountId → EvmAddress → ℕ → Event
  add_storage_quota : EvmAddress → ℕ → Event
  remove_storage_quota : EvmAddress → ℕ → Event
  transferred_maintainer : EvmAddress → EvmAddress → Event
  canceled_transfer_maintainer : EvmAddress → EvmAddress → Event
  confirmed_transfer_maintainer : EvmAddress → EvmAddress → Event
  rejected_transfer_maintainer : EvmAddress → EvmAddress → Event
  contract_development_enabled : AccountId → Event
  contract_development_disabled : AccountId → Event
  contract_deployed : EvmAddress → Event
  contract_set_code : EvmAddress → Event
  contract_selfdestructed : EvmAddress → EvmAddress → Event

-- `AccountStorages` maps an address to its map from keys to values. `ledger` is the state of the currency.
pub record State (Ledger : Type 0) : Type 0 where
  pub accounts : Map EvmAccountInfo
  pub account_storages : Map (Map Hash)
  pub codes : Map (List ℕ)
  pub code_infos : Map CodeInfo
  pub network_contract_index : ℕ
  pub extrinsic_origin : Option AccountId
  pub queued_events : List Event
  pub events : List Event
  pub ledger : Ledger

-- The constants of `Config`, and what the module calls of the mapping of accounts.
pub record Config : Type 0 where
  pub max_code_size : ℕ
  pub developer_deposit : Balance
  pub deployment_fee : Balance
  -- The feature `with-ethereum-compatibility`.
  pub ethereum_compatibility : Bool
  -- `Keccak256::digest`
  pub keccak : List ℕ → Hash
  pub get_account_id : EvmAddress → AccountId
  pub get_evm_address : AccountId → Option EvmAddress
  pub get_default_evm_address : AccountId → EvmAddress
  -- The address that the mapping then stores is in the storage of modules/evm-accounts.
  pub get_or_create_evm_address : AccountId → EvmAddress

-- What the module calls of the currencies besides `Currency`. A transfer of all funds names the
-- accounts that it kills.
pub record Funds (Ledger : Type 0) : Type 0 where
  -- With `WithdrawReasons::FEE` and `AllowDeath`.
  pub withdraw_fee : AccountId → Balance → Ledger → Result String Ledger
  pub transfer_all : AccountId → AccountId → Ledger → Result String (List AccountId × Ledger)
