-- ===== src/Evm/Contracts/Code.antt =====
-- Code and its counts of references, contracts made and removed: `on_contract_initialization`,
-- `remove_account`, `remove_contract` and the queries of modules/evm/src/lib.rs.
use chain_upgrade.Base.{
  ℕ, ◌-◌, ◌%◌, ◌^◌, List, [], ◌∷◌, ◌++◌, Option, none, some, Result, ok, err, if◌then◌else◌, ltb,
  ◌==◌, length, u32_max, sat_add,
}
use chain_upgrade.Base.Int.{ℤ}
use chain_upgrade.Base.Map.{lookup, insert, remove}
use chain_upgrade.Substrate.{AccountId, Dispatch, pallet}
use chain_upgrade.Evm.Meter.{EvmAddress}
use chain_upgrade.Evm.Contracts.Storage.{
  Hash, Error, contract_not_found, ContractInfo, EvmAccountInfo, new_account, CodeInfo, created,
  State, Config,
}

-- The errors of the interpreter that the module makes itself.
pub data ExitError : Type 0 where
  out_of_gas : ExitError

abbrev pub contract_of : Option EvmAccountInfo → Option ContractInfo
contract_of none = none
contract_of (some account_info) = account_info.contract_info

-- A vector that is not stored reads as empty.
abbrev pub value_or_empty : Option (List ℕ) → List ℕ
value_or_empty none = []
value_or_empty (some code) = code

-- `code.len() as u32`
abbrev pub size_of : List ℕ → ℕ
size_of code = length code % 2 ^ 32

abbrev pub size_at : Option CodeInfo → ℕ
size_at none = 0
size_at (some info) = info.code_size

-- An account keeps its nonce and its deposit when it gets a contract.
abbrev pub with_contract : ContractInfo → Option EvmAccountInfo → EvmAccountInfo
with_contract contract_info none = new_account 0 (some contract_info)
with_contract contract_info (some account_info) = record account_info {
  contract_info = some contract_info;
}

abbrev pub hash_of : Config → Option ContractInfo → Hash
hash_of config none = config.keccak []
hash_of config (some contract_info) = contract_info.code_hash

abbrev pub new_contract : Config → EvmAddress → List ℕ → ContractInfo
new_contract config maintainer code = record {
  code_hash = config.keccak code;
  maintainer = maintainer;
  deployed = config.ethereum_compatibility;
}

module _ {Ledger : Type 0} where
  abbrev pub deref_info : Hash → Option CodeInfo → State Ledger → State Ledger
  deref_info h none s = s
  deref_info h (some info) s =
      if info.ref_count - 1 == 0
      then record s { codes = remove h s.codes; code_infos = remove h s.code_infos }
      else record s {
        code_infos = insert h (record info { ref_count = info.ref_count - 1 }) s.code_infos;
      }

  -- One reference less; the code goes with the last one.
  unfoldable pub deref_code : Hash → State Ledger → State Ledger
  deref_code h s = deref_info h (lookup h s.code_infos) s

  abbrev pub ref_info : Hash → List ℕ → Option CodeInfo → State Ledger → State Ledger
  ref_info h code (some info) s = record s {
    code_infos =
        insert h (record info { ref_count = sat_add u32_max info.ref_count 1 }) s.code_infos;
  }
  ref_info h code none s = record s {
    code_infos = insert h (record { code_size = size_of code; ref_count = 1 }) s.code_infos;
    codes = insert h code s.codes;
  }

  -- One reference more; the code is stored with the first one.
  unfoldable pub ref_code : Hash → List ℕ → State Ledger → State Ledger
  ref_code h code s = ref_info h code (lookup h s.code_infos) s

  abbrev pub deref_contract : Option ContractInfo → State Ledger → State Ledger
  deref_contract none s = s
  deref_contract (some contract_info) s = deref_code contract_info.code_hash s

  abbrev pub contract_size : Option ContractInfo → State Ledger → ℕ
  contract_size none s = 0
  contract_size (some contract_info) s = size_at (lookup contract_info.code_hash s.code_infos)

  -- With the size of the code that it had.
  unfoldable pub remove_account : EvmAddress → State Ledger → ℕ × State Ledger
  unfolding deref_code
  remove_account address s =
      let contract = contract_of (lookup address s.accounts) in
      let t = deref_contract contract s in
      (
        contract_size contract s,
        record t {
          accounts = remove address t.accounts;
          account_storages = remove address t.account_storages;
        },
      )

  -- `process_queued_events`
  unfoldable pub process_queued_events : State Ledger → State Ledger
  process_queued_events s = record s { queued_events = []; events = s.events ++ s.queued_events }

  module _ (config : Config) where
    open config use {max_code_size, keccak, get_evm_address, get_default_evm_address}

    unfoldable pub code_hash_at_address : EvmAddress → State Ledger → Hash
    code_hash_at_address address s = hash_of config (contract_of (lookup address s.accounts))

    unfoldable pub code_at_address : EvmAddress → State Ledger → List ℕ
    unfolding code_hash_at_address
    code_at_address address s = value_or_empty (lookup (code_hash_at_address address s) s.codes)

    unfoldable pub on_contract_initialization :
        EvmAddress → EvmAddress → List ℕ → ℕ → ℤ → State Ledger → Result ExitError (State Ledger)
    unfolding ref_code
    on_contract_initialization address maintainer code used_gas used_storage s =
        if ltb max_code_size (size_of code)
        then err out_of_gas
        else (let t = ref_code (keccak code) code s in
            let account =
              with_contract (new_contract config maintainer code) (lookup address t.accounts) in
            ok (record t {
              accounts = insert address account t.accounts;
              queued_events =
                  t.queued_events ++ created maintainer address used_gas used_storage ∷ [];
            }))

    abbrev pub remove_some : Option EvmAddress → State Ledger → State Ledger
    remove_some none s = s
    remove_some (some address) s = (remove_account address s).1

    -- `CallKillAccount`
    unfoldable pub on_killed_account : AccountId → State Ledger → State Ledger
    unfolding remove_account
    on_killed_account who s =
        (remove_account (get_default_evm_address who) (remove_some (get_evm_address who) s)).1

-- `query_maintainer`
unfoldable pub query_maintainer :
    {Ledger : Type 0} → EvmAddress → State Ledger → Dispatch Error EvmAddress
query_maintainer contract s = elim (contract_of (lookup contract s.accounts)) [
  | none ↦ err (pallet contract_not_found)
  | some v ↦ ok v.maintainer
]
