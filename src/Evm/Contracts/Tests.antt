-- ===== src/Evm/Contracts/Tests.antt =====
-- Two contracts that share code, for modules/evm/src/lib.rs, and the theorems at concrete inputs.
use chain_upgrade.Base.{
  ◌+◌, ◌-◌, ◌≡◌, ◌≤◌, refl, inl, subst, sym, take, false, List, [], ◌∷◌, none, some, ok,
  if◌then◌else◌, leb, length, is_ok, settle, arith,
}
use chain_upgrade.Base.Int.{pos}
use chain_upgrade.Base.Map.{lookup, insert, remove}
use chain_upgrade.Substrate.{Dispatch}
use chain_upgrade.Substrate.Ledger.{Book, book, book_laws}
use chain_upgrade.Evm.Contracts.Storage.{Error, ContractInfo, EvmAccountInfo, State, Config, Funds}
use chain_upgrade.Evm.Contracts.Code.{
  contract_of, ref_code, on_killed_account, on_contract_initialization, code_at_address,
  code_hash_at_address,
}
use chain_upgrade.Evm.Contracts.Calls.{
  signed, found, transfer_maintainer, do_transfer_maintainer, mark_deployed,
  enable_contract_development, disable_contract_development, may_set_code, do_set_code,
  remove_contract, deploy, deploy_free, selfdestruct, set_code, do_selfdestruct, on_killed_accounts,
}
use chain_upgrade.Evm.Contracts.Laws.{mark_deployed_final, disable-enable}
use chain_upgrade.Evm.Contracts.Counted.{IsCounted}
use chain_upgrade.Evm.Contracts.History.{
  Step, initialize_step, transfer_maintainer_step, selfdestruct_step, killed_step, step, run,
  AllSafe, empty, empty-run-IsCounted,
}
use chain_upgrade.Evm.Contracts.SetCode.{IsStored, do_set_code-code_hash_at_address}
use chain_upgrade.Evm.Contracts.Alone.{count_of}
use chain_upgrade.Evm.Contracts.Shared.{released, remove_contract_shared}

-- Address n is account n + 1000, and the hash of code counts its bytes.
abbrev config : Config
config = record {
  max_code_size = 61_440;
  developer_deposit = 100;
  deployment_fee = 10;
  ethereum_compatibility = false;
  keccak = λ code. 100 + length code;
  get_account_id = λ a. a + 1000;
  get_evm_address = λ who. if leb 1000 who then some (who - 1000) else none;
  get_default_evm_address = λ who. who + 5000;
  get_or_create_evm_address = λ who. who - 1000;
}

abbrev funds : Funds Book
funds = record { withdraw_fee = λ who a l. ok l; transfer_all = λ from to l. ok (from ∷ [], l) }

abbrev shared_code : ContractInfo
shared_code = record { code_hash = 102; maintainer = 1; deployed = false }

abbrev account : EvmAccountInfo
account = record { nonce = 0; contract_info = some shared_code; developer_deposit = none }

abbrev ledger : Book
ledger = record { free = λ who. 1000; held = λ who. 0; issued = 100_000 }

abbrev two_contracts : State Book
two_contracts = record {
  accounts = (20, account) ∷ (21, account) ∷ [];
  account_storages = [];
  codes = (102, 1 ∷ 2 ∷ []) ∷ [];
  code_infos = (102, record { code_size = 2; ref_count = 2 }) ∷ [];
  network_contract_index = 2048;
  extrinsic_origin = none;
  queued_events = [];
  events = [];
  ledger = ledger;
}

abbrev after : Dispatch Error (State Book) → State Book
after r = settle two_contracts r

abbrev transferred : State Book
transferred = after (do_transfer_maintainer book funds config 1001 20 7 two_contracts)

transferred_ok : do_transfer_maintainer book funds config 1001 20 7 two_contracts ≡ ok transferred
unfolding do_transfer_maintainer found lookup
transferred_ok = refl

abbrev marked : State Book
marked = after (mark_deployed book funds config 20 none two_contracts)

marked_ok : mark_deployed book funds config 20 none two_contracts ≡ ok marked
unfolding mark_deployed found lookup
marked_ok = refl

abbrev new_code : State Book
new_code = after (do_set_code book funds config (signed 1001) 20 (1 ∷ 2 ∷ 3 ∷ []) two_contracts)

new_code_ok :
    do_set_code book funds config (signed 1001) 20 (1 ∷ 2 ∷ 3 ∷ []) two_contracts ≡ ok new_code
unfolding do_set_code found lookup may_set_code
new_code_ok = refl

abbrev enabled : State Book
enabled = after (enable_contract_development book funds config (ok 1030) two_contracts)

enabled_ok : enable_contract_development book funds config (ok 1030) two_contracts ≡ ok enabled
unfolding enable_contract_development lookup
enabled_ok = refl

mark_deployed_final_example :
    (is_ok (deploy book funds config (ok 1001) 20 marked) ≡ false)
    × (is_ok (deploy_free book funds config (ok tt) 20 marked) ≡ false)
    × (is_ok (selfdestruct book funds config (ok 1001) 20 marked) ≡ false)
    × (is_ok (set_code book funds config (ok (signed 1001)) 20 (9 ∷ []) marked) ≡ false)
mark_deployed_final_example =
    mark_deployed_final book funds config 20 none (ok 1001) (ok tt) 1001 (9 ∷ []) two_contracts
      marked marked_ok

do_set_code-code_hash_at_address_example :
    (code_hash_at_address config 20 new_code ≡ code_hash_at_address config 20 two_contracts)
    × ((c : ContractInfo) × (contract_of (lookup 20 two_contracts.accounts) ≡ some c)
        × IsStored config c.code_hash (1 ∷ 2 ∷ 3 ∷ []) two_contracts new_code)
do_set_code-code_hash_at_address_example =
    do_set_code-code_hash_at_address book funds config (signed 1001) 20 20 (1 ∷ 2 ∷ 3 ∷ [])
      two_contracts new_code new_code_ok

disable-enable_example :
    (u : State Book) × (disable_contract_development book funds config (ok 1030) enabled ≡ ok u)
    × (u.ledger.free 1030 ≡ 1000)
    × (u.ledger.held 1030 ≡ 0)
    × (is_ok (enable_contract_development book funds config (ok 1030) enabled) ≡ false)
disable-enable_example =
    disable-enable book funds config book_laws 1030 two_contracts enabled enabled_ok refl

remove_contract_shared_example :
    (t : State Book) × (remove_contract book funds config 1 20 two_contracts ≡ ok t)
    × (code_hash_at_address config 21 t ≡ 102)
    × (code_at_address config 21 t ≡ [])
unfolding found lookup
remove_contract_shared_example =
    remove_contract_shared book funds config 1 20 21 account account shared_code shared_code 2
      (released book funds config 20 two_contracts) two_contracts refl refl (λ e. omega (arith, e))
      refl refl refl refl refl (refl, tt)

-- Contracts with the same code and one with its own, which selfdestructs. The transfer of its funds kills its
-- account.
abbrev history : List Step
history =
    initialize_step 20 1 (1 ∷ 2 ∷ []) 0 (pos 0)
    ∷ initialize_step 21 1 (1 ∷ 2 ∷ []) 0 (pos 0)
    ∷ initialize_step 22 1 (1 ∷ 2 ∷ 3 ∷ []) 0 (pos 0)
    ∷ transfer_maintainer_step (ok 1001) 20 7
    ∷ selfdestruct_step (ok 1001) 22
    ∷ killed_step 1021
    ∷ []

abbrev last : State Book
last = run book funds config (empty ledger) history

abbrev before : State Book
before = run book funds config (empty ledger) (take 4 history)

counted_once : count_of (contract_of (lookup 22 before.accounts)) before ≡ 1
unfolding run step on_contract_initialization ref_code lookup transfer_maintainer
    do_transfer_maintainer found insert
counted_once = refl

history-AllSafe : AllSafe book funds config (empty ledger) history
unfolding run
history-AllSafe =
    (tt, (tt, (tt, (tt, (inl (subst (λ n. n ≤ 1) (sym counted_once) (omega arith)), (tt, tt))))))

-- Only the shared code is left.
last_codes : (code_hash_at_address config 22 last ≡ 100) × (last.codes ≡ (102, 1 ∷ 2 ∷ []) ∷ [])
unfolding code_hash_at_address run step on_contract_initialization ref_code lookup selfdestruct
    on_killed_account remove do_selfdestruct found transfer_maintainer do_transfer_maintainer insert
    remove_contract on_killed_accounts
last_codes = (refl, refl)

empty-run-IsCounted_example :
    IsCounted config 6 last
    × (config.keccak (code_at_address config 20 last) ≡ code_hash_at_address config 20 last)
empty-run-IsCounted_example =
    empty-run-IsCounted book funds config ledger history 20 (ground arith) history-AllSafe
