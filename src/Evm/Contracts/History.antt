-- ===== src/Evm/Contracts/History.antt =====
-- Histories of contracts in modules/evm/src/lib.rs: made, removed, killed, and called.
use chain_upgrade.Base.{
  ℕ, ◌+◌, ◌≡◌, ◌≤◌, inl, inr, refl, sym, subst, List, [], ◌∷◌, none, ok, err, Result-cases, length,
  settle, u32_max, arith,
}
use chain_upgrade.Base.Int.{ℤ}
use chain_upgrade.Base.Map.{lookup}
use chain_upgrade.Substrate.{AccountId, Currency, Dispatch}
use chain_upgrade.Evm.Meter.{EvmAddress}
use chain_upgrade.Evm.Contracts.Storage.{Error, State, Config, Funds}
use chain_upgrade.Evm.Contracts.Code.{
  code_at_address, code_hash_at_address, remove_account, on_killed_account,
  on_contract_initialization,
}
use chain_upgrade.Evm.Contracts.Calls.{
  RootOrSigned, transfer_maintainer, deploy, deploy_free, enable_contract_development,
  disable_contract_development, set_code, selfdestruct,
}
use chain_upgrade.Evm.Contracts.Counts.{refs}
use chain_upgrade.Evm.Contracts.Counted.{IsCounted, IsCounted-hash}
use chain_upgrade.Evm.Contracts.Keeping.{
  weaken, remove_account-IsCounted, on_killed_account-IsCounted,
  on_contract_initialization-IsCounted,
}
use chain_upgrade.Evm.Contracts.CallsKeep.{
  Writes-IsCounted, enable_contract_development-Writes, disable_contract_development-Writes,
}
use chain_upgrade.Evm.Contracts.StepsKeep.{
  transfer_maintainer-IsCounted, deploy-IsCounted, deploy_free-IsCounted, set_code-IsCounted,
}
use chain_upgrade.Evm.Contracts.Removal.{IsSeparate, selfdestruct-IsCounted}

-- A call of the module, or what the runner and the hooks of the runtime have it do.
pub data Step : Type 0 where
  initialize_step : EvmAddress → EvmAddress → List ℕ → ℕ → ℤ → Step
  remove_step : EvmAddress → Step
  killed_step : AccountId → Step
  transfer_maintainer_step : Dispatch Error AccountId → EvmAddress → EvmAddress → Step
  deploy_step : Dispatch Error AccountId → EvmAddress → Step
  deploy_free_step : Dispatch Error (Unit {0}) → EvmAddress → Step
  enable_step : Dispatch Error AccountId → Step
  disable_step : Dispatch Error AccountId → Step
  set_code_step : Dispatch Error RootOrSigned → EvmAddress → List ℕ → Step
  selfdestruct_step : Dispatch Error AccountId → EvmAddress → Step

abbrev pub empty : {Ledger : Type 0} → Ledger → State Ledger
empty l = record {
  accounts = [];
  account_storages = [];
  codes = [];
  code_infos = [];
  network_contract_index = 0;
  extrinsic_origin = none;
  queued_events = [];
  events = [];
  ledger = l;
}

module _ (currency : Currency) (funds : Funds currency.Ledger) (config : Config) where
  open currency use {Ledger}

  unfoldable pub step : State Ledger → Step → State Ledger
  step s (initialize_step address maintainer code gas storage) =
      settle s (on_contract_initialization config address maintainer code gas storage s)
  step s (remove_step address) = (remove_account address s).1
  step s (killed_step who) = on_killed_account config who s
  step s (transfer_maintainer_step origin k m) =
      settle s (transfer_maintainer currency funds config origin k m s)
  step s (deploy_step origin k) = settle s (deploy currency funds config origin k s)
  step s (deploy_free_step allowed k) = settle s (deploy_free currency funds config allowed k s)
  step s (enable_step origin) =
      settle s (enable_contract_development currency funds config origin s)
  step s (disable_step origin) =
      settle s (disable_contract_development currency funds config origin s)
  step s (set_code_step origin k code) = settle s (set_code currency funds config origin k code s)
  step s (selfdestruct_step origin k) = settle s (selfdestruct currency funds config origin k s)

  unfoldable pub run : State Ledger → List Step → State Ledger
  run s [] = s
  run s (x ∷ xs) = run (step s x) xs

  -- Before every `selfdestruct` of a history, the contract alone has its code, or the transfer of its funds
  -- kills no account.
  abbrev pub IsSafe : State Ledger → Step → Type 0
  IsSafe s (initialize_step address maintainer code gas storage) = Unit {0}
  IsSafe s (remove_step address) = Unit {0}
  IsSafe s (killed_step who) = Unit {0}
  IsSafe s (transfer_maintainer_step origin k m) = Unit {0}
  IsSafe s (deploy_step origin k) = Unit {0}
  IsSafe s (deploy_free_step allowed k) = Unit {0}
  IsSafe s (enable_step origin) = Unit {0}
  IsSafe s (disable_step origin) = Unit {0}
  IsSafe s (set_code_step origin k code) = Unit {0}
  IsSafe s (selfdestruct_step origin k) = IsSeparate currency funds config k s

  abbrev pub AllSafe : State Ledger → List Step → Type 0
  AllSafe s [] = Unit {0}
  AllSafe s (x ∷ xs) = IsSafe s x × AllSafe (step s x) xs

  -- A call that keeps the counts if it succeeds keeps them if it fails.
  settled :
      (n : ℕ) (s : State Ledger) (r : Dispatch Error (State Ledger))
      → IsCounted config n s
      → ((t : State Ledger) → r ≡ ok t → IsCounted config (n + 1) t)
      → IsCounted config (n + 1) (settle s r)
  settled n s (ok t) v keep = keep t refl
  settled n s (err why) v keep = weaken config n s v

  step-IsCounted :
      (n : ℕ) (s : State Ledger) (x : Step)
      → n + 1 ≤ u32_max
      → IsSafe s x
      → IsCounted config n s
      → IsCounted config (n + 1) (step s x)
  unfolding step
  step-IsCounted n s (initialize_step address maintainer code gas storage) small safe v =
      elim (Result-cases
        (on_contract_initialization config address maintainer code gas storage s)) [
          | inl (t, e) ↦
              subst (λ r. IsCounted config (n + 1) (settle s r)) (sym e)
                (on_contract_initialization-IsCounted config n address maintainer code gas storage s
                  t small v e)
          | inr (why, e) ↦
              subst (λ r. IsCounted config (n + 1) (settle s r)) (sym e) (weaken config n s v)
        ]
  step-IsCounted n s (remove_step address) small safe v =
      weaken config n _ (remove_account-IsCounted config n address s v)
  step-IsCounted n s (killed_step who) small safe v =
      weaken config n _ (on_killed_account-IsCounted config n who s v)
  step-IsCounted n s (transfer_maintainer_step origin k m) small safe v =
      settled n s (transfer_maintainer currency funds config origin k m s) v
        (λ t. transfer_maintainer-IsCounted currency funds config n origin k m s t v)
  step-IsCounted n s (deploy_step origin k) small safe v =
      settled n s (deploy currency funds config origin k s) v
        (λ t. deploy-IsCounted currency funds config n origin k s t v)
  step-IsCounted n s (deploy_free_step allowed k) small safe v =
      settled n s (deploy_free currency funds config allowed k s) v
        (λ t. deploy_free-IsCounted currency funds config n allowed k s t v)
  step-IsCounted n s (enable_step origin) small safe v =
      settled n s (enable_contract_development currency funds config origin s) v λ t e.
        Writes-IsCounted currency funds config n s t v
          (enable_contract_development-Writes currency funds config origin s t e)
  step-IsCounted n s (disable_step origin) small safe v =
      settled n s (disable_contract_development currency funds config origin s) v λ t e.
        Writes-IsCounted currency funds config n s t v
          (disable_contract_development-Writes currency funds config origin s t e)
  step-IsCounted n s (set_code_step origin k code) small safe v =
      settled n s (set_code currency funds config origin k code s) v
        (λ t. set_code-IsCounted currency funds config n origin k code s t small v)
  step-IsCounted n s (selfdestruct_step origin k) small safe v =
      settled n s (selfdestruct currency funds config origin k s) v
        (λ t. selfdestruct-IsCounted currency funds config n origin k s t safe v)

  run-IsCounted :
      (n : ℕ) (s : State Ledger) (xs : List Step)
      → n + length xs ≤ u32_max
      → AllSafe s xs
      → IsCounted config n s
      → IsCounted config (n + length xs) (run s xs)
  unfolding run
  run-IsCounted n s [] small safe v = subst (λ m. IsCounted config m s) (omega arith) v
  run-IsCounted n s (x ∷ xs) small safe v =
      subst (λ m. IsCounted config m (run (step s x) xs)) (omega arith)
        (run-IsCounted (n + 1) (step s x) xs (omega arith) safe.1
          (step-IsCounted n s x (omega arith) safe.0 v))

  empty-IsCounted : (l : Ledger) → IsCounted config 0 (empty l)
  unfolding lookup refs
  empty-IsCounted l = record {
    few = omega arith;
    accounts_Distinct = tt;
    infos_Distinct = tt;
    codes_Distinct = tt;
    hashed = λ h code q. ground arith;
    present = λ h info q. ground arith;
    counted = λ h. omega arith;
  }

  -- After every history of fewer than 2^32 steps from the empty storage in which, before every
  -- `selfdestruct`, the code of the contract is counted at most once or the transfer of the contract's funds
  -- kills no account: no code has more contracts than it is counted for, code stands in the storage under
  -- its hash for as long as it is counted, and what an address shows is code with the hash that it shows.
  pub empty-run-IsCounted :
      (l : Ledger) (xs : List Step) (j : EvmAddress)
      → length xs ≤ u32_max
      → AllSafe (empty l) xs
      → IsCounted config (length xs) (run (empty l) xs)
        × (config.keccak (code_at_address config j (run (empty l) xs))
            ≡ code_hash_at_address config j (run (empty l) xs))
  empty-run-IsCounted l xs j small safe =
      let v =
        subst (λ m. IsCounted config m (run (empty l) xs)) (omega arith)
          (run-IsCounted 0 (empty l) xs (omega arith) safe (empty-IsCounted l)) in
      (v, IsCounted-hash config (length xs) j (run (empty l) xs) v)
