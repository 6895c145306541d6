-- ===== src/Evm/Contracts/Shared.antt =====
-- `remove_contract` of modules/evm/src/lib.rs when the transfer of the contract's funds kills its account.
use chain_upgrade.Base.{
  ℕ, ◌+◌, ◌≡◌, ◌≢◌, refl, ap, ◌∙◌, [], ◌∷◌, none, some, ok, ◌>>=◌, ok_or, arith,
}
use chain_upgrade.Base.Map.{
  lookup, insert, remove, Distinct, lookup-insert, lookup-remove_self, lookup-remove_ne,
}
use chain_upgrade.Substrate.{AccountId, Currency, pallet}
use chain_upgrade.Evm.Meter.{EvmAddress}
use chain_upgrade.Evm.Contracts.Storage.{
  Hash, contract_not_found, ContractInfo, EvmAccountInfo, State, Config, Funds,
}
use chain_upgrade.Evm.Contracts.Counted.{deref_contract-accounts}
use chain_upgrade.Evm.Contracts.Laws.{found_ok}
use chain_upgrade.Evm.Contracts.Code.{
  contract_of, value_or_empty, deref_code, deref_contract, remove_some, on_killed_account,
  code_at_address, code_hash_at_address, remove_account,
}
use chain_upgrade.Evm.Contracts.Calls.{found, put, on_killed_accounts, remove_contract, move_funds}

module _ (currency : Currency) (funds : Funds currency.Ledger) (config : Config) where
  open currency use {Ledger, reserved_balance}

  deref_more :
      (h : Hash) (size n : ℕ) (s : State Ledger)
      → lookup h s.code_infos ≡ some (record { code_size = size; ref_count = n + 2 })
      → deref_code h s ≡ record s {
        code_infos = insert h (record { code_size = size; ref_count = n + 1 }) s.code_infos;
      }
  unfolding deref_code
  deref_more h size n s e = ground arith

  deref_last :
      (h : Hash) (size : ℕ) (s : State Ledger)
      → lookup h s.code_infos ≡ some (record { code_size = size; ref_count = 1 })
      → deref_code h s ≡ record s { codes = remove h s.codes; code_infos = remove h s.code_infos }
  unfolding deref_code
  deref_last h size s e = ground arith

  remove_account_codes :
      (contract : EvmAddress) (a : EvmAccountInfo) (c : ContractInfo) (s : State Ledger)
      → found contract s ≡ ok (a, c)
      → ((remove_account contract s).1.codes ≡ (deref_code c.code_hash s).codes)
        × ((remove_account contract s).1.accounts ≡ remove contract s.accounts)
  unfolding remove_account
  remove_account_codes contract a c s e =
      let there : contract_of (lookup contract s.accounts) ≡ some c =
        ground (arith, found_ok currency funds config contract s a c e) in
      (
        ap (λ o. (deref_contract o s).codes) there,
        ap (remove contract) (deref_contract-accounts (contract_of (lookup contract s.accounts)) s),
      )

  remove_absent :
      (j : EvmAddress) (s : State Ledger)
      → lookup j s.accounts ≡ none
      → ((remove_account j s).1.codes ≡ s.codes)
        × ((remove_account j s).1.accounts ≡ remove j s.accounts)
  unfolding remove_account
  remove_absent j s e = (
    ap (λ o. (deref_contract (contract_of o) s).codes) e,
    ap (remove j) (deref_contract-accounts (contract_of (lookup j s.accounts)) s),
  )

  -- The hook of the contract's own account, on a contract that still stands in the accounts.
  killed_contract :
      (contract : EvmAddress) (who : AccountId) (a : EvmAccountInfo) (c : ContractInfo)
      (s : State Ledger)
      → found contract s ≡ ok (a, c)
      → config.get_evm_address who ≡ some contract
      → lookup (config.get_default_evm_address who) s.accounts ≡ none
      → ((on_killed_account config who s).codes ≡ (deref_code c.code_hash s).codes)
        × ((on_killed_account config who s).accounts
            ≡ remove (config.get_default_evm_address who) (remove contract s.accounts))
  unfolding on_killed_account
  killed_contract contract who a c s e h k =
      let d = config.get_default_evm_address who in
      let u = (remove_account contract s).1 in
      let (codes, accounts) = remove_account_codes contract a c s e in
      let apart : d ≢ contract = λ same. ground (
        arith,
        found_ok currency funds config contract s a c e,
        ap (λ j. lookup j s.accounts) same,
      ) in
      let absent : lookup d u.accounts ≡ none =
        ap (lookup d) accounts ∙ lookup-remove_ne d contract s.accounts apart ∙ k in
      let (codes', accounts') = remove_absent d u absent in
      (
        ap (λ o. (remove_account d (remove_some config o s)).1.codes) h ∙ codes' ∙ codes,
        ap (λ o. (remove_account d (remove_some config o s)).1.accounts) h
            ∙ accounts'
            ∙ ap (remove d) accounts,
      )

  found_same :
      (contract : EvmAddress) (s t : State Ledger)
      → t.accounts ≡ s.accounts
      → found contract t ≡ found contract s
  unfolding found
  found_same contract s t e =
      ap
        (λ m. ok_or (lookup contract m) (pallet contract_not_found) >>= λ account_info.
          ok_or account_info.contract_info (pallet contract_not_found) >>= λ contract_info.
          ok (account_info, contract_info))
        e

  -- The ledger when the funds of the contract are transferred: its reserve is released.
  abbrev pub released : EvmAddress → State Ledger → Ledger
  released contract s =
      let acc = config.get_account_id contract in
      currency.unreserve acc (reserved_balance acc s.ledger) s.ledger

  -- A removed contract whose code another contract shares, with two references, and whose account the
  -- transfer of its funds kills: the hook still finds the contract and drops the reference again, so
  -- the code is gone, and the other contract runs the empty code.
  pub remove_contract_shared :
      (caller contract j : EvmAddress) (a b : EvmAccountInfo) (c d : ContractInfo) (size : ℕ)
      (m : Ledger) (s : State Ledger)
      → found contract s ≡ ok (a, c)
      → found j s ≡ ok (b, d)
      → j ≢ contract
      → d.code_hash ≡ c.code_hash
      → lookup c.code_hash s.code_infos ≡ some (record { code_size = size; ref_count = 2 })
      → config.get_evm_address (config.get_account_id contract) ≡ some contract
      → lookup (config.get_default_evm_address (config.get_account_id contract)) s.accounts ≡ none
      → funds.transfer_all
          (config.get_account_id contract)
          (config.get_account_id caller)
          (released contract s)
        ≡ ok (config.get_account_id contract ∷ [], m)
      → Distinct s.codes
      → (t : State Ledger) × (remove_contract currency funds config caller contract s ≡ ok t)
        × (code_hash_at_address config j t ≡ c.code_hash)
        × (code_at_address config j t ≡ [])
  unfolding remove_contract on_killed_accounts code_at_address code_hash_at_address
  remove_contract_shared caller contract j a b c d size m s p q apart shared count back fresh moved
        distinct =
      let h = c.code_hash in
      let acc = config.get_account_id contract in
      let s0 : State Ledger = record s { account_storages = remove contract s.account_storages } in
      let infos = insert h (record { code_size = size; ref_count = 1 }) s.code_infos in
      let s2 : State Ledger = record s0 { code_infos = infos; ledger = m } in
      let p2 : found contract s2 ≡ ok (a, c) = found_same contract s s2 refl ∙ p in
      let (codes, accounts) = killed_contract contract acc a c s2 p2 back fresh in
      let last = deref_last h size s2 (
        ground
          (arith, lookup-insert h h (record { code_size = size; ref_count = 1 }) s.code_infos)) in
      let k = on_killed_account config acc s2 in
      let t = put contract a none k in
      let run1 : remove_contract currency funds config caller contract s
          ≡ move_funds currency funds config caller contract a (deref_code h s0) =
        ground (arith, p) in
      let once = deref_more h size 0 s0 count in
      let fresh_address = config.get_default_evm_address acc in
      let other : j ≢ fresh_address = λ same. ground (
        arith,
        found_ok currency funds config j s b d q,
        ap (λ i. lookup i s.accounts) same,
        fresh,
      ) in
      let kept : lookup j k.accounts ≡ lookup j s.accounts =
        ap (lookup j) accounts
        ∙ lookup-remove_ne j fresh_address (remove contract s.accounts) other
        ∙ lookup-remove_ne j contract s.accounts apart in
      let hash : code_hash_at_address config j t ≡ h = ground (
        arith,
        kept,
        found_ok currency funds config j s b d q,
        lookup-insert j contract (record a { contract_info = none }) k.accounts,
      ) in
      (
        put contract a none k,
        run1 ∙ ap (move_funds currency funds config caller contract a) once ∙ ground (arith, moved),
        hash,
        ap (λ i. value_or_empty (lookup i k.codes)) hash
            ∙ ap (λ o. value_or_empty (lookup h o)) (codes ∙ ap (λ v. v.codes) last)
            ∙ ap value_or_empty (lookup-remove_self h s.codes distinct),
      )
