-- ===== src/Evm/Contracts/Keeping.antt =====
-- What makes and removes contracts in modules/evm/src/lib.rs keeps the counts of shared code.
use chain_upgrade.Base.{
  ℕ, ◌+◌, ◌≡◌, ◌≤◌, refl, sym, ap, subst, List, Option, none, some, ok, length, u32_max, arith,
}
use chain_upgrade.Base.Int.{ℤ}
use chain_upgrade.Base.Map.{Map, lookup, insert, remove, Distinct, insert-Distinct, remove-Distinct}
use chain_upgrade.Substrate.{AccountId}
use chain_upgrade.Evm.Meter.{EvmAddress}
use chain_upgrade.Evm.Contracts.Storage.{Hash, ContractInfo, EvmAccountInfo, State, Config}
use chain_upgrade.Evm.Contracts.Code.{
  contract_of, deref_code, ref_code, ref_info, deref_contract, remove_account, remove_some,
  on_killed_account, on_contract_initialization, with_contract, new_contract,
}
use chain_upgrade.Evm.Contracts.Counts.{
  points, refs, count_at, refs-insert, refs-remove, length-insert_le, length-remove_le,
}
use chain_upgrade.Evm.Contracts.Counted.{
  IsCounted, ref_info-accounts, deref_contract-accounts, same_maps, fewer, ref_info-IsCounted,
  deref_info-IsCounted,
}

module _ {Ledger : Type 0} (config : Config) where
  pub insert-IsCounted :
      (n : ℕ) (k : EvmAddress) (a : EvmAccountInfo) (s : State Ledger)
      → IsCounted config n s
      → ((h : Hash) → points h a.contract_info ≤ points h (contract_of (lookup k s.accounts)))
      → IsCounted config (n + 1) (record s { accounts = insert k a s.accounts })
  insert-IsCounted n k a s v le = record {
    few = omega (arith, length-insert_le k a s.accounts, v.few);
    accounts_Distinct = insert-Distinct k a s.accounts v.accounts_Distinct;
    infos_Distinct = v.infos_Distinct;
    codes_Distinct = v.codes_Distinct;
    hashed = v.hashed;
    present = v.present;
    counted = λ h. omega (arith, le h, v.counted h, refs-insert h k a s.accounts);
  }

  pub weaken : (n : ℕ) (s : State Ledger) → IsCounted config n s → IsCounted config (n + 1) s
  weaken n s v = record {
    few = omega (arith, v.few);
    accounts_Distinct = v.accounts_Distinct;
    infos_Distinct = v.infos_Distinct;
    codes_Distinct = v.codes_Distinct;
    hashed = v.hashed;
    present = v.present;
    counted = v.counted;
  }

  -- A contract of a hash that is counted for one more.
  claimed-IsCounted :
      (n : ℕ) (k : EvmAddress) (a : EvmAccountInfo) (c : ContractInfo) (s : State Ledger)
      → IsCounted config n s
      → a.contract_info ≡ some c
      → refs c.code_hash s.accounts + 1 ≤ count_at (lookup c.code_hash s.code_infos)
      → IsCounted config (n + 1) (record s { accounts = insert k a s.accounts })
  claimed-IsCounted n k a c s v e more = record {
    few = omega (arith, length-insert_le k a s.accounts, v.few);
    accounts_Distinct = insert-Distinct k a s.accounts v.accounts_Distinct;
    infos_Distinct = v.infos_Distinct;
    codes_Distinct = v.codes_Distinct;
    hashed = v.hashed;
    present = v.present;
    counted = λ h. ground (arith, v.counted h, refs-insert h k a s.accounts);
  }

  pub deref_contract-IsCounted :
      (n : ℕ) (o : Option ContractInfo) (m : Map EvmAccountInfo) (s : State Ledger)
      → IsCounted config n s
      → length m ≤ n
      → Distinct m
      → ((h : Hash) → refs h m + points h o ≡ refs h s.accounts)
      → IsCounted config n (record (deref_contract o s) { accounts = m })
  unfolding deref_code
  deref_contract-IsCounted n none m s v l d less =
      fewer config n s m v l d (λ h. omega (arith, less h))
  deref_contract-IsCounted n (some c) m s v l d less =
      deref_info-IsCounted config n c.code_hash (lookup c.code_hash s.code_infos) m s v refl l d
        (λ h. ground (arith, less h))

  pub remove_account-IsCounted :
      (n : ℕ) (k : EvmAddress) (s : State Ledger)
      → IsCounted config n s
      → IsCounted config n (remove_account k s).1
  unfolding remove_account
  remove_account-IsCounted n k s v =
      let o = contract_of (lookup k s.accounts) in
      let m = remove k s.accounts in
      let t = deref_contract o s in
      let kept = ap (remove k) (deref_contract-accounts o s) in
      let w =
        deref_contract-IsCounted n o m s v (omega (arith, length-remove_le k s.accounts, v.few))
          (remove-Distinct k s.accounts v.accounts_Distinct) (λ h. refs-remove h k s.accounts) in
      same_maps config n (record t { accounts = m }) (remove_account k s).1 kept refl refl w

  remove_some-IsCounted :
      (n : ℕ) (o : Option EvmAddress) (s : State Ledger)
      → IsCounted config n s
      → IsCounted config n (remove_some config o s)
  remove_some-IsCounted n none s v = v
  remove_some-IsCounted n (some k) s v = remove_account-IsCounted n k s v

  pub on_killed_account-IsCounted :
      (n : ℕ) (who : AccountId) (s : State Ledger)
      → IsCounted config n s
      → IsCounted config n (on_killed_account config who s)
  unfolding on_killed_account
  on_killed_account-IsCounted n who s v =
      remove_account-IsCounted n (config.get_default_evm_address who)
        (remove_some config (config.get_evm_address who) s)
        (remove_some-IsCounted n (config.get_evm_address who) s v)

  pub on_contract_initialization-IsCounted :
      (n : ℕ) (address maintainer : EvmAddress) (code : List ℕ) (gas : ℕ) (storage : ℤ)
      (s t : State Ledger)
      → n + 1 ≤ u32_max
      → IsCounted config n s
      → on_contract_initialization config address maintainer code gas storage s ≡ ok t
      → IsCounted config (n + 1) t
  unfolding on_contract_initialization ref_code
  on_contract_initialization-IsCounted n address maintainer code gas storage s t small v e =
      let h = config.keccak code in
      let o = lookup h s.code_infos in
      let u = ref_info h code o s in
      let (w, more) = ref_info-IsCounted config n h code o s small refl v refl in
      let c = new_contract config maintainer code in
      let a = with_contract c (lookup address u.accounts) in
      let held : refs h u.accounts + 1 ≤ count_at (lookup h u.code_infos) =
        subst (λ m. refs h m + 1 ≤ count_at (lookup h u.code_infos))
          (sym (ref_info-accounts h code o s)) more in
      same_maps config (n + 1) (record u { accounts = insert address a u.accounts }) t
        (ground arith) (ground arith) (ground arith)
        (claimed-IsCounted n address a c u w (ground arith) held)
