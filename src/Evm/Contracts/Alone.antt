-- ===== src/Evm/Contracts/Alone.antt =====
-- The removal of a contract of modules/evm/src/lib.rs that alone has its code, whatever accounts the
-- transfer of its funds kills. The hook of killed accounts still finds the contract, but not its code.
use chain_upgrade.Base.{
  ℕ, ◌+◌, ◌-◌, ◌≡◌, ◌≢◌, ◌≤◌, refl, sym, ap, subst, inl, inr, ◌∙◌, Option, none, some, Option-cases,
  Bool-cases, ◌==◌, length, arith,
}
use chain_upgrade.Base.Map.{
  Map, lookup, insert, remove, Distinct, lookup-insert, lookup-remove, insert-Distinct,
  remove-Distinct,
}
use chain_upgrade.Substrate.{AccountId}
use chain_upgrade.Evm.Meter.{EvmAddress}
use chain_upgrade.Evm.Contracts.Storage.{
  Hash, ContractInfo, EvmAccountInfo, CodeInfo, State, Config,
}
use chain_upgrade.Evm.Contracts.Code.{
  contract_of, deref_code, deref_contract, remove_account, remove_some, on_killed_account,
}
use chain_upgrade.Evm.Contracts.Calls.{put}
use chain_upgrade.Evm.Contracts.Counts.{
  points, count_at, refs-insert, refs-remove, length-insert_le, length-remove_le,
}
use chain_upgrade.Evm.Contracts.Counted.{IsCounted, deref_contract-accounts, same_maps, fewer}
use chain_upgrade.Evm.Contracts.Keeping.{weaken, deref_contract-IsCounted}

-- The count of a contract's code.
abbrev pub count_of : {Ledger : Type 0} → Option ContractInfo → State Ledger → ℕ
count_of none s = 0
count_of (some c) s = count_at (lookup c.code_hash s.code_infos)

module _ {Ledger : Type 0} where
  -- The codes and counts after a dereference do not depend on the accounts.
  deref_contract-same :
      (o : Option ContractInfo) (m : Map EvmAccountInfo) (s : State Ledger)
      → ((deref_contract o s).code_infos
          ≡ (deref_contract o (record s { accounts = m })).code_infos)
        × ((deref_contract o s).codes ≡ (deref_contract o (record s { accounts = m })).codes)
  unfolding deref_code
  deref_contract-same none m s = (refl, refl)
  deref_contract-same (some c) m s = elim (Option-cases (lookup c.code_hash s.code_infos)) [
    | inl p ↦ (ground arith, ground arith)
    | inr (info, p) ↦ elim (Bool-cases (info.ref_count - 1 == 0)) [
      | inl b ↦ (ground arith, ground arith)
      | inr b ↦ (ground arith, ground arith)
    ]
  ]

  deref_contract-uncounted :
      (h : Hash) (o : Option ContractInfo) (s : State Ledger)
      → Distinct s.code_infos
      → lookup h s.code_infos ≡ none
      → lookup h (deref_contract o s).code_infos ≡ none
  unfolding deref_code
  deref_contract-uncounted h none s d e = e
  deref_contract-uncounted h (some c) s d e =
      elim (Option-cases (lookup c.code_hash s.code_infos)) [
        | inl p ↦ ground arith
        | inr (info, p) ↦
            let new : CodeInfo = record info { ref_count = info.ref_count - 1 } in
            ground (
              arith,
              lookup-remove h c.code_hash s.code_infos d,
              lookup-insert h c.code_hash new s.code_infos,
            )
      ]

  deref_contract_uncounted :
      (o : Option ContractInfo) (s : State Ledger)
      → ((c : ContractInfo) → o ≡ some c → lookup c.code_hash s.code_infos ≡ none)
      → deref_contract o s ≡ s
  unfolding deref_code
  deref_contract_uncounted none s e = refl
  deref_contract_uncounted (some c) s e = ground (arith, e c refl)

module _ {Ledger : Type 0} (config : Config) where
  -- The invariant holds without the account `k`, and the code of a contract at `k` is not counted.
  pub record IsSpare (n : ℕ) (k : EvmAddress) (s : State Ledger) : Type 0 where
    pub rest : IsCounted config n (record s { accounts = remove k s.accounts })
    pub few : length s.accounts ≤ n
    pub accounts_Distinct : Distinct s.accounts
    pub uncounted :
        (c : ContractInfo)
        → contract_of (lookup k s.accounts) ≡ some c
        → lookup c.code_hash s.code_infos ≡ none

  remove_self-IsSpare :
      (n : ℕ) (k : EvmAddress) (s : State Ledger)
      → IsSpare n k s
      → IsSpare n k (remove_account k s).1
  unfolding remove_account
  remove_self-IsSpare n k s v =
      let m = remove k s.accounts in
      let o = contract_of (lookup k s.accounts) in
      let untouched = deref_contract_uncounted o s v.uncounted in
      let gone = lookup-remove k k s.accounts v.accounts_Distinct in
      let t : State Ledger = record s {
        accounts = m;
        account_storages = remove k s.account_storages;
      } in
      subst
        (λ u. IsSpare n k (record u {
          accounts = remove k u.accounts;
          account_storages = remove k u.account_storages;
        }))
        (sym untouched)
        (record {
          rest =
              same_maps config n (record s { accounts = remove k m })
                (record t { accounts = remove k m }) refl refl refl
                (fewer config n (record s { accounts = m }) (remove k m) v.rest
                  (omega (arith, length-remove_le k m, length-remove_le k s.accounts, v.few))
                  (remove-Distinct k m (remove-Distinct k s.accounts v.accounts_Distinct))
                  (λ h. omega (arith, refs-remove h k m)));
          few = omega (arith, length-remove_le k s.accounts, v.few);
          accounts_Distinct = remove-Distinct k s.accounts v.accounts_Distinct;
          uncounted = λ c e. absurd (ground (arith, gone));
        })

  remove_other-IsSpare :
      (n : ℕ) (k j : EvmAddress) (s : State Ledger)
      → j ≢ k
      → IsSpare n k s
      → IsSpare n k (remove_account j s).1
  unfolding remove_account
  remove_other-IsSpare n k j s differ v =
      let m = s.accounts in
      let o = contract_of (lookup j m) in
      let kept = deref_contract-accounts o s in
      let d = v.accounts_Distinct in
      let (infos, codes) = deref_contract-same o (remove k m) s in
      let still : lookup k (remove j m) ≡ lookup k m = ground (arith, lookup-remove k j m d) in
      let w =
        deref_contract-IsCounted config n o (remove k (remove j m))
          (record s { accounts = remove k m }) v.rest
          (omega (arith, length-remove_le k (remove j m), length-remove_le j m, v.few))
          (remove-Distinct k (remove j m) (remove-Distinct j m d))
          (λ h. omega (
            arith,
            refs-remove h k (remove j m),
            refs-remove h j m,
            refs-remove h k m,
            ap (λ a. points h (contract_of a)) still,
          )) in
      record {
        rest =
            same_maps config n
              (record (deref_contract o (record s { accounts = remove k m })) {
                accounts = remove k (remove j m);
              })
              (record (remove_account j s).1 {
                accounts = remove k (remove_account j s).1.accounts;
              })
              (ap (λ a. remove k (remove j a)) kept) infos codes w;
        few =
            subst (λ a. length (remove j a) ≤ n) (sym kept)
              (omega (arith, length-remove_le j m, v.few));
        accounts_Distinct = subst (λ a. Distinct (remove j a)) (sym kept) (remove-Distinct j m d);
        uncounted = λ c e. deref_contract-uncounted c.code_hash o s v.rest.infos_Distinct (
            v.uncounted c (
              ap contract_of (sym still)
              ∙ ap (λ a. contract_of (lookup k (remove j a))) (sym kept)
              ∙ e));
      }

  remove_account-IsSpare :
      (n : ℕ) (k j : EvmAddress) (s : State Ledger)
      → IsSpare n k s
      → IsSpare n k (remove_account j s).1
  remove_account-IsSpare n k j s v = elim (Bool-cases (j == k)) [
    | inl b ↦
        let same : k ≡ j = ground arith in
        subst (λ i. IsSpare n k (remove_account i s).1) same (remove_self-IsSpare n k s v)
    | inr b ↦ remove_other-IsSpare n k j s (λ e. ground arith) v
  ]

  remove_some-IsSpare :
      (n : ℕ) (k : EvmAddress) (o : Option EvmAddress) (s : State Ledger)
      → IsSpare n k s
      → IsSpare n k (remove_some config o s)
  remove_some-IsSpare n k none s v = v
  remove_some-IsSpare n k (some j) s v = remove_account-IsSpare n k j s v

  pub on_killed_account-IsSpare :
      (n : ℕ) (k : EvmAddress) (who : AccountId) (s : State Ledger)
      → IsSpare n k s
      → IsSpare n k (on_killed_account config who s)
  unfolding on_killed_account
  on_killed_account-IsSpare n k who s v =
      remove_account-IsSpare n k (config.get_default_evm_address who)
        (remove_some config (config.get_evm_address who) s)
        (remove_some-IsSpare n k (config.get_evm_address who) s v)

  -- The account is written back without a contract.
  pub put-IsCounted :
      (n : ℕ) (k : EvmAddress) (a : EvmAccountInfo) (s : State Ledger)
      → IsSpare n k s
      → IsCounted config (n + 1) (put k a none s)
  put-IsCounted n k a s v =
      let x : EvmAccountInfo = record a { contract_info = none } in
      let r : State Ledger = record s { accounts = remove k s.accounts } in
      fewer config (n + 1) r (insert k x s.accounts) (weaken config n r v.rest)
        (omega (arith, length-insert_le k x s.accounts, v.few))
        (insert-Distinct k x s.accounts v.accounts_Distinct)
        (λ h. omega (arith, refs-insert h k x s.accounts, refs-remove h k s.accounts))
