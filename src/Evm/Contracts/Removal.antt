-- ===== src/Evm/Contracts/Removal.antt =====
-- What `remove_contract` and `selfdestruct` of modules/evm/src/lib.rs keep of the counts of shared code.
use chain_upgrade.Base.{
  ◌+◌, ◌≡◌, ◌≤◌, ◌⊎◌, ℕ, refl, inl, inr, List, [], ◌∷◌, Option, none, some, ok, Option-cases,
  Result-cases, subst, sym, ap, ◌∙◌, length, arith,
}
use chain_upgrade.Base.Map.{
  lookup, insert, remove, insert-Distinct, Distinct, lookup-remove, remove-Distinct,
}
use chain_upgrade.Substrate.{AccountId, Currency, Dispatch}
use chain_upgrade.Evm.Meter.{EvmAddress}
use chain_upgrade.Evm.Contracts.Storage.{
  Hash, Error, EvmAccountInfo, CodeInfo, State, Config, Funds,
}
use chain_upgrade.Evm.Contracts.Code.{contract_of, deref_info, deref_code}
use chain_upgrade.Evm.Contracts.Calls.{
  found, put, move_funds, on_killed_accounts, remove_contract, do_selfdestruct, selfdestruct,
}
use chain_upgrade.Evm.Contracts.Laws.{found_ok}
use chain_upgrade.Evm.Contracts.Counts.{
  refs-insert, length-insert_le, count_at, refs-remove, length-remove_le,
}
use chain_upgrade.Evm.Contracts.Counted.{
  IsCounted, deref_info-accounts, deref_info-ledger, same_maps, deref_info-IsCounted,
}
use chain_upgrade.Evm.Contracts.Keeping.{weaken}
use chain_upgrade.Evm.Contracts.Alone.{count_of, IsSpare, on_killed_account-IsSpare, put-IsCounted}

module _ {Ledger : Type 0} where
  -- The last reference takes the count with it.
  deref_info-gone :
      (h : Hash) (o : Option CodeInfo) (s : State Ledger)
      → Distinct s.code_infos
      → lookup h s.code_infos ≡ o
      → count_at o ≤ 1
      → lookup h (deref_info h o s).code_infos ≡ none
  deref_info-gone h none s d p one = p
  deref_info-gone h (some info) s d p one = ground (arith, lookup-remove h h s.code_infos d)

module _ (currency : Currency) (funds : Funds currency.Ledger) (config : Config) where
  open currency use {Ledger}

  -- A transfer of all funds of a contract kills no account.
  abbrev pub Spares : EvmAddress → Ledger → Type 0
  Spares k l =
      let from = config.get_account_id k in
      (to : AccountId) (m : Ledger) (killed : List AccountId)
      → funds.transfer_all from to (currency.unreserve from (currency.reserved_balance from l) l)
        ≡ ok (killed, m)
      → killed ≡ []

  -- What is left to do when a contract is removed, if the transfer kills nobody.
  move_funds-Writes :
      (caller k : EvmAddress) (a : EvmAccountInfo) (u t : State Ledger)
      → Spares k u.ledger
      → move_funds currency funds config caller k a u ≡ ok t
      → (t.accounts ≡ insert k (record a { contract_info = none }) u.accounts)
        × (t.code_infos ≡ u.code_infos)
        × (t.codes ≡ u.codes)
  unfolding on_killed_accounts
  move_funds-Writes caller k a u t spares e =
      let from = config.get_account_id k in
      let to = config.get_account_id caller in
      let l = currency.unreserve from (currency.reserved_balance from u.ledger) u.ledger in
      elim (Result-cases (funds.transfer_all from to l)) [
        | inr (why, p) ↦ ground arith
        | inl (([], m), p) ↦ (ground arith, ground arith, ground arith)
        | inl ((who ∷ killed, m), p) ↦ absurd (ground (arith, spares to m (who ∷ killed) p))
      ]

  -- A removed contract, if the transfer of its funds kills no account.
  pub remove_contract-IsCounted :
      (n : ℕ) (caller k : EvmAddress) (s t : State Ledger)
      → Spares k s.ledger
      → IsCounted config n s
      → remove_contract currency funds config caller k s ≡ ok t
      → IsCounted config (n + 1) t
  unfolding remove_contract deref_code
  remove_contract-IsCounted n caller k s t spares v e = elim (Result-cases (found k s)) [
    | inl ((a, c), p) ↦
        let h = c.code_hash in
        let s0 : State Ledger = record s { account_storages = remove k s.account_storages } in
        let o = lookup h s.code_infos in
        let u = deref_info h o s0 in
        let x : EvmAccountInfo = record a { contract_info = none } in
        let m = insert k x s.accounts in
        let (accounts, infos, codes) =
          move_funds-Writes caller k a u t
            (subst (Spares k) (sym (deref_info-ledger h o s0)) spares) (ground arith) in
        same_maps config (n + 1) (record u { accounts = m }) t
          (accounts ∙ ap (insert k x) (deref_info-accounts h o s0)) infos codes
          (deref_info-IsCounted config (n + 1) h o m s0
            (same_maps config (n + 1) s s0 refl refl refl (weaken config n s v)) refl
            (omega (arith, length-insert_le k x s.accounts, v.few))
            (insert-Distinct k x s.accounts v.accounts_Distinct)
            (λ j.
              ground
                (arith, refs-insert j k x s.accounts, found_ok currency funds config k s a c p)))
    | inr (why, p) ↦ ground arith
  ]

  on_killed_accounts-IsSpare :
      (n : ℕ) (k : EvmAddress) (killed : List AccountId) (s : State Ledger)
      → IsSpare config n k s
      → IsSpare config n k (on_killed_accounts currency funds config killed s)
  unfolding on_killed_accounts
  on_killed_accounts-IsSpare n k [] s v = v
  on_killed_accounts-IsSpare n k (who ∷ killed) s v =
      on_killed_accounts-IsSpare n k killed _ (on_killed_account-IsSpare config n k who s v)

  same_ledger-IsSpare :
      (n : ℕ) (k : EvmAddress) (s : State Ledger) (l : Ledger)
      → IsSpare config n k s
      → IsSpare config n k (record s { ledger = l })
  same_ledger-IsSpare n k s l v = record {
    rest =
        same_maps config n (record s { accounts = remove k s.accounts })
          (record s { accounts = remove k s.accounts; ledger = l }) refl refl refl v.rest;
    few = v.few;
    accounts_Distinct = v.accounts_Distinct;
    uncounted = v.uncounted;
  }

  move_funds-IsCounted :
      (n : ℕ) (caller k : EvmAddress) (a : EvmAccountInfo) (u t : State Ledger)
      → IsSpare config n k u
      → move_funds currency funds config caller k a u ≡ ok t
      → IsCounted config (n + 1) t
  move_funds-IsCounted n caller k a u t v e =
      let from = config.get_account_id k in
      let to = config.get_account_id caller in
      let l = currency.unreserve from (currency.reserved_balance from u.ledger) u.ledger in
      elim (Result-cases (funds.transfer_all from to l)) [
        | inr (why, p) ↦ absurd (ground arith)
        | inl ((killed, m), p) ↦
            let w = on_killed_accounts currency funds config killed (record u { ledger = m }) in
            let same : put k a none w ≡ t = ground arith in
            subst (IsCounted config (n + 1)) same (
              put-IsCounted config n k a w (
                on_killed_accounts-IsSpare n k killed (record u { ledger = m })
                  (same_ledger-IsSpare n k u m v)))
      ]

  -- A removed contract that alone has its code.
  remove_alone-IsCounted :
      (n : ℕ) (caller k : EvmAddress) (s t : State Ledger)
      → count_of (contract_of (lookup k s.accounts)) s ≤ 1
      → IsCounted config n s
      → remove_contract currency funds config caller k s ≡ ok t
      → IsCounted config (n + 1) t
  unfolding remove_contract deref_code
  remove_alone-IsCounted n caller k s t alone v e = elim (Result-cases (found k s)) [
    | inr (why, p) ↦ absurd (ground arith)
    | inl ((a, c), p) ↦
        let h = c.code_hash in
        let s0 : State Ledger = record s { account_storages = remove k s.account_storages } in
        let o = lookup h s.code_infos in
        let u = deref_info h o s0 in
        let (at, holds) = found_ok currency funds config k s a c p in
        let kept = deref_info-accounts h o s0 in
        let one : count_at o ≤ 1 = ground arith in
        let gone = deref_info-gone h o s0 v.infos_Distinct refl one in
        let rest =
          deref_info-IsCounted config n h o (remove k s.accounts) s0
            (same_maps config n s s0 refl refl refl v) refl
            (omega (arith, length-remove_le k s.accounts, v.few))
            (remove-Distinct k s.accounts v.accounts_Distinct)
            (λ j. ground (arith, refs-remove j k s.accounts)) in
        let spare : IsSpare config n k u = record {
          rest =
              same_maps config n (record u { accounts = remove k s.accounts })
                (record u { accounts = remove k u.accounts }) (ap (remove k) kept) refl refl rest;
          few = subst (λ m. length m ≤ n) (sym kept) v.few;
          accounts_Distinct = subst Distinct (sym kept) v.accounts_Distinct;
          uncounted = λ d q.
              let its : c ≡ d = ground (arith, kept) in
              subst (λ x. lookup x.code_hash u.code_infos ≡ none) its gone;
        } in
        move_funds-IsCounted n caller k a u t spare (ground arith)
  ]

  -- A contract whose removal keeps the counts: it alone has its code, or the transfer of its funds kills
  -- no account.
  abbrev pub IsSeparate : EvmAddress → State Ledger → Type 0
  IsSeparate k s = (count_of (contract_of (lookup k s.accounts)) s ≤ 1) ⊎ Spares k s.ledger

  do_selfdestruct-IsCounted :
      (n : ℕ) (caller k : EvmAddress) (s t : State Ledger)
      → IsSeparate k s
      → IsCounted config n s
      → do_selfdestruct currency funds config caller k s ≡ ok t
      → IsCounted config (n + 1) t
  unfolding do_selfdestruct
  do_selfdestruct-IsCounted n caller k s t separate v e =
      let removed : remove_contract currency funds config caller k s ≡ ok t =
        elim (Result-cases (found k s)) [
          | inr (why, p) ↦ absurd (ground arith)
          | inl (entry, p) ↦ ground arith
        ] in
      elim separate [
        | inl alone ↦ remove_alone-IsCounted n caller k s t alone v removed
        | inr spares ↦ remove_contract-IsCounted n caller k s t spares v removed
      ]

  pub selfdestruct-IsCounted :
      (n : ℕ) (origin : Dispatch Error AccountId) (k : EvmAddress) (s t : State Ledger)
      → IsSeparate k s
      → IsCounted config n s
      → selfdestruct currency funds config origin k s ≡ ok t
      → IsCounted config (n + 1) t
  unfolding selfdestruct
  selfdestruct-IsCounted n origin k s t separate v e = elim (Result-cases origin) [
    | inr (why, p) ↦ absurd (ground arith)
    | inl (who, p) ↦ elim (Option-cases (config.get_evm_address who)) [
      | inl q ↦ absurd (ground arith)
      | inr (caller, q) ↦ elim (Result-cases (do_selfdestruct currency funds config caller k s)) [
        | inr (why, r) ↦ absurd (ground arith)
        | inl (u, r) ↦
            same_maps config (n + 1) u t (ground arith) (ground arith) (ground arith)
              (do_selfdestruct-IsCounted n caller k s u separate v r)
      ]
    ]
  ]
