-- ===== src/Evm/Contracts/SetCode.antt =====
-- What `set_code` of modules/evm/src/lib.rs stores, and what it leaves.
use chain_upgrade.Base.{
  ℕ, ◌≡◌, ◌≢◌, ◌⊎◌, inl, inr, refl, sym, subst, if◌then◌else◌, sat_add, u32_max, ap, ◌∙◌, List,
  Option, none, some, ok, ◌==◌, Bool-cases, Result-cases, arith,
}
use chain_upgrade.Base.Map.{lookup, is_some, lookup-insert}
use chain_upgrade.Substrate.{Currency}
use chain_upgrade.Evm.Meter.{EvmAddress}
use chain_upgrade.Evm.Contracts.Storage.{
  Hash, ContractInfo, EvmAccountInfo, CodeInfo, State, Config, Funds,
}
use chain_upgrade.Evm.Contracts.Code.{
  contract_of, size_of, ref_code, ref_info, code_hash_at_address,
}
use chain_upgrade.Evm.Contracts.Counts.{count_at}
use chain_upgrade.Evm.Contracts.Counted.{ref_info-accounts}
use chain_upgrade.Evm.Contracts.Calls.{RootOrSigned, found, put, store_code, do_set_code}
use chain_upgrade.Evm.Contracts.Laws.{found_ok, code_hash-put}

-- What the storage `t` has of code that is set in the storage `s` for a contract with the hash `old`: with
-- that hash again, code and counts are the same; otherwise the hash is counted once more, and its code is
-- the stored code or, if it was not counted, the new code.
abbrev pub IsStored :
    {Ledger : Type 0} → Config → Hash → List ℕ → State Ledger → State Ledger → Type 0
IsStored config old code s t =
    let h = config.keccak code in
    ((h ≡ old) × ((t.code_infos ≡ s.code_infos) × (t.codes ≡ s.codes)))
    ⊎ ((h ≢ old)
        × ((count_at (lookup h t.code_infos) ≡ sat_add u32_max (count_at (lookup h s.code_infos)) 1)
            × (lookup h t.codes
                ≡ (if is_some (lookup h s.code_infos) then lookup h s.codes else some code))))

ref_info_once :
    {Ledger : Type 0} (h : Hash) (code : List ℕ) (o : Option CodeInfo) (s : State Ledger)
    → lookup h s.code_infos ≡ o
    → (count_at (lookup h (ref_info h code o s).code_infos)
        ≡ sat_add u32_max (count_at (lookup h s.code_infos)) 1)
      × (lookup h (ref_info h code o s).codes
          ≡ (if is_some (lookup h s.code_infos) then lookup h s.codes else some code))
ref_info_once h code none s p =
    let new : CodeInfo = record { code_size = size_of code; ref_count = 1 } in
    (
      ground (arith, lookup-insert h h new s.code_infos),
      ground (arith, lookup-insert h h code s.codes),
    )
ref_info_once h code (some info) s p =
    let new : CodeInfo = record info { ref_count = sat_add u32_max info.ref_count 1 } in
    (ground (arith, lookup-insert h h new s.code_infos), ground arith)

module _ (currency : Currency) (funds : Funds currency.Ledger) (config : Config) where
  open currency use {Ledger}

  store_code_ok :
      (contract : EvmAddress) (a : EvmAccountInfo) (c : ContractInfo) (code : List ℕ)
      (s t : State Ledger)
      → store_code currency funds config contract (a, c) code s ≡ ok t
      → (u : State Ledger) × (t ≡ put contract a (some c) u)
        × (u.accounts ≡ s.accounts)
        × IsStored config c.code_hash code s u
  unfolding ref_code
  store_code_ok contract a c code s t e = elim (Bool-cases (config.keccak code == c.code_hash)) [
    | inl b ↦ (s, ground arith, refl, inl (ground arith, (refl, refl)))
    | inr b ↦
        let h = config.keccak code in
        let o = lookup h s.code_infos in
        let (counted, stored) = ref_info_once h code o s refl in
        (
          ref_info h code o s,
          ground arith,
          ref_info-accounts h code o s,
          inr (ground arith, (counted, stored)),
        )
  ]

  -- A `set_code` that succeeds finds a contract. If the new code has the contract's hash, the stored code and
  -- the counts stay; if not, its hash is counted once more, up to the bound of the count, and the code
  -- is stored if it was not counted. But every address, the contract's own included, keeps the hash of the
  -- code that it runs.
  pub do_set_code-code_hash_at_address :
      (by : RootOrSigned) (contract j : EvmAddress) (code : List ℕ) (s t : State Ledger)
      → do_set_code currency funds config by contract code s ≡ ok t
      → (code_hash_at_address config j t ≡ code_hash_at_address config j s)
        × ((c : ContractInfo) × (contract_of (lookup contract s.accounts) ≡ some c)
            × IsStored config c.code_hash code s t)
  unfolding do_set_code
  do_set_code-code_hash_at_address by contract j code s t e =
      elim (Result-cases (found contract s)) [
        | inl ((a, c), p) ↦
            let e' : store_code currency funds config contract (a, c) code s ≡ ok t =
              ground arith in
            let (u, same, unchanged, stored) = store_code_ok contract a c code s t e' in
            (
              ap (code_hash_at_address config j) same
                  ∙ code_hash-put currency funds config contract j a c c s u p refl unchanged,
              (
                c,
                ground (arith, found_ok currency funds config contract s a c p),
                subst (IsStored config c.code_hash code s) (sym same) stored,
              ),
            )
        | inr (why, p) ↦ ground arith
      ]
