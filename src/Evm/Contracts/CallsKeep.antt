-- ===== src/Evm/Contracts/CallsKeep.antt =====
-- Every call of modules/evm/src/lib.rs on contracts keeps the counts of shared code.
use chain_upgrade.Base.{
  ℕ, ◌+◌, ◌≡◌, ◌≤◌, inl, inr, refl, sym, subst, true, List, Option, none, some, ok, Result-cases,
  Option-cases, Bool-cases, ◌==◌, u32_max, arith,
}
use chain_upgrade.Base.Map.{lookup, insert}
use chain_upgrade.Substrate.{AccountId, Currency, Dispatch}
use chain_upgrade.Evm.Meter.{EvmAddress}
use chain_upgrade.Evm.Contracts.Storage.{
  Hash, Error, ContractInfo, EvmAccountInfo, State, Config, Funds,
}
use chain_upgrade.Evm.Contracts.Code.{contract_of, ref_code, ref_info}
use chain_upgrade.Evm.Contracts.Calls.{
  RootOrSigned, found, do_transfer_maintainer, mark_deployed, enable, enable_contract_development,
  disable_contract_development, store_code, do_set_code,
}
use chain_upgrade.Evm.Contracts.Laws.{found_ok}
use chain_upgrade.Evm.Contracts.Counts.{points}
use chain_upgrade.Evm.Contracts.Counted.{
  IsCounted, ref_info-accounts, same_maps, ref_info-IsCounted,
}
use chain_upgrade.Evm.Contracts.Keeping.{insert-IsCounted}

module _ (currency : Currency) (funds : Funds currency.Ledger) (config : Config) where
  open currency use {Ledger}

  -- One account is written, with a contract of the hash that it had or none.
  abbrev pub Writes : State Ledger → State Ledger → Type 0
  Writes s t =
      (k : EvmAddress) × (a : EvmAccountInfo) × (t.accounts ≡ insert k a s.accounts)
      × (t.code_infos ≡ s.code_infos)
      × (t.codes ≡ s.codes)
      × ((h : Hash) → points h a.contract_info ≤ points h (contract_of (lookup k s.accounts)))

  pub Writes-IsCounted :
      (n : ℕ) (s t : State Ledger) → IsCounted config n s → Writes s t → IsCounted config (n + 1) t
  Writes-IsCounted n s t v (k, a, accounts, infos, codes, le) =
      same_maps config (n + 1) (record s { accounts = insert k a s.accounts }) t accounts infos
        codes (insert-IsCounted config n k a s v le)

  found-points :
      (k : EvmAddress) (a : EvmAccountInfo) (c d : ContractInfo) (s : State Ledger)
      → found k s ≡ ok (a, c)
      → d.code_hash ≡ c.code_hash
      → (h : Hash) → points h (some d) ≤ points h (contract_of (lookup k s.accounts))
  found-points k a c d s p same h = ground (arith, found_ok currency funds config k s a c p)

  pub do_transfer_maintainer-Writes :
      (who : AccountId) (k m : EvmAddress) (s t : State Ledger)
      → do_transfer_maintainer currency funds config who k m s ≡ ok t
      → Writes s t
  unfolding do_transfer_maintainer
  do_transfer_maintainer-Writes who k m s t e = elim (Result-cases (found k s)) [
    | inl ((a, c), p) ↦
        let d : ContractInfo = record c { maintainer = m } in
        (
          k,
          record a { contract_info = some d },
          ground arith,
          ground arith,
          ground arith,
          found-points k a c d s p refl,
        )
    | inr (why, p) ↦ ground arith
  ]

  pub mark_deployed-Writes :
      (k : EvmAddress) (m : Option EvmAddress) (s t : State Ledger)
      → mark_deployed currency funds config k m s ≡ ok t
      → Writes s t
  unfolding mark_deployed
  mark_deployed-Writes k m s t e = elim (Result-cases (found k s)) [
    | inl ((a, c), p) ↦
        let d : ContractInfo = record c { deployed = true } in
        (
          k,
          record a { contract_info = some d },
          ground arith,
          ground arith,
          ground arith,
          found-points k a c d s p refl,
        )
    | inr (why, p) ↦ ground arith
  ]

  enable-contract :
      (o : Option EvmAccountInfo) (a : EvmAccountInfo)
      → enable currency funds config o ≡ ok a
      → a.contract_info ≡ contract_of o
  enable-contract none a e = ground arith
  enable-contract (some b) a e = ground arith

  pub enable_contract_development-Writes :
      (origin : Dispatch Error AccountId) (s t : State Ledger)
      → enable_contract_development currency funds config origin s ≡ ok t
      → Writes s t
  unfolding enable_contract_development
  enable_contract_development-Writes origin s t e = elim (Result-cases origin) [
    | inr (why, p) ↦ ground arith
    | inl (who, p) ↦
        let k = config.get_or_create_evm_address who in
        let o = lookup k s.accounts in
        elim (Result-cases (currency.reserve who config.developer_deposit s.ledger)) [
          | inr (why, q) ↦ ground arith
          | inl (l, q) ↦ elim (Result-cases (enable currency funds config o)) [
            | inr (why, r) ↦ ground arith
            | inl (a, r) ↦ (
              k,
              a,
              ground arith,
              ground arith,
              ground arith,
              λ h. ground (arith, enable-contract o a r),
            )
          ]
        ]
  ]

  pub disable_contract_development-Writes :
      (origin : Dispatch Error AccountId) (s t : State Ledger)
      → disable_contract_development currency funds config origin s ≡ ok t
      → Writes s t
  unfolding disable_contract_development
  disable_contract_development-Writes origin s t e = elim (Result-cases origin) [
    | inr (why, p) ↦ ground arith
    | inl (who, p) ↦ elim (Option-cases (config.get_evm_address who)) [
      | inl q ↦ ground arith
      | inr (k, q) ↦ elim (Option-cases (lookup k s.accounts)) [
        | inl r ↦ ground arith
        | inr (a, r) ↦ (
          k,
          record a { developer_deposit = none },
          ground arith,
          ground arith,
          ground arith,
          λ h. ground arith,
        )
      ]
    ]
  ]

  store_code-IsCounted :
      (n : ℕ) (k : EvmAddress) (a : EvmAccountInfo) (c : ContractInfo) (code : List ℕ)
      (s t : State Ledger)
      → n + 1 ≤ u32_max
      → IsCounted config n s
      → found k s ≡ ok (a, c)
      → store_code currency funds config k (a, c) code s ≡ ok t
      → IsCounted config (n + 1) t
  unfolding ref_code
  store_code-IsCounted n k a c code s t small v p e =
      let x : EvmAccountInfo = record a { contract_info = some c } in
      elim (Bool-cases (config.keccak code == c.code_hash)) [
        | inl b ↦
            Writes-IsCounted n s t v
              (k, x, ground arith, ground arith, ground arith, found-points k a c c s p refl)
        | inr b ↦
            let o = lookup (config.keccak code) s.code_infos in
            let u = ref_info (config.keccak code) code o s in
            let w = ref_info-IsCounted config n (config.keccak code) code o s small refl v refl in
            let accounts = ref_info-accounts (config.keccak code) code o s in
            same_maps config (n + 1) (record u { accounts = insert k x u.accounts }) t
              (ground arith) (ground arith) (ground arith)
              (insert-IsCounted config n k x u w.0 (
                subst (λ m. (h : Hash) → points h (some c) ≤ points h (contract_of (lookup k m)))
                  (sym accounts) (found-points k a c c s p refl)))
      ]

  pub do_set_code-IsCounted :
      (n : ℕ) (by : RootOrSigned) (k : EvmAddress) (code : List ℕ) (s t : State Ledger)
      → n + 1 ≤ u32_max
      → IsCounted config n s
      → do_set_code currency funds config by k code s ≡ ok t
      → IsCounted config (n + 1) t
  unfolding do_set_code
  do_set_code-IsCounted n by k code s t small v e = elim (Result-cases (found k s)) [
    | inl ((a, c), p) ↦ store_code-IsCounted n k a c code s t small v p (ground arith)
    | inr (why, p) ↦ ground arith
  ]
