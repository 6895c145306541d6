-- ===== src/Evm/Contracts/Laws.antt =====
-- What the calls of modules/evm/src/lib.rs do to contracts, their code and the developers' deposits.
use chain_upgrade.Base.{
  ℕ, ◌≡◌, inl, inr, refl, ap, ◌∙◌, true, false, List, ◌∷◌, Option, none, some, ok, Result-cases,
  Option-cases, is_ok, arith,
}
use chain_upgrade.Base.Map.{lookup, insert, lookup-insert}
use chain_upgrade.Substrate.{AccountId, Currency, CurrencyLaws, Dispatch}
use chain_upgrade.Evm.Meter.{EvmAddress}
use chain_upgrade.Evm.Contracts.Storage.{
  Error, ContractInfo, EvmAccountInfo, contract_development_disabled, State, Config, Funds,
}
use chain_upgrade.Evm.Contracts.Code.{code_hash_at_address, query_maintainer}
use chain_upgrade.Evm.Contracts.Calls.{
  signed, found, put, do_transfer_maintainer, mark_deployed, enable, enable_contract_development,
  disable_contract_development, may_set_code, do_set_code, do_selfdestruct, deploy, deploy_free,
  selfdestruct, set_code,
}

module _ (currency : Currency) (funds : Funds currency.Ledger) (config : Config) where
  open currency use {Ledger, free_balance, reserved_balance}

  pub found_ok :
      (contract : EvmAddress) (s : State Ledger) (a : EvmAccountInfo) (c : ContractInfo)
      → found contract s ≡ ok (a, c)
      → (lookup contract s.accounts ≡ some a) × (a.contract_info ≡ some c)
  unfolding found
  found_ok contract s a c e = ground arith

  found-put :
      (contract : EvmAddress) (a : EvmAccountInfo) (c : ContractInfo) (s : State Ledger)
      → found contract (put contract a (some c) s) ≡ ok (record a { contract_info = some c }, c)
  unfolding found
  found-put contract a c s =
      ground
        (arith, lookup-insert contract contract (record a { contract_info = some c }) s.accounts)

  -- The account written back with the same hash changes no hash.
  pub code_hash-put :
      (contract j : EvmAddress) (a : EvmAccountInfo) (c d : ContractInfo) (s t : State Ledger)
      → found contract s ≡ ok (a, c)
      → d.code_hash ≡ c.code_hash
      → t.accounts ≡ s.accounts
      → code_hash_at_address config j (put contract a (some d) t) ≡ code_hash_at_address config j s
  unfolding code_hash_at_address
  code_hash-put contract j a c d s t e same unchanged = ground (
    arith,
    found_ok contract s a c e,
    lookup-insert j contract (record a { contract_info = some d }) t.accounts,
    unchanged,
  )

  mark_deployed_ok :
      (contract : EvmAddress) (m : Option EvmAddress) (s t : State Ledger)
      → mark_deployed currency funds config contract m s ≡ ok t
      → (a : EvmAccountInfo) × (c : ContractInfo) × (found contract s ≡ ok (a, c))
        × (t ≡ put contract a (some (record c { deployed = true })) s)
  unfolding mark_deployed
  mark_deployed_ok contract m s t e = elim (Result-cases (found contract s)) [
    | inl ((a, c), p) ↦ (a, c, p, ground arith)
    | inr (why, p) ↦ ground arith
  ]

  -- A transferred contract was the caller's and belongs to the new maintainer, and no address has code
  -- with another hash than before.
  pub do_transfer_maintainer_ok :
      (who : AccountId) (contract new_maintainer j : EvmAddress) (s t : State Ledger)
      → do_transfer_maintainer currency funds config who contract new_maintainer s ≡ ok t
      → (maintainer : EvmAddress) × (config.get_evm_address who ≡ some maintainer)
        × (query_maintainer contract s ≡ ok maintainer)
        × (query_maintainer contract t ≡ ok new_maintainer)
        × (code_hash_at_address config j t ≡ code_hash_at_address config j s)
  unfolding do_transfer_maintainer query_maintainer
  do_transfer_maintainer_ok who contract new_maintainer j s t e =
      elim (Result-cases (found contract s)) [
        | inl ((a, c), p) ↦
            let d : ContractInfo = record c { maintainer = new_maintainer } in
            let same : t ≡ put contract a (some d) s = ground arith in
            (
              c.maintainer,
              ground arith,
              ground (arith, found_ok contract s a c p),
              ground (
                arith,
                lookup-insert contract contract (record a { contract_info = some d }) s.accounts,
                same,
              ),
              ap (code_hash_at_address config j) same
                  ∙ code_hash-put contract j a c d s s p refl refl,
            )
        | inr (why, p) ↦ ground arith
      ]

  -- After a contract is marked as deployed, every call of `deploy`, `deploy_free` and `selfdestruct` on it
  -- fails, and every call of `set_code` on it by a signer.
  pub mark_deployed_final :
      (contract : EvmAddress) (m : Option EvmAddress) (origin : Dispatch Error AccountId)
      (allowed : Dispatch Error (Unit {0})) (who : AccountId) (code : List ℕ) (s t : State Ledger)
      → mark_deployed currency funds config contract m s ≡ ok t
      → (is_ok (deploy currency funds config origin contract t) ≡ false)
        × (is_ok (deploy_free currency funds config allowed contract t) ≡ false)
        × (is_ok (selfdestruct currency funds config origin contract t) ≡ false)
        × (is_ok (set_code currency funds config (ok (signed who)) contract code t) ≡ false)
  unfolding deploy deploy_free selfdestruct set_code found mark_deployed do_selfdestruct do_set_code
      may_set_code
  mark_deployed_final contract m origin allowed who code s t e =
      let (a, c, p, same) = mark_deployed_ok contract m s t e in
      let d : ContractInfo = record c { deployed = true } in
      let there = ap (found contract) same ∙ found-put contract a d s in
      (
        elim (Result-cases origin) [
          | inr (why, q) ↦ ground arith
          | inl (by, q) ↦ elim (Option-cases (config.get_evm_address by)) [
            | inl r ↦ ground arith
            | inr (address, r) ↦
                elim (Result-cases (funds.withdraw_fee by config.deployment_fee t.ledger)) [
                  | inr (why, x) ↦ ground arith
                  | inl (l, x) ↦ ground (arith, there)
                ]
          ]
        ],
        ground (arith, there),
        ground (arith, there),
        ground (arith, there),
      )

  enable_deposit :
      (o : Option EvmAccountInfo) (a : EvmAccountInfo)
      → enable currency funds config o ≡ ok a
      → a.developer_deposit ≡ some config.developer_deposit
  enable_deposit none a e = ground arith
  enable_deposit (some b) a e = ground arith

  enable_ok :
      (who : AccountId) (s t : State Ledger)
      → enable_contract_development currency funds config (ok who) s ≡ ok t
      → (l : Ledger) × (a : EvmAccountInfo) × (currency.reserve who config.developer_deposit
            s.ledger
          ≡ ok l)
        × (a.developer_deposit ≡ some config.developer_deposit)
        × (t.ledger ≡ l)
        × (lookup (config.get_or_create_evm_address who) t.accounts ≡ some a)
  unfolding enable_contract_development
  enable_ok who s t e =
      let address = config.get_or_create_evm_address who in
      elim (Result-cases (currency.reserve who config.developer_deposit s.ledger)) [
        | inr (why, p) ↦ ground arith
        | inl (l, p) ↦
            elim (Result-cases (enable currency funds config (lookup address s.accounts))) [
              | inr (why, q) ↦ ground arith
              | inl (a, q) ↦ (
                l,
                a,
                p,
                enable_deposit (lookup address s.accounts) a q,
                ground arith,
                ground (arith, lookup-insert address address a s.accounts),
              )
            ]
      ]

  -- A deposit that is paid back: what enabling takes, disabling gives back, and a second enabling in
  -- between fails.
  pub disable-enable :
      (laws : CurrencyLaws currency) (who : AccountId) (s t : State Ledger)
      → enable_contract_development currency funds config (ok who) s ≡ ok t
      → config.get_evm_address who ≡ some (config.get_or_create_evm_address who)
      → (u : State Ledger) × (disable_contract_development currency funds config (ok who) t ≡ ok u)
        × (free_balance who u.ledger ≡ free_balance who s.ledger)
        × (reserved_balance who u.ledger ≡ reserved_balance who s.ledger)
        × (is_ok (enable_contract_development currency funds config (ok who) t) ≡ false)
  unfolding enable_contract_development disable_contract_development
  disable-enable laws who s t e h =
      let (l, a, p, d, same, there) = enable_ok who s t e in
      let address = config.get_or_create_evm_address who in
      let u : State Ledger = record t {
        ledger = currency.unreserve who config.developer_deposit t.ledger;
        accounts = insert address (record a { developer_deposit = none }) t.accounts;
        events = contract_development_disabled who ∷ t.events;
      } in
      let before = laws.reserve_lem who config.developer_deposit s.ledger l p in
      let after = laws.unreserve_lem who config.developer_deposit l in
      (
        u,
        ground arith,
        ground (arith, before, after),
        ground (arith, before, after),
        elim (Result-cases (currency.reserve who config.developer_deposit t.ledger)) [
          | inl (m, q) ↦ ground arith
          | inr (why, q) ↦ ground arith
        ],
      )
