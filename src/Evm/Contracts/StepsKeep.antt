-- ===== src/Evm/Contracts/StepsKeep.antt =====
-- The calls of modules/evm/src/lib.rs as origins make them keep the counts of references to code.
use chain_upgrade.Base.{
  ℕ, ◌+◌, ◌≡◌, ◌≤◌, inl, inr, refl, List, none, some, ok, Result-cases, Option-cases, u32_max,
  arith,
}
use chain_upgrade.Substrate.{AccountId, Currency, Dispatch}
use chain_upgrade.Evm.Meter.{EvmAddress}
use chain_upgrade.Evm.Contracts.Storage.{Error, State, Config, Funds}
use chain_upgrade.Evm.Contracts.Calls.{
  RootOrSigned, transfer_maintainer, mark_deployed, deploy, deploy_free, set_code,
  do_transfer_maintainer, do_set_code,
}
use chain_upgrade.Evm.Contracts.Counted.{IsCounted, same_maps}
use chain_upgrade.Evm.Contracts.CallsKeep.{
  Writes-IsCounted, do_transfer_maintainer-Writes, mark_deployed-Writes, do_set_code-IsCounted,
}

module _ (currency : Currency) (funds : Funds currency.Ledger) (config : Config) where
  open currency use {Ledger}

  pub transfer_maintainer-IsCounted :
      (n : ℕ) (origin : Dispatch Error AccountId) (k m : EvmAddress) (s t : State Ledger)
      → IsCounted config n s
      → transfer_maintainer currency funds config origin k m s ≡ ok t
      → IsCounted config (n + 1) t
  unfolding transfer_maintainer
  transfer_maintainer-IsCounted n origin k m s t v e = elim (Result-cases origin) [
    | inr (why, p) ↦ absurd (ground arith)
    | inl (who, p) ↦ elim (Result-cases (do_transfer_maintainer currency funds config who k m s)) [
      | inr (why, q) ↦ absurd (ground arith)
      | inl (u, q) ↦ same_maps config (n + 1) u t (ground arith) (ground arith) (ground arith) (
          Writes-IsCounted currency funds config n s u v
            (do_transfer_maintainer-Writes currency funds config who k m s u q))
    ]
  ]

  pub deploy-IsCounted :
      (n : ℕ) (origin : Dispatch Error AccountId) (k : EvmAddress) (s t : State Ledger)
      → IsCounted config n s
      → deploy currency funds config origin k s ≡ ok t
      → IsCounted config (n + 1) t
  unfolding deploy
  deploy-IsCounted n origin k s t v e = elim (Result-cases origin) [
    | inr (why, p) ↦ absurd (ground arith)
    | inl (who, p) ↦ elim (Option-cases (config.get_evm_address who)) [
      | inl q ↦ absurd (ground arith)
      | inr (address, q) ↦
          elim (Result-cases (funds.withdraw_fee who config.deployment_fee s.ledger)) [
            | inr (why, r) ↦ absurd (ground arith)
            | inl (l, r) ↦
                let paid : State Ledger = record s { ledger = l } in
                elim (Result-cases (mark_deployed currency funds config k (some address) paid)) [
                  | inr (why, m) ↦ absurd (ground arith)
                  | inl (u, m) ↦
                      same_maps config (n + 1) u t (ground arith) (ground arith) (ground arith) (
                        Writes-IsCounted currency funds config n paid u
                          (same_maps config n s paid refl refl refl v)
                          (mark_deployed-Writes currency funds config k (some address) paid u m))
                ]
          ]
    ]
  ]

  pub deploy_free-IsCounted :
      (n : ℕ) (allowed : Dispatch Error (Unit {0})) (k : EvmAddress) (s t : State Ledger)
      → IsCounted config n s
      → deploy_free currency funds config allowed k s ≡ ok t
      → IsCounted config (n + 1) t
  unfolding deploy_free
  deploy_free-IsCounted n allowed k s t v e = elim (Result-cases allowed) [
    | inr (why, p) ↦ absurd (ground arith)
    | inl (_, p) ↦ elim (Result-cases (mark_deployed currency funds config k none s)) [
      | inr (why, q) ↦ absurd (ground arith)
      | inl (u, q) ↦ same_maps config (n + 1) u t (ground arith) (ground arith) (ground arith) (
          Writes-IsCounted currency funds config n s u v
            (mark_deployed-Writes currency funds config k none s u q))
    ]
  ]

  pub set_code-IsCounted :
      (n : ℕ) (origin : Dispatch Error RootOrSigned) (k : EvmAddress) (code : List ℕ)
      (s t : State Ledger)
      → n + 1 ≤ u32_max
      → IsCounted config n s
      → set_code currency funds config origin k code s ≡ ok t
      → IsCounted config (n + 1) t
  unfolding set_code
  set_code-IsCounted n origin k code s t small v e = elim (Result-cases origin) [
    | inr (why, p) ↦ absurd (ground arith)
    | inl (by, p) ↦ elim (Result-cases (do_set_code currency funds config by k code s)) [
      | inr (why, q) ↦ absurd (ground arith)
      | inl (u, q) ↦
          same_maps config (n + 1) u t (ground arith) (ground arith) (ground arith)
            (do_set_code-IsCounted currency funds config n by k code s u small v q)
    ]
  ]
