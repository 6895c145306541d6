-- ===== src/Evm/Tests.antt =====
-- Runs of the meters over the deposits of a concrete ledger, and the theorems at concrete inputs.
use chain_upgrade.Base.{ℕ, ◌+◌, ◌-◌, ◌≡◌, ◌≤◌, ◌<◌, refl, true, [], ◌∷◌, ◌++◌, ok, arith, u128_max}
use chain_upgrade.Substrate.Ledger.{Book, book, book_laws}
use chain_upgrade.Evm.Meter
use chain_upgrade.Evm.Meter.{
  StorageMeterHandler, fresh_meter, charge, refund, used_storage, available_storage,
}
use chain_upgrade.Evm.Meter.Runs.{Acts, done, charges, refunds, sub, run_transaction}
use chain_upgrade.Evm.Meter.Charges.{own_charge, sub_charges}
use chain_upgrade.Evm.Meter.Flow.{charge_all}
use chain_upgrade.Evm.Meter.Balance.{run_transaction-balance}
use chain_upgrade.Evm.Meter.Leak.{reverted_use}
use chain_upgrade.Evm.Deposits.{
  Setting, reserve_storage, unreserve_storage, charge_storage, deposit_handler,
}
use chain_upgrade.Evm.Deposits.Laws.{charge_storage-deposit, reverted_use-deposit}

-- Address n is account n; a byte costs ten units, and account 1 is the origin.
abbrev setting : Setting
setting = record { origin = 1; get_account_id = λ a. a; storage_deposit_per_byte = 10 }

abbrev ledger : Book
ledger = record { free = λ who. 100_000; held = λ who. 0; issued = 1_000_000 }

abbrev handler : StorageMeterHandler ℕ Book
handler = deposit_handler book ℕ setting

-- The contract 20 uses 100 bytes, calls 21, which uses 30 and calls 22, which uses 5; 21 then frees 10.
abbrev calls : Acts
calls = charges 100 (sub 21 true (charges 30 (sub 22 true (charges 5 done) (refunds 10 done))) done)

abbrev held_for : ℕ → Book
held_for limit = (reserve_storage book ℕ setting limit ledger).1

abbrev ended : Book
ended = (run_transaction handler 20 1000 calls true ledger).1

-- The contracts hold the deposits for what they use, and the origin's reserve is empty again.
calls_deposits :
    (ended.held 20 ≡ 1000) × (ended.held 21 ≡ 200) × (ended.held 22 ≡ 50) × (ended.held 1 ≡ 0)
unfolding run_transaction reserve_storage Meter.reserve_storage Meter.finish Meter.Runs.run
    Meter.child_meter charge refund available_storage Meter.charge_storage charge_storage
    Meter.unreserve_storage unreserve_storage Meter.Runs.root_of
calls_deposits = (refl, refl, refl, refl)

unreserve_storage-ok :
    (n used refunded : ℕ) (l : Book)
    → (unreserve_storage book ℕ setting n used refunded l).0 ≡ ok tt
unfolding unreserve_storage
unreserve_storage-ok n used refunded l = ground arith

abbrev charged : Book
charged = charge_all handler (sub_charges calls ++ own_charge 20 calls ∷ []) (held_for 1000)

run_transaction-balance_example :
    (run_transaction handler 20 1000 calls true ledger
      ≡ (ok tt, (unreserve_storage book ℕ setting 975 100 0 charged).1))
    × (1000 + 10 ≡ 135 + (975 + 0 - 100))
unfolding reserve_storage charge_storage
run_transaction-balance_example =
    run_transaction-balance handler 20 1000 calls ledger (held_for 1000) (refl, (refl, tt, tt), tt)
      (omega arith) (omega arith) refl (refl, (refl, (refl, tt))) unreserve_storage-ok

charge_storage-deposit_example :
    let m = (charge_storage book ℕ setting 20 30 0 (held_for 1000)).1 in
    (◌≡◌ {A = ℕ} 30 0 → m ≡ held_for 1000)
    × (0 < 30
        → 300 + 1 ≤ u128_max
        → 300 ≤ (held_for 1000).held 1
        → (m.held 1 + 300 ≡ (held_for 1000).held 1)
          × (m.held 20 ≡ (held_for 1000).held 20 + 300)
          × (m.free 1 + 1 ≤ (held_for 1000).free 1))
    × (30 < 0
        → 0 ≤ (held_for 1000).held 20
        → (m.held 20 + 0 ≡ (held_for 1000).held 20) × (m.held 1 ≡ (held_for 1000).held 1 + 0))
unfolding reserve_storage charge_storage
charge_storage-deposit_example =
    charge_storage-deposit book book_laws ℕ setting 20 30 0 (held_for 1000) _ (omega arith) refl

reverted_use-deposit_example :
    let (r, m) = run_transaction handler 20 1000 (reverted_use 21 22 30) true ledger in
    (r ≡ ok tt) × (m.held 1 ≡ 0 + 300)
unfolding reserve_storage charge_storage
reverted_use-deposit_example =
    reverted_use-deposit book book_laws ℕ setting 20 21 22 1000 30 ledger (held_for 1000)
      (omega arith) (omega arith) (omega arith) (omega arith) refl refl
