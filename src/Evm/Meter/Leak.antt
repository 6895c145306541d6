-- ===== src/Evm/Meter/Leak.antt =====
-- What a rollback does to the meters: the storage of the chain goes back, the totals of the callers do
-- not.
use chain_upgrade.Base.{ℕ, ◌-◌, ◌≡◌, ◌≤◌, true, false, ok, arith, u32_max}
use chain_upgrade.Evm.Meter.{
  EvmAddress, StorageMeterHandler, available_storage, charge, charge_storage, unreserve_storage,
  reserve_storage, child_meter, finish,
}
use chain_upgrade.Evm.Meter.Runs.{Acts, done, charges, sub, root_of, set_root, run, run_transaction}

-- A call to `a` that calls `b`, which uses `n` bytes; `b` commits and `a` reverts.
abbrev pub reverted_use : EvmAddress → EvmAddress → ℕ → Acts
reverted_use a b n = sub a false (sub b true (charges n done) done) done

module _ {E H : Type 0} (ops : StorageMeterHandler E H) where
  -- Of a reservation of `limit` bytes only `limit - n` are released, and nothing is charged, if all that
  -- the transaction did is a call that reverts after a call below it has used `n` bytes.
  pub run_transaction-leak :
      (contract a b : EvmAddress) (limit n : ℕ) (h reserved : H)
      → n ≤ limit
      → limit ≤ u32_max
      → ops.reserve_storage limit h ≡ (ok tt, reserved)
      → (ops.charge_storage b n 0 reserved).0 ≡ ok tt
      → (ops.charge_storage contract 0 0 reserved).0 ≡ ok tt
      → (ops.unreserve_storage (limit - n) 0 0 (ops.charge_storage contract 0 0 reserved).1).0
        ≡ ok tt
      → run_transaction ops contract limit (reverted_use a b n) true h ≡ (
        ok tt,
        (ops.unreserve_storage (limit - n) 0 0 (ops.charge_storage contract 0 0 reserved).1).1,
      )
  unfolding run_transaction run reserve_storage root_of set_root child_meter available_storage
      charge finish charge_storage unreserve_storage
  run_transaction-leak contract a b limit n h reserved fits small e used none_used released =
      ground arith
