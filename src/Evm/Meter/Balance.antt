-- ===== src/Evm/Meter/Balance.antt =====
-- A whole transaction: what it reserves is charged or released again, to the last byte.
use chain_upgrade.Base.{
  ℕ, ◌+◌, ◌-◌, ◌≡◌, ◌≤◌, refl, ◌∙◌, true, List, [], ◌∷◌, ◌++◌, ok, arith, u32_max,
}
use chain_upgrade.Evm.Meter.{
  EvmAddress, StorageMeterHandler, StorageMeter, Chain, root, fresh_meter, new_limit,
  charge_storage, unreserve_storage, reserve_storage, finish,
}
use chain_upgrade.Evm.Meter.Runs.{Acts, root_of, finish_transaction, run, run_transaction}
use chain_upgrade.Evm.Meter.Charges.{
  self_used, self_refunded, total_used, total_refunded, AllCommit, Charge, own_charge, sub_charges,
  sub_charges-sums,
}
use chain_upgrade.Evm.Meter.Flow.{
  pass_all, after, run-flat, charge_root, charge_all, charge_all-append, PaysAll, PaysAll-append,
}

-- What the transaction hands to `unreserve_storage`.
abbrev pub released : ℕ → Acts → ℕ
released limit acts =
    limit + self_used acts + total_refunded acts - total_used acts - self_refunded acts

module _ {E H : Type 0} (ops : StorageMeterHandler E H) where
  pass_all-root : (xs : List Charge) (h : H) → pass_all ops xs (root h) ≡ root (charge_all ops xs h)
  unfolding charge_storage
  pass_all-root [] h = refl
  pass_all-root (x ∷ xs) h = pass_all-root xs (charge_root ops x h).1

  finish-root :
      (m : StorageMeter E) (h : H)
      → m.result ≡ ok tt
      → m.total_used - m.total_refunded ≤ m.limit
      → (ops.charge_storage m.contract m.self_used m.self_refunded h).0 ≡ ok tt
      → ((n used refunded : ℕ) (l : H) → (ops.unreserve_storage n used refunded l).0 ≡ ok tt)
      → let paid = (ops.charge_storage m.contract m.self_used m.self_refunded h).1 in
        finish ops m (root h)
        ≡ (ok tt, root (ops.unreserve_storage (new_limit m) m.self_used m.self_refunded paid).1)
  unfolding finish charge_storage unreserve_storage
  finish-root m h a fits pays releases = ground (
    arith,
    pays,
    releases (new_limit m) m.self_used m.self_refunded
        (ops.charge_storage m.contract m.self_used m.self_refunded h).1,
  )

  -- The same for the meter that a run leaves behind.
  finish-after :
      (contract : EvmAddress) (limit : ℕ) (acts : Acts) (h : H)
      → total_used acts ≤ limit
      → limit + self_used acts + total_refunded acts ≤ u32_max
      → (charge_root ops (own_charge contract acts) h).0 ≡ ok tt
      → ((n used refunded : ℕ) (l : H) → (ops.unreserve_storage n used refunded l).0 ≡ ok tt)
      → let paid = charge_all ops (own_charge contract acts ∷ []) h in
        finish ops (after acts (fresh_meter contract limit)) (root h) ≡ (
          ok tt,
          root
              (ops.unreserve_storage
                (released limit acts)
                (self_used acts)
                (self_refunded acts)
                paid).1,
        )
  finish-after contract limit acts h fits small pays releases =
      let m : StorageMeter E = after acts (fresh_meter contract limit) in
      let left : new_limit m ≡ released limit acts = ground (arith, sub_charges-sums acts) in
      let used : m.self_used ≡ self_used acts = omega arith in
      let refunded : m.self_refunded ≡ self_refunded acts = omega arith in
      finish-root m h refl (omega arith) (rw (used, refunded) pays) releases
      ∙ rw (left, used, refunded)

  finish_transaction-ok :
      (m : StorageMeter E) (before : H) (k k' : Chain E H)
      → finish ops m k ≡ (ok tt, k')
      → finish_transaction ops true before (m, k) ≡ (ok tt, root_of k')
  finish_transaction-ok m before k k' e = ground arith

  -- A transaction that commits, whose calls all commit, whose use is within its limit and whose charges
  -- do not fail succeeds, if releases do not fail. The
  -- root sees the reservation, then one charge for each call and one for the contract itself, then one
  -- release; and the reservation is, to the byte, what was charged and what is released together,
  -- refunds counted.
  pub run_transaction-balance :
      (contract : EvmAddress) (limit : ℕ) (acts : Acts) (h reserved : H)
      → AllCommit acts
      → total_used acts ≤ limit
      → limit + self_used acts + total_refunded acts ≤ u32_max
      → ops.reserve_storage limit h ≡ (ok tt, reserved)
      → PaysAll ops (sub_charges acts ++ own_charge contract acts ∷ []) reserved
      → ((n used refunded : ℕ) (l : H) → (ops.unreserve_storage n used refunded l).0 ≡ ok tt)
      → let charged = charge_all ops (sub_charges acts ++ own_charge contract acts ∷ []) reserved in
        (run_transaction ops contract limit acts true h ≡ (
          ok tt,
          (ops.unreserve_storage
              (released limit acts)
              (self_used acts)
              (self_refunded acts)
              charged).1,
        ))
        × (limit + total_refunded acts
            ≡ total_used acts + (released limit acts + self_refunded acts - self_used acts))
  unfolding run_transaction reserve_storage root_of
  run_transaction-balance contract limit acts h reserved c fits small e pays releases = (
    started
        ∙ rw (flat, pass_all-root (sub_charges acts) reserved)
            (finish_transaction-ok _ h _ _ (
                finish-after contract limit acts (charge_all ops (sub_charges acts) reserved) fits
                  small split.1.0 releases)
              ∙ rw (
                  charge_all-append ops (sub_charges acts) (own_charge contract acts ∷ [])
                    reserved)),
    omega (arith, sub_charges-sums acts),
  )
    where
      split :
          PaysAll ops (sub_charges acts) reserved
          × PaysAll ops (own_charge contract acts ∷ []) (charge_all ops (sub_charges acts) reserved)
      split = PaysAll-append ops (sub_charges acts) (own_charge contract acts ∷ []) reserved pays

      flat : run ops acts (fresh_meter contract limit, root reserved) ≡ (
        after acts (fresh_meter contract limit),
        pass_all ops (sub_charges acts) (root reserved),
      )
      flat =
          run-flat ops acts (fresh_meter contract limit) (root reserved) c tt (ground arith) split.0

      started :
          run_transaction ops contract limit acts true h
          ≡ finish_transaction ops true h (run ops acts (fresh_meter contract limit, root reserved))
      started = ground arith
