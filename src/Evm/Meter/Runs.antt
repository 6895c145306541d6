-- ===== src/Evm/Meter/Runs.antt =====
-- `run_transaction` and `run_sub_transaction` of modules/evm/src/runner/handler.rs, as far as the meters
-- and the storage of the chain go. What the contracts do between is a tree of activities. A transaction
-- that does not commit restores the root, and does not restore the meters, which are no storage.
use chain_upgrade.Base.{ℕ, Bool, true, false, ok, err}
use chain_upgrade.Evm.Meter.{
  EvmAddress, DispatchResult, StorageMeterHandler, StorageMeter, Chain, root, nested, fresh_meter,
  charge, refund, reserve_storage, child_meter, finish,
}

-- What happens at one level: charges, refunds, and calls with what happens below them; the flag says
-- whether the closure of the call commits.
pub data Acts : Type 0 where
  done : Acts
  charges refunds : ℕ → Acts → Acts
  sub : EvmAddress → Bool → Acts → Acts → Acts

module _ {E H : Type 0} where
  unfoldable pub root_of : Chain E H → H
  root_of (root h) = h
  root_of (nested m k) = root_of k

  unfoldable pub set_root : H → Chain E H → Chain E H
  set_root h (root _) = root h
  set_root h (nested m k) = nested m (set_root h k)

  -- The caller's meter, given back by the chain of its callee.
  abbrev pub caller_meter : StorageMeter E → Chain E H → StorageMeter E
  caller_meter m (root h) = m
  caller_meter m (nested m' k) = m'

  abbrev pub caller_chain : Chain E H → Chain E H
  caller_chain (root h) = root h
  caller_chain (nested m k) = k

module _ {E H : Type 0} (ops : StorageMeterHandler E H) where
  -- The end of `run_sub_transaction`: `before` is the root when it began.
  abbrev pub settle_sub : Bool → H → StorageMeter E × Chain E H → Chain E H
  settle_sub true before (m, k) =
      let (r, k') = finish ops m k in elim r [ ok _ ↦ k' | err e ↦ set_root before k' ]
  settle_sub false before (m, k) = set_root before k

  unfoldable pub run : Acts → StorageMeter E × Chain E H → StorageMeter E × Chain E H
  run done (m, k) = (m, k)
  run (charges n rest) (m, k) = run rest ((charge n m).1, k)
  run (refunds n rest) (m, k) = run rest ((refund n m).1, k)
  run (sub c commits inner rest) (m, k) =
      let ended : Chain E H = elim (child_meter ops c m k) [
        | err e ↦ nested m k
        | ok child ↦ settle_sub commits (root_of k) (run inner (child, nested m k))
      ] in
      run rest (caller_meter m ended, caller_chain ended)

  -- `run_transaction` with the closure's activities and whether it commits: its result and the root.
  abbrev pub finish_transaction : Bool → H → StorageMeter E × Chain E H → DispatchResult E × H
  finish_transaction true before (m, k) =
      let (r, k') = finish ops m k in
      elim r [ ok _ ↦ (ok tt, root_of k') | err e ↦ (err e, before) ]
  finish_transaction false before (m, k) = (ok tt, before)

  unfoldable pub run_transaction : EvmAddress → ℕ → Acts → Bool → H → DispatchResult E × H
  run_transaction contract limit acts commits h =
      let (r, k) = reserve_storage ops limit (root h) in
      elim r [
        | ok _ ↦ finish_transaction commits h (run acts (fresh_meter contract limit, k))
        | err e ↦ (err e, h)
      ]
