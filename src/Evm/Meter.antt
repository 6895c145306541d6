-- ===== src/Evm/Meter.antt =====
-- modules/evm/src/runner/storage_meter.rs. A meter counts the storage that a contract and the calls
-- below it use. Its handler is the meter of the caller, or, for the outermost one, the storage of the
-- chain: a stack of meters over a root.
pub mod Runs
pub mod Charges
pub mod Flow
pub mod Balance
pub mod Leak
use chain_upgrade.Base.{
  ℕ, ◌+◌, ◌-◌, ◌^◌, Bool, String, Result, ok, err, if◌then◌else◌, ltb, sat_add, u32_max,
}
use chain_upgrade.Base.Int.{ℤ, as_i32, neg_i32}
use chain_upgrade.Substrate.{DispatchError, other}

-- An address of the EVM, a number of 160 bits.
abbrev pub EvmAddress : Type 0
EvmAddress = ℕ

abbrev pub DispatchResult : Type 0 → Type 0
DispatchResult E = Result (DispatchError E) (Unit {0})

-- `trait StorageMeterHandler` over a state `H`, with errors of a module `E`. A call that fails returns
-- the state that it leaves.
pub record StorageMeterHandler (E H : Type 0) : Type 0 where
  pub reserve_storage : ℕ → H → DispatchResult E × H
  pub unreserve_storage : ℕ → ℕ → ℕ → H → DispatchResult E × H
  pub charge_storage : EvmAddress → ℕ → ℕ → H → DispatchResult E × H

pub record StorageMeter (E : Type 0) : Type 0 where
  pub contract : EvmAddress
  pub limit : ℕ
  pub total_used : ℕ
  pub self_used : ℕ
  pub total_refunded : ℕ
  pub self_refunded : ℕ
  pub result : DispatchResult E

-- What a meter holds a reference to: the meters of the callers, over the root.
pub data Chain (E H : Type 0) : Type 0 where
  root : H → Chain E H
  nested : StorageMeter E → Chain E H → Chain E H

module _ {E : Type 0} where
  -- `StorageMeter::new` once the limit is reserved.
  abbrev pub fresh_meter : EvmAddress → ℕ → StorageMeter E
  fresh_meter contract limit = record {
    contract = contract;
    limit = limit;
    total_used = 0;
    self_used = 0;
    total_refunded = 0;
    self_refunded = 0;
    result = ok tt;
  }

  unfoldable pub available_storage : StorageMeter E → ℕ
  available_storage m = elim m.result [
    | ok _ ↦ sat_add u32_max m.limit m.total_refunded - m.total_used
    | err _ ↦ 0
  ]

  unfoldable pub used_storage : StorageMeter E → ℤ
  used_storage m =
      if ltb m.total_refunded m.total_used
      then as_i32 (m.total_used - m.total_refunded)
      else neg_i32 (as_i32 (m.total_refunded - m.total_used))

  -- `handle`: a meter that has failed passes its error on.
  abbrev pub handle {ℓ} :
      {A : Type ℓ}
      → StorageMeter E
      → (StorageMeter E → Result (DispatchError E) A × StorageMeter E)
      → Result (DispatchError E) A × StorageMeter E
  handle m f = elim m.result [ ok _ ↦ f m | err e ↦ (err e, m) ]

  unfoldable pub charge : ℕ → StorageMeter E → DispatchResult E × StorageMeter E
  charge n m = handle m λ this. (
    ok tt,
    record this {
      total_used = sat_add u32_max this.total_used n;
      self_used = sat_add u32_max this.self_used n;
    },
  )

  unfoldable pub uncharge : ℕ → StorageMeter E → DispatchResult E × StorageMeter E
  uncharge n m = handle m λ this.
      (ok tt, record this { total_used = this.total_used - n; self_used = this.self_used - n })

  unfoldable pub refund : ℕ → StorageMeter E → DispatchResult E × StorageMeter E
  refund n m = handle m λ this. (
    ok tt,
    record this {
      total_refunded = sat_add u32_max this.total_refunded n;
      self_refunded = sat_add u32_max this.self_refunded n;
    },
  )

  -- The totals of a meter that hears of a charge below it.
  abbrev pub pass_on : ℕ → ℕ → StorageMeter E → StorageMeter E
  pass_on used refunded m = record m {
    total_refunded = sat_add u32_max m.total_refunded refunded;
    total_used = sat_add u32_max m.total_used used;
  }

  -- What `finish` leaves reserved for later, before the meter's own charge is taken off again.
  abbrev pub new_limit : StorageMeter E → ℕ
  new_limit m =
      sat_add u32_max (sat_add u32_max m.limit m.self_used) m.total_refunded
      - m.total_used
      - m.self_refunded

module _ {E H : Type 0} (ops : StorageMeterHandler E H) where
  abbrev pub Done : Type 0
  Done = DispatchResult E × Chain E H

  -- `reserve_storage`: only the root reserves.
  unfoldable pub reserve_storage : ℕ → Chain E H → Done
  reserve_storage n (root h) = let (r, h') = ops.reserve_storage n h in (r, root h')
  reserve_storage n (nested m k) = (ok tt, nested m k)

  unfoldable pub unreserve_storage : ℕ → ℕ → ℕ → Chain E H → Done
  unreserve_storage n used refunded (root h) =
      let (r, h') = ops.unreserve_storage n used refunded h in (r, root h')
  unreserve_storage n used refunded (nested m k) = (ok tt, nested m k)

  -- `charge_storage`: every meter on the way adds to its totals; the root charges.
  unfoldable pub charge_storage : EvmAddress → ℕ → ℕ → Chain E H → Done
  charge_storage c used refunded (root h) =
      let (r, h') = ops.charge_storage c used refunded h in (r, root h')
  charge_storage c used refunded (nested m k) =
      let (r, k') = charge_storage c used refunded k in
      elim m.result [
        | ok _ ↦ (r, nested (pass_on used refunded m) k')
        | err e ↦ (err e, nested m k)
      ]

  -- `child_meter`: the new meter's handler is the chain with the parent on it.
  unfoldable pub child_meter :
      EvmAddress → StorageMeter E → Chain E H → Result (DispatchError E) (StorageMeter E)
  child_meter contract m k = elim m.result [
    | ok _ ↦ ok (fresh_meter contract (available_storage m))
    | err e ↦ err e
  ]

  abbrev pub then_unreserve : StorageMeter E → Done → Done
  then_unreserve m (ok _, k) = unreserve_storage (new_limit m) m.self_used m.self_refunded k
  then_unreserve m (err e, k) = (err e, k)

  -- `finish` consumes the meter; what is left is its handler.
  unfoldable pub finish : StorageMeter E → Chain E H → Done
  finish m k = elim m.result [
    | err e ↦ (err e, k)
    | ok _ ↦
        (if ltb m.limit (m.total_used - m.total_refunded)
          then (err (other "OutOfStorage"), k)
          else then_unreserve m (charge_storage m.contract m.self_used m.self_refunded k))
  ]
