-- ===== src/Evm/Execute.antt =====
-- `EVM::execute` of modules/evm/src/lib.rs, by which other modules run a contract, with the types of
-- modules/support/src/lib.rs and primitives/src/evm.rs that it is called with. `Runner::call` is a
-- parameter: what it leaves of the storage when it fails is dropped anyway.
use chain_upgrade.Base.{ℕ, Bool, true, false, List, String, Result, ok, err, if◌then◌else◌}
use chain_upgrade.Base.Int.{ℤ}
use chain_upgrade.Substrate.{Balance}
use chain_upgrade.Evm.Meter.{EvmAddress}

pub record InvokeContext : Type 0 where
  pub contract : EvmAddress
  pub sender : EvmAddress
  pub origin : EvmAddress

pub data ExecutionMode : Type 0 where
  execute_mode : ExecutionMode
  view : ExecutionMode
  estimate_gas : ExecutionMode

-- `ExitSucceed` and `ExitReason` of the interpreter.
pub data ExitSucceed : Type 0 where
  stopped : ExitSucceed
  returned : ExitSucceed
  suicided : ExitSucceed

pub data ExitReason : Type 0 where
  succeed : ExitSucceed → ExitReason
  error : ExitReason
  revert : ExitReason
  fatal : ExitReason

abbrev pub is_succeed : ExitReason → Bool
is_succeed (succeed reason) = true
is_succeed error = false
is_succeed revert = false
is_succeed fatal = false

pub record CallInfo : Type 0 where
  pub exit_reason : ExitReason
  pub output : List ℕ
  pub used_gas : ℕ
  pub used_storage : ℤ

-- The last argument before the storage is the flag `estimate` of the configuration.
pub record Runner (World : Type 0) : Type 0 where
  pub call :
      InvokeContext → List ℕ → Balance → ℕ → ℕ → Bool → World → Result String CallInfo × World
  -- The event that a contract was executed.
  pub deposit_executed : InvokeContext → CallInfo → World → World
  pub deposit_executed_failed : InvokeContext → CallInfo → ℕ → World → World

abbrev pub is_estimate : ExecutionMode → Bool
is_estimate execute_mode = false
is_estimate view = false
is_estimate estimate_gas = true

module _ {World : Type 0} (runner : Runner World) where
  -- The outcome of a transaction of the storage: the storage after it, and whether it is kept.
  pub data Outcome : Type 0 where
    commit : CallInfo → World → Outcome
    rollback : Result String CallInfo → World → Outcome

  -- `with_transaction`: a rollback brings the storage `w` back.
  abbrev pub with_transaction : World → Outcome → Result String CallInfo × World
  with_transaction w (commit info w') = (ok info, w')
  with_transaction w (rollback r w') = (r, w)

  -- The events are deposited inside the transaction.
  abbrev pub executed : InvokeContext → ℕ → CallInfo → World → Outcome
  executed context gas_limit info w =
      if is_succeed info.exit_reason
      then commit info (runner.deposit_executed context info w)
      else rollback (ok info) (runner.deposit_executed_failed context info gas_limit w)

  abbrev pub outcome : InvokeContext → ℕ → ExecutionMode → Result String CallInfo × World → Outcome
  outcome context gas_limit execute_mode (ok info, w) = executed context gas_limit info w
  outcome context gas_limit view (ok info, w) = rollback (ok info) w
  outcome context gas_limit estimate_gas (ok info, w) = rollback (ok info) w
  outcome context gas_limit mode (err e, w) = rollback (err e) w

  unfoldable pub execute :
      InvokeContext
      → List ℕ
      → Balance
      → ℕ
      → ℕ
      → ExecutionMode
      → World
      → Result String CallInfo × World
  execute context input value gas_limit storage_limit mode w = with_transaction w (
      outcome context gas_limit mode
        (runner.call context input value gas_limit storage_limit (is_estimate mode) w))
