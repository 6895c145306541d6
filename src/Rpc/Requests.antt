-- ===== src/Rpc/Requests.antt =====
-- The requests of modules/evm/rpc/src/lib.rs and one run of a request by the runtime, whose API and whose
-- decoding of texts are parameters. Of the messages of an error only the reason of a revert is kept.
use chain_upgrade.Base.{
  ℕ, Bool, true, false, ◌&&◌, List, [], Option, none, some, String, Result, ok, err, ◌>>=◌, ◌>>◌,
  ensure, if◌then◌else◌, ltb, leb, length, min, wrapping_add, u128_max,
}
use chain_upgrade.Base.Int.{ℤ}
use chain_upgrade.Base.Bytes.{from_be, slice}
use chain_upgrade.Substrate.{Balance}
use chain_upgrade.Evm.Meter.{EvmAddress}

abbrev pub gas_limit_max : ℕ
gas_limit_max = 100_000_000

abbrev pub storage_limit_max : ℕ
storage_limit_max = 1_000_000

-- `server_error` is the code 0 of a server's own errors.
pub data ErrorCode : Type 0 where
  server_error : ErrorCode
  internal_error : ErrorCode
  invalid_params : ErrorCode

-- An index out of range, and an overflow of a big number, stop the node's thread, which is `panic`.
pub data Fault : Type 0 where
  rpc_error : ErrorCode → Option String → Fault
  panic : Fault

abbrev pub internal : Fault
internal = rpc_error internal_error none

pub data Exit : Type 0 where
  succeed : Exit
  out_of_gas : Exit
  other_error : Exit
  revert : Exit
  fatal : Exit

pub record Info : Type 0 where
  pub exit_reason : Exit
  pub output : List ℕ
  pub used_gas : ℕ
  pub used_storage : ℤ

pub record CallRequest : Type 0 where
  pub from : Option EvmAddress
  pub to : Option EvmAddress
  pub gas_limit : Option ℕ
  pub storage_limit : Option ℕ
  pub value : Option ℕ
  pub data_bytes : Option (List ℕ)

-- The runtime's API at one block. The last argument of both is the flag `estimate`.
pub record Api : Type 0 where
  pub call :
      EvmAddress → EvmAddress → List ℕ → Balance → ℕ → ℕ → Bool → Result String (Result String Info)
  pub create : EvmAddress → List ℕ → Balance → ℕ → ℕ → Bool → Result String (Result String Info)

-- The machine's largest index, and the check of a text's encoding.
pub record Machine : Type 0 where
  pub usize_max : ℕ
  pub from_utf8 : List ℕ → Option String

abbrev pub unwrap_or {ℓ} : {A : Type ℓ} → Option A → A → A
unwrap_or (some a) b = a
unwrap_or none b = b

module _ (m : Machine) where
  open m use {usize_max, from_utf8}

  -- The end of a text of a length. The sum of the indices wraps around.
  abbrev pub message_end : ℕ → ℕ
  message_end x = wrapping_add usize_max 68 (min x usize_max)

  -- The text between the first 68 bytes and an end.
  abbrev pub text_until : ℕ → List ℕ → Result Fault (Option String)
  text_until msg_end bytes =
      if ltb (length bytes) msg_end
      then ok none
      else (ensure (leb 68 msg_end && leb msg_end (length bytes)) panic
          >> ok (from_utf8 (slice 68 msg_end bytes)))

  unfoldable pub decode_revert_message : List ℕ → Result Fault (Option String)
  decode_revert_message bytes =
      if ltb 68 (length bytes)
      then text_until (message_end (from_be 0 (slice 36 68 bytes))) bytes
      else ok none

  unfoldable pub error_on_execution_failure : Exit → List ℕ → Result Fault (Unit {0})
  unfolding decode_revert_message
  error_on_execution_failure succeed bytes = ok tt
  error_on_execution_failure out_of_gas bytes = err (rpc_error server_error none)
  error_on_execution_failure other_error bytes = err internal
  error_on_execution_failure revert bytes =
      decode_revert_message bytes >>= λ reason. err (rpc_error internal_error reason)
  error_on_execution_failure fatal bytes = err internal

  -- The value has to be a `u128`.
  abbrev pub balance_value : Option ℕ → Result Fault Balance
  balance_value none = ok 0
  balance_value (some v) = ensure (leb v u128_max) (rpc_error invalid_params none) >> ok v

  -- Both layers of errors become internal errors.
  abbrev pub flattened : Result String (Result String Info) → Result Fault Info
  flattened (ok (ok info)) = ok info
  flattened (ok (err e)) = err internal
  flattened (err e) = err internal

  module _ (api : Api) where
    abbrev pub info_of : Option EvmAddress → CallRequest → Balance → Bool → Result Fault Info
    info_of (some to) r value estimate = flattened (
        api.call (unwrap_or r.from 0) to (unwrap_or r.data_bytes []) value
          (min (unwrap_or r.gas_limit gas_limit_max) gas_limit_max)
          (min (unwrap_or r.storage_limit storage_limit_max) storage_limit_max) estimate)
    info_of none r value estimate = flattened (
        api.create (unwrap_or r.from 0) (unwrap_or r.data_bytes []) value
          (min (unwrap_or r.gas_limit gas_limit_max) gas_limit_max)
          (min (unwrap_or r.storage_limit storage_limit_max) storage_limit_max) estimate)

    unfoldable pub call : CallRequest → Result Fault (List ℕ)
    call r = do
      value ← balance_value r.value
      info ← info_of r.to r value false
      error_on_execution_failure info.exit_reason info.output
      ok info.output

    -- What the failure of an estimate shows: nothing for a new contract.
    abbrev pub shown : Option EvmAddress → List ℕ → List ℕ
    shown (some to) output = output
    shown none output = []

    -- The closures of the two estimates; `estimate_gas` ignores the storage.
    unfoldable pub calculate_gas_used : CallRequest → Result Fault (ℕ × ℤ)
    calculate_gas_used r = do
      value ← balance_value r.value
      info ← info_of r.to r value true
      error_on_execution_failure info.exit_reason (shown r.to info.output)
      ok (info.used_gas, info.used_storage)
