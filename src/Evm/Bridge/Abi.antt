-- ===== src/Evm/Bridge/Abi.antt =====
-- `decode_string` of modules/evm-bridge/src/lib.rs: a text that a contract returned. `usize_max` is that of
-- the machine. An index out of range stops the program, which is the fault `panic`.
use chain_upgrade.Base.{
  ℕ, ◌%◌, ◌&&◌, List, Result, ok, ◌>>=◌, ◌>>◌, ensure, ok_or, leb, ◌==◌, length, checked_add,
}
use chain_upgrade.Base.Bytes.{from_be, slice}
use chain_upgrade.Substrate.{DispatchError, pallet}

pub data Error : Type 0 where
  execution_fail : Error
  execution_revert : Error
  execution_fatal : Error
  execution_error : Error
  invalid_return_value : Error

pub data Fault : Type 0 where
  failed : DispatchError Error → Fault
  panic : Fault

abbrev pub invalid : Fault
invalid = failed (pallet invalid_return_value)

-- `&xs[start..end]`
unfoldable pub index : ℕ → ℕ → List ℕ → Result Fault (List ℕ)
index start end xs = do ensure (leb start end && leb end (length xs)) panic; ok (slice start end xs)

unfoldable pub decode_string : ℕ → List ℕ → Result Fault (List ℕ)
unfolding index
decode_string usize_max output = do
  ensure (leb 64 (length output) && (length output % 32 == 0)) invalid
  head ← index 0 32 output
  let offset = from_be 0 head
  ensure (leb offset usize_max) invalid
  start ← ok_or (checked_add usize_max offset 32) invalid
  word ← index offset start output
  let size = from_be 0 word
  ensure (leb size usize_max) invalid
  end ← ok_or (checked_add usize_max start size) invalid
  ensure (leb end (length output)) invalid
  index start end output
