-- ===== src/Evm/Bridge/Erc20.antt =====
-- The functions of modules/evm-bridge/src/lib.rs. Each runs a contract with an encoded call and reads its
-- output. `u256_from` is the conversion of bytes by the number library, which may stop the program.
use chain_upgrade.Base.{
  ℕ, Bool, true, false, not, ◌&&◌, List, [], ◌∷◌, ◌++◌, Option, String, Result, ok, err, ◌>>=◌,
  ◌>>◌, ensure, ok_or, map_err, if◌then◌else◌, ◌==◌, length, min, u128_max,
}
use chain_upgrade.Base.Bytes.{bytes_of}
use chain_upgrade.Substrate.{Balance, pallet, other}
use chain_upgrade.Evm.Meter.{EvmAddress}
use chain_upgrade.Evm.Execute.{
  InvokeContext, execute_mode, view, stopped, returned, suicided, ExitReason, succeed, error,
  revert, fatal, CallInfo, Runner, execute,
}
use chain_upgrade.Evm.Bridge.Abi.{
  execution_fail, execution_revert, execution_fatal, execution_error, Fault, failed, panic, invalid,
  decode_string,
}

pub record Externals : Type 0 where
  pub usize_max : ℕ
  pub u256_from : List ℕ → Option ℕ

unfoldable pub handle_exit_reason : ExitReason → Result Fault (Unit {0})
handle_exit_reason (succeed returned) = ok tt
handle_exit_reason (succeed stopped) = ok tt
handle_exit_reason (succeed suicided) = err (failed (pallet execution_fail))
handle_exit_reason revert = err (failed (pallet execution_revert))
handle_exit_reason fatal = err (failed (pallet execution_fatal))
handle_exit_reason error = err (failed (pallet execution_error))

-- Two lists of the same bytes.
unfoldable pub same_bytes : List ℕ → List ℕ → Bool
same_bytes [] [] = true
same_bytes [] (y ∷ ys) = false
same_bytes (x ∷ xs) [] = false
same_bytes (x ∷ xs) (y ∷ ys) = (x == y) && same_bytes xs ys

abbrev pub is_empty : List ℕ → Bool
is_empty [] = true
is_empty (x ∷ xs) = false

abbrev pub call_gas : ℕ
call_gas = 2_100_000

-- The selectors of the ERC20 functions.
abbrev pub name_selector : List ℕ
name_selector = 0x06 ∷ 0xfd ∷ 0xde ∷ 0x03 ∷ []

abbrev pub symbol_selector : List ℕ
symbol_selector = 0x95 ∷ 0xd8 ∷ 0x9b ∷ 0x41 ∷ []

abbrev pub decimals_selector : List ℕ
decimals_selector = 0x31 ∷ 0x3c ∷ 0xe5 ∷ 0x67 ∷ []

abbrev pub total_supply_selector : List ℕ
total_supply_selector = 0x18 ∷ 0x16 ∷ 0x0d ∷ 0xdd ∷ []

abbrev pub balance_of_selector : List ℕ
balance_of_selector = 0x70 ∷ 0xa0 ∷ 0x82 ∷ 0x31 ∷ []

abbrev pub transfer_selector : List ℕ
transfer_selector = 0xa9 ∷ 0x05 ∷ 0x9c ∷ 0xbb ∷ []

-- A call without an origin may not use storage.
abbrev pub storage_limit_of : InvokeContext → ℕ
storage_limit_of context = if context.origin == 0 then 0 else 1000

module _ {World : Type 0} (runner : Runner World) (externals : Externals) where
  open externals use {usize_max, u256_from}

  -- The output of a call that has ended well.
  unfoldable pub output_of : Result String CallInfo → Result Fault (List ℕ)
  unfolding handle_exit_reason
  output_of r = do
    info ← map_err (λ e. failed (other e)) r
    handle_exit_reason info.exit_reason
    ok info.output

  -- A call in the mode `View` with an input and no value.
  unfoldable pub query : InvokeContext → List ℕ → World → Result Fault (List ℕ) × World
  query context input w =
      let (r, w') = execute runner context input 0 call_gas 0 view w in (output_of r, w')

  -- `U256::from` of a slice.
  abbrev pub number_from : List ℕ → Result Fault ℕ
  number_from bytes = ok_or (u256_from bytes) panic

  abbrev pub decoded_string : Result Fault (List ℕ) × World → Result Fault (List ℕ) × World
  decoded_string (r, w) = (r >>= decode_string usize_max, w)

  unfoldable pub evm_name : InvokeContext → World → Result Fault (List ℕ) × World
  unfolding query
  evm_name context w = decoded_string (query context name_selector w)

  unfoldable pub symbol : InvokeContext → World → Result Fault (List ℕ) × World
  unfolding query
  symbol context w = decoded_string (query context symbol_selector w)

  -- `saturated_into` a `u8`
  abbrev pub decoded_decimals : List ℕ → Result Fault ℕ
  decoded_decimals output = do
    ensure (length output == 32) invalid
    value ← number_from output
    ok (min value 255)

  unfoldable pub decimals : InvokeContext → World → Result Fault ℕ × World
  unfolding query
  decimals context w =
      let (r, w') = query context decimals_selector w in (r >>= decoded_decimals, w')

  -- `saturated_into` a `u128`
  abbrev pub decoded_balance : List ℕ → Result Fault Balance
  decoded_balance output = do value ← number_from output; ok (min value u128_max)

  unfoldable pub total_supply : InvokeContext → World → Result Fault Balance × World
  unfolding query
  total_supply context w =
      let (r, w') = query context total_supply_selector w in (r >>= decoded_balance, w')

  unfoldable pub balance_of : InvokeContext → EvmAddress → World → Result Fault Balance × World
  unfolding query
  balance_of context address w =
      let (r, w') = query context (balance_of_selector ++ bytes_of 32 address) w in
      (r >>= decoded_balance, w')

  -- The contract has to return the word 1.
  abbrev pub returned_true : List ℕ → Result Fault (Unit {0})
  returned_true output = ensure (not (is_empty output) && same_bytes output (bytes_of 32 1)) invalid

  abbrev pub transfer_input : EvmAddress → Balance → List ℕ
  transfer_input to value =
      transfer_selector ++ (bytes_of 32 to ++ bytes_of 32 (min value u128_max))

  unfoldable pub transfer :
      InvokeContext → EvmAddress → Balance → World → Result Fault (Unit {0}) × World
  unfolding output_of
  transfer context to value w =
      let limit = storage_limit_of context in
      let (r, w') =
        execute runner context (transfer_input to value) 0 call_gas limit execute_mode w in
      (output_of r >>= returned_true, w')
