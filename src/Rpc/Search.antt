-- ===== src/Rpc/Search.antt =====
-- The searches for the least gas of modules/evm/rpc/src/lib.rs: the loops of `estimate_gas` and
-- `estimate_resources` as the step of their bodies, run on fuel.
use chain_upgrade.Base.{
  ℕ, zero, suc, ◌+◌, ◌-◌, ◌*◌, ◌/◌, Option, none, some, Result, ok, err, if◌then◌else◌, ltb, leb,
  ◌==◌,
}
use chain_upgrade.Base.Int.{ℤ, pos}
use chain_upgrade.Rpc.Requests.{
  Fault, rpc_error, panic, server_error, internal_error, invalid_params, gas_limit_max, Machine,
  Api, CallRequest, calculate_gas_used,
}

pub record Bounds : Type 0 where
  pub lower : ℕ
  pub upper : ℕ
  pub mid : ℕ
  pub best : ℕ
  pub change_pct : ℕ
  pub storage : ℤ

abbrev pub start : Bounds
start = record {
  lower = 21_000;
  upper = gas_limit_max;
  mid = gas_limit_max;
  best = gas_limit_max;
  change_pct = 100;
  storage = pos 0;
}

-- A turn of the loop ends it, or leaves new bounds.
pub data Turn : Type 0 where
  stop : Result Fault Bounds → Turn
  again : Bounds → Turn

-- `checked_div` with 0 for a division by 0.
abbrev pub percent_of : ℕ → ℕ → ℕ
percent_of part zero = 0
percent_of part (suc n) = 100 * part / suc n

-- The limit has sufficed. The difference of the big numbers overflows if more gas was used than before.
abbrev pub reduced : ℕ → ℤ → Bounds → Turn
reduced used_gas used_storage s =
    if leb used_gas s.best
    then again (record {
      lower = s.lower;
      upper = s.mid;
      mid = (s.lower + s.mid + 1) / 2;
      best = used_gas;
      change_pct = percent_of (s.best - used_gas) s.best;
      storage = used_storage;
    })
    else stop (err panic)

-- The limit has not sufficed.
abbrev pub raised : Bounds → Turn
raised s =
    if (s.mid + s.upper + 1) / 2 == s.mid
    then stop (ok s)
    else again (record s { lower = s.mid; mid = (s.mid + s.upper + 1) / 2 })

abbrev pub gas_turn : Result Fault (ℕ × ℤ) → Bounds → Turn
gas_turn (ok (used_gas, used_storage)) s = reduced used_gas used_storage s
gas_turn (err (rpc_error code reason)) s = raised s
gas_turn (err panic) s = stop (err panic)

-- The body returns the error after an exhausted limit too, unless the limit cannot be raised.
abbrev pub out_of_gas_turn : Fault → Bounds → Turn
out_of_gas_turn e s = if (s.mid + s.upper + 1) / 2 == s.mid then stop (ok s) else stop (err e)

abbrev pub resources_turn : Result Fault (ℕ × ℤ) → Bounds → Turn
resources_turn (ok (used_gas, used_storage)) s = reduced used_gas used_storage s
resources_turn (err (rpc_error server_error reason)) s =
    out_of_gas_turn (rpc_error server_error reason) s
resources_turn (err (rpc_error internal_error reason)) s =
    stop (err (rpc_error internal_error reason))
resources_turn (err (rpc_error invalid_params reason)) s =
    stop (err (rpc_error invalid_params reason))
resources_turn (err panic) s = stop (err panic)

-- One turn, with the test of the loop before it.
module _ (turn : Result Fault (ℕ × ℤ) → Bounds → Turn) (used : ℕ → Result Fault (ℕ × ℤ)) where
  unfoldable pub loop_step : Bounds → Turn
  loop_step s = if ltb 10 s.change_pct then turn (used s.mid) s else stop (ok s)

  abbrev pub finish_turn :
      Turn → (Bounds → Option (Result Fault Bounds)) → Option (Result Fault Bounds)
  finish_turn (stop r) next = some r
  finish_turn (again s) next = next s

  unfoldable pub loop : ℕ → Bounds → Option (Result Fault Bounds)
  loop zero s = none
  loop (suc fuel) s = finish_turn (loop_step s) (λ s'. loop fuel s')

module _ (m : Machine) (api : Api) where
  -- The request with a gas limit.
  abbrev pub used_at : CallRequest → ℕ → Result Fault (ℕ × ℤ)
  used_at r limit = calculate_gas_used m api (record r { gas_limit = some limit })

  unfoldable pub search_gas : CallRequest → ℕ → Option (Result Fault Bounds)
  search_gas r fuel = loop gas_turn (used_at r) fuel start

  -- The gas and the storage that `estimate_resources` finds before it asks for the fee.
  unfoldable pub search_resources : CallRequest → ℕ → Option (Result Fault Bounds)
  search_resources r fuel = loop resources_turn (used_at r) fuel start
