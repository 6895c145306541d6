-- ===== src/Rpc/Tests.antt =====
-- Searches of modules/evm/rpc/src/lib.rs with a concrete runtime, and witnesses of the theorems.
use chain_upgrade.Base.{
  ℕ, zero, suc, ◌+◌, ◌-◌, ◌^◌, ◌≡◌, ◌≤◌, ◌<◌, ◌↔◌, refl, List, [], ◌∷◌, ◌++◌, none, some, Result,
  ok, err, if◌then◌else◌, ltb, length, arith,
}
use chain_upgrade.Base.Int.{pos}
use chain_upgrade.Base.Bytes.{bytes_of, BytesBelow, from_be, slice}
use chain_upgrade.Rpc.Requests.{
  Fault, rpc_error, server_error, panic, succeed, out_of_gas, Info, CallRequest, Api, Machine,
  decode_revert_message, calculate_gas_used, error_on_execution_failure, gas_limit_max,
}
use chain_upgrade.Rpc.Search.{Bounds, used_at, search_gas, search_resources, loop, loop_step}
use chain_upgrade.Rpc.SearchEnds.{search_gas_ends}
use chain_upgrade.Rpc.SearchFinds.{
  Invariant, search_gas_lem, search_resources-search_gas, search_resources_out_of_gas,
}
use chain_upgrade.Rpc.Revert.{decode_revert_message_panic}

-- A text is a text of one letter for each byte.
abbrev machine : Machine
machine = record { usize_max = 2 ^ 64 - 1; from_utf8 = λ bytes. some "text" }

-- A call needs a limit of 60 million, and uses 30 million.
abbrev info_at : ℕ → Info
info_at limit = record {
  exit_reason = if ltb limit 60_000_000 then out_of_gas else succeed;
  output = [];
  used_gas = 30_000_000;
  used_storage = pos 12;
}

abbrev api : Api
api = record {
  call = λ from to bytes value gas storage estimate. ok (ok (info_at gas));
  create = λ from bytes value gas storage estimate.
      ok (ok (record (info_at gas) { used_gas = 10; exit_reason = succeed }));
}

abbrev request : CallRequest
request = record {
  from = some 1;
  to = some 20;
  gas_limit = none;
  storage_limit = none;
  value = some 5;
  data_bytes = none;
}

abbrev found : Bounds
found = record {
  lower = 50_010_500;
  upper = 75_005_250;
  mid = 62_507_875;
  best = 30_000_000;
  change_pct = 0;
  storage = pos 12;
}

is_found : search_gas machine api request 31 ≡ some (ok found)
unfolding search_gas loop loop_step calculate_gas_used error_on_execution_failure
is_found = refl

search_gas_ends_example :
    (result : Result Fault Bounds) × (search_gas machine api request 31 ≡ some result)
search_gas_ends_example = search_gas_ends machine api request

search_gas_lem_example : Invariant (used_at machine api request) found
search_gas_lem_example = search_gas_lem machine api request 31 found is_found

-- A creation suffices with little gas under every limit.
abbrev creation : CallRequest
creation = record request { to = none }

abbrev created : Bounds
created = record {
  lower = 21_000;
  upper = 50_010_500;
  mid = 25_015_750;
  best = 10;
  change_pct = 0;
  storage = pos 12;
}

is_created : search_resources machine api creation 31 ≡ some (ok created)
unfolding search_resources loop loop_step calculate_gas_used error_on_execution_failure
is_created = refl

search_resources-search_gas_example : search_gas machine api creation 31 ≡ some (ok created)
search_resources-search_gas_example =
    search_resources-search_gas machine api creation 31 created is_created

full : used_at machine api request gas_limit_max ≡ ok (30_000_000, pos 12)
unfolding calculate_gas_used error_on_execution_failure
full = refl

short : used_at machine api request 50_010_500 ≡ err (rpc_error server_error none)
unfolding calculate_gas_used error_on_execution_failure
short = refl

search_resources_out_of_gas_example :
    search_resources machine api request 31 ≡ some (err (rpc_error server_error none))
search_resources_out_of_gas_example =
    search_resources_out_of_gas machine api request 30_000_000 29 (pos 12) none full (ground arith)
      short

abbrev zero_bytes : ℕ → List ℕ
zero_bytes zero = []
zero_bytes (suc n) = 0 ∷ zero_bytes n

three_below : BytesBelow 32 3
unfolding BytesBelow
three_below = refl

-- The third word is the largest number.
abbrev huge : List ℕ
huge = zero_bytes 36 ++ (bytes_of 32 (2 ^ 256 - 1) ++ 0 ∷ [])

huge_long : 68 < length huge
unfolding bytes_of
huge_long = ground arith

huge_fits : length huge ≤ machine.usize_max
unfolding bytes_of
huge_fits = ground arith

decode_revert_message_panic_example :
    (decode_revert_message machine huge ≡ err panic)
    ↔ (machine.usize_max < 68 + from_be 0 (slice 36 68 huge))
decode_revert_message_panic_example = decode_revert_message_panic machine huge huge_long huge_fits
