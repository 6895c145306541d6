-- ===== src/Currencies/Tests.antt =====
-- The reserves and the adapter of modules/currencies/src/lib.rs on concrete balances, the currency ids of
-- primitives/src/lib.rs, and witnesses of the theorems.
use chain_upgrade.Base.{ℕ, ◌+◌, ◌-◌, ◌^◌, ◌≡◌, ◌≢◌, refl, List, [], ◌∷◌, ◌++◌, some, ok, min, arith}
use chain_upgrade.Base.Int.{negsuc}
use chain_upgrade.Base.Bytes.{bytes_of, from_be}
use chain_upgrade.Substrate.Ledger.{Book, set_at}
use chain_upgrade.Currencies.Ids.{
  erc20, dex_share, reef, rusd, zeros, try_from, into_bytes, symbol_try_from, into_bytes-try_from,
}
use chain_upgrade.Currencies.Interfaces.{free, reserve_address}
use chain_upgrade.Currencies.Reserves.{reserve, unreserve, reserved_balance, repatriate_reserved}
use chain_upgrade.Currencies.Adapter.{
  IsShifted, basic_currency_adapter, adapter_update_balance, update_balance_lem,
}
use chain_upgrade.Currencies.Moves.{IsMoved, unreserve_lem}
use chain_upgrade.Currencies.Repatriation.{arrived_balance, repatriate_reserved_lem}
use chain_upgrade.Currencies.Samples.{
  pallet_currency, pallet_currency_laws, host, silent_host, erc20_laws,
}

abbrev share_bytes : List ℕ
share_bytes = zeros 29 ++ 1 ∷ 0 ∷ 1 ∷ []

share_reads : try_from share_bytes ≡ some (dex_share reef rusd)
unfolding try_from symbol_try_from
share_reads = refl

into_bytes-try_from_example : into_bytes (dex_share reef rusd) ≡ share_bytes
into_bytes-try_from_example = into_bytes-try_from share_bytes (dex_share reef rusd) share_reads

abbrev start : Book
start = record { free = λ j. 100; held = λ j. 0; issued = 1000 }

-- The reserve address of the account 1.
abbrev address : ℕ
address = 2 ^ 152 + 1

is_address : reserve_address host 1 ≡ address
unfolding reserve_address bytes_of from_be
is_address = refl

apart : reserve_address host 1 ≢ 1
unfolding reserve_address bytes_of from_be
apart e = ground arith

abbrev held : Book
held = record start { free = set_at address 130 (set_at 1 70 start.free) }

is_held : reserve host (erc20 7) 1 30 start ≡ ok held
unfolding reserve reserve_address bytes_of from_be
is_held = refl

-- More than is reserved.
unreserve_lem_example : IsMoved host 7 1 1 500 held (unreserve host (erc20 7) 1 500 held)
unreserve_lem_example = unreserve_lem (erc20_laws 7) 1 1 500 held refl apart

abbrev given_back : Book
given_back = record held { free = set_at 1 100 (set_at address 100 held.free) }

-- A token that answers nothing moves the 30, and all of them are reported as the rest.
silent_moves : unreserve silent_host (erc20 7) 1 30 held ≡ (30, given_back)
unfolding unreserve reserve_address bytes_of from_be
silent_moves = refl

abbrev repatriated : Book
repatriated = record held { free = set_at 2 150 (set_at address 80 held.free) }

is_repatriated : repatriate_reserved host (erc20 7) 1 2 50 free held ≡ ok (0, repatriated)
unfolding repatriate_reserved reserve_address bytes_of from_be
is_repatriated = refl

apart_2 : reserve_address host 1 ≢ 2
unfolding reserve_address bytes_of from_be
apart_2 e = ground arith

repatriate_reserved_lem_example :
    (0 ≡ 50 - min (reserved_balance host (erc20 7) 1 held) 50)
    × ((reserved_balance host (erc20 7) 1 repatriated + (50 - 0)
          ≡ reserved_balance host (erc20 7) 1 held)
        × (arrived_balance host 7 free 2 repatriated
            ≡ arrived_balance host 7 free 2 held + (50 - 0)))
repatriate_reserved_lem_example =
    repatriate_reserved_lem (erc20_laws 7) 1 2 1 2 50 free held repatriated 0 (ground arith) refl
      refl apart_2 is_repatriated

abbrev burned : Book
burned = record start { free = set_at 3 60 start.free; issued = 960 }

is_burned : (basic_currency_adapter pallet_currency).update_balance 3 (negsuc 39) start ≡ ok burned
unfolding basic_currency_adapter adapter_update_balance
is_burned = refl

update_balance_lem_example :
    IsShifted (negsuc 39) (start.free 3) (burned.free 3) × IsShifted (negsuc 39) 1000 960
update_balance_lem_example =
    update_balance_lem pallet_currency_laws 3 (negsuc 39) start burned is_burned
