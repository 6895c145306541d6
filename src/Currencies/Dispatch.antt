-- ===== src/Currencies/Dispatch.antt =====
-- The pallet of modules/currencies/src/lib.rs: each operation goes to the native currency, to an ERC20
-- contract or to the other currencies. `currency` is `Currency<T, GetCurrencyId>`, the operations at one
-- id. An operation that returns an
-- error leaves no state, as the error takes back the call that it is part of.
use chain_upgrade.Base.{
  Bool, false, ◌||◌, Option, none, some, ok, err, ◌>>=◌, ensure, ok_or, if◌then◌else◌, leb, ◌==◌,
}
use chain_upgrade.Base.Int.{ℤ}
use chain_upgrade.Substrate.{AccountId, Balance, pallet, Dispatch}
use chain_upgrade.Evm.Meter.{EvmAddress}
use chain_upgrade.Evm.Execute.{InvokeContext}
use chain_upgrade.Currencies.Ids.{reef, rusd, CurrencyId, token, dex_share, erc20}
use chain_upgrade.Currencies.Interfaces.{
  Error, erc20_invalid_operation, evm_account_not_found, balance_too_low, real_origin_not_found,
  transferred, balance_updated, deposited, withdrawn, LockIdentifier, Basic, Host,
}

-- The state after a transfer that succeeded. The error of one that failed reaches the call of a
-- contract, which takes back its changes.
abbrev pub after_transfer :
    {World : Type 0} → Dispatch Error (Unit {0}) × World → Dispatch Error World
after_transfer (ok u, w) = ok w
after_transfer (err e, w) = err e

-- A call without sender and origin.
abbrev pub query_of : EvmAddress → InvokeContext
query_of contract = record { contract = contract; sender = 0; origin = 0 }

abbrev pub or_zero : Dispatch Error Balance → Balance
or_zero (ok b) = b
or_zero (err e) = 0

-- The match of an id: a contract, or the basic currency that the id stands for.
abbrev pub on_currency :
    {World : Type 0} {X : Type 0}
    → Host World
    → CurrencyId
    → (EvmAddress → X)
    → (Basic World → X)
    → X
on_currency h (erc20 contract) on_contract on_basic = on_contract contract
on_currency h (token reef) on_contract on_basic = on_basic h.native
on_currency h (token rusd) on_contract on_basic = on_basic (h.multi (token rusd))
on_currency h (dex_share l r) on_contract on_basic = on_basic (h.multi (dex_share l r))

module _ {World : Type 0} (h : Host World) where
  open h use {bridge, get_evm_address, get_or_create_evm_address, deposit_event}

  -- The balance of an address with a contract, 0 if the call fails.
  abbrev pub erc20_balance : EvmAddress → EvmAddress → World → Balance
  erc20_balance contract address w = or_zero (bridge.balance_of (query_of contract) address w)

  abbrev pub balance_at : EvmAddress → Option EvmAddress → World → Balance
  balance_at contract none w = 0
  balance_at contract (some address) w = erc20_balance contract address w

  unfoldable pub minimum_balance : CurrencyId → World → Balance
  minimum_balance id w = on_currency h id (λ _. 0) (λ b. b.minimum_balance w)

  unfoldable pub total_issuance : CurrencyId → World → Balance
  total_issuance id w =
      on_currency h id (λ contract. or_zero (bridge.total_supply (query_of contract) w))
        (λ b. b.total_issuance w)

  unfoldable pub total_balance : CurrencyId → AccountId → World → Balance
  total_balance id who w =
      on_currency h id (λ contract. balance_at contract (get_evm_address who w) w)
        (λ b. b.total_balance who w)

  unfoldable pub free_balance : CurrencyId → AccountId → World → Balance
  free_balance id who w =
      on_currency h id (λ contract. balance_at contract (get_evm_address who w) w)
        (λ b. b.free_balance who w)

  abbrev pub erc20_can_withdraw :
      EvmAddress → AccountId → Balance → World → Dispatch Error (Unit {0})
  erc20_can_withdraw contract who amount w = do
    address ← ok_or (get_evm_address who w) (pallet evm_account_not_found)
    ensure (leb amount (erc20_balance contract address w)) (pallet balance_too_low)

  unfoldable pub ensure_can_withdraw :
      CurrencyId → AccountId → Balance → World → Dispatch Error (Unit {0})
  ensure_can_withdraw id who amount w =
      on_currency h id (λ contract. erc20_can_withdraw contract who amount w)
        (λ b. b.ensure_can_withdraw who amount w)

  abbrev pub erc20_transfer :
      EvmAddress → AccountId → AccountId → Balance → World → Dispatch Error World
  erc20_transfer contract from to amount w = do
    sender ← ok_or (get_evm_address from w) (pallet evm_account_not_found)
    origin ← ok_or (bridge.get_origin w) (pallet real_origin_not_found)
    let (origin_address, w₁) = get_or_create_evm_address origin w
    let (address, w₂) = get_or_create_evm_address to w₁
    after_transfer (
        bridge.transfer (record { contract = contract; sender = sender; origin = origin_address })
          address amount w₂)

  unfoldable pub transfer :
      CurrencyId → AccountId → AccountId → Balance → World → Dispatch Error World
  transfer id from to amount w =
      let moved =
        on_currency h id (λ contract. erc20_transfer contract from to amount w)
          (λ b. b.transfer from to amount w) in
      if (amount == 0) || (from == to)
      then ok w
      else moved >>= λ w'. ok (deposit_event (transferred id from to amount) w')

  abbrev pub invalid : EvmAddress → Dispatch Error World
  invalid contract = err (pallet erc20_invalid_operation)

  unfoldable pub deposit : CurrencyId → AccountId → Balance → World → Dispatch Error World
  deposit id who amount w =
      let moved = on_currency h id invalid (λ b. b.deposit who amount w) in
      if amount == 0 then ok w else moved >>= λ w'. ok (deposit_event (deposited id who amount) w')

  unfoldable pub withdraw : CurrencyId → AccountId → Balance → World → Dispatch Error World
  withdraw id who amount w =
      let moved = on_currency h id invalid (λ b. b.withdraw who amount w) in
      if amount == 0 then ok w else moved >>= λ w'. ok (deposit_event (withdrawn id who amount) w')

  unfoldable pub can_slash : CurrencyId → AccountId → Balance → World → Bool
  can_slash id who amount w = on_currency h id (λ _. false) (λ b. b.can_slash who amount w)

  unfoldable pub slash : CurrencyId → AccountId → Balance → World → Balance × World
  slash id who amount w = on_currency h id (λ _. (0, w)) (λ b. b.slash who amount w)

  unfoldable pub update_balance : CurrencyId → AccountId → ℤ → World → Dispatch Error World
  update_balance id who by_amount w = do
    w' ← on_currency h id invalid (λ b. b.update_balance who by_amount w)
    ok (deposit_event (balance_updated id who by_amount) w')

  unfoldable pub set_lock :
      LockIdentifier → CurrencyId → AccountId → Balance → World → Dispatch Error World
  set_lock lock_id id who amount w = on_currency h id invalid (λ b. b.set_lock lock_id who amount w)

  unfoldable pub extend_lock :
      LockIdentifier → CurrencyId → AccountId → Balance → World → Dispatch Error World
  extend_lock lock_id id who amount w =
      on_currency h id invalid (λ b. b.extend_lock lock_id who amount w)

  unfoldable pub remove_lock :
      LockIdentifier → CurrencyId → AccountId → World → Dispatch Error World
  remove_lock lock_id id who w = on_currency h id invalid (λ b. b.remove_lock lock_id who w)

  -- The dispatchables, for signed origins and for the root.
  unfoldable pub transfer_native_currency :
      AccountId → AccountId → Balance → World → Dispatch Error World
  transfer_native_currency from to amount w = do
    w' ← h.native.transfer from to amount w
    ok (deposit_event (transferred (token reef) from to amount) w')

  unfoldable pub transfer_all : AccountId → AccountId → World → Dispatch Error World
  transfer_all source dest w = do
    w' ← h.multi_transfer_all source dest w
    h.native.transfer source dest (h.native.free_balance source w') w'

  unfoldable pub on_dust : AccountId → AccountId → CurrencyId → Balance → World → World
  on_dust treasury who id amount w =
      elim (on_currency h id (λ _. ok w) (λ b. b.transfer who treasury amount w)) [
        | ok w' ↦ w'
        | err e ↦ w
      ]
