-- ===== src/Currencies/Reserves.antt =====
-- The reserves of modules/currencies/src/lib.rs. What an account has reserved of an ERC20 currency is the
-- balance of its reserve address with the contract.
use chain_upgrade.Base.{
  ◌-◌, Bool, Option, none, some, ok, err, ◌>>=◌, ok_or, is_ok, if◌then◌else◌, ltb, ◌==◌, min,
}
use chain_upgrade.Substrate.{AccountId, Balance, pallet, Dispatch}
use chain_upgrade.Evm.Meter.{EvmAddress}
use chain_upgrade.Currencies.Ids.{CurrencyId}
use chain_upgrade.Currencies.Interfaces.{
  Error, evm_account_not_found, BalanceStatus, free, reserved, Basic, Host, reserve_address,
}
use chain_upgrade.Currencies.Dispatch.{
  after_transfer, on_currency, erc20_balance, erc20_can_withdraw, minimum_balance, total_issuance,
  total_balance, free_balance, ensure_can_withdraw, transfer, deposit, withdraw, can_slash, slash,
  update_balance, set_lock, extend_lock, remove_lock,
}

module _ {World : Type 0} (h : Host World) where
  open h use {bridge, get_evm_address, get_or_create_evm_address}

  abbrev pub reserved_at : EvmAddress → Option EvmAddress → World → Balance
  reserved_at contract none w = 0
  reserved_at contract (some address) w = erc20_balance h contract (reserve_address h address) w

  unfoldable pub can_reserve : CurrencyId → AccountId → Balance → World → Bool
  can_reserve id who value w =
      on_currency h id (λ contract. is_ok (erc20_can_withdraw h contract who value w))
        (λ b. b.can_reserve who value w)

  -- Nothing is taken from an ERC20 reserve.
  abbrev pub unslashed : EvmAddress → Option EvmAddress → Balance → World → Balance
  unslashed contract none value w = value
  unslashed contract (some address) value w =
      if ltb value (erc20_balance h contract address w)
      then value
      else erc20_balance h contract address w

  unfoldable pub slash_reserved : CurrencyId → AccountId → Balance → World → Balance × World
  slash_reserved id who value w =
      on_currency h id (λ contract. (unslashed contract (get_evm_address who w) value w, w))
        (λ b. b.slash_reserved who value w)

  unfoldable pub reserved_balance : CurrencyId → AccountId → World → Balance
  reserved_balance id who w =
      on_currency h id (λ contract. reserved_at contract (get_evm_address who w) w)
        (λ b. b.reserved_balance who w)

  abbrev pub erc20_reserve : EvmAddress → AccountId → Balance → World → Dispatch Error World
  erc20_reserve contract who value w =
      if value == 0
      then ok w
      else (ok_or (get_evm_address who w) (pallet evm_account_not_found) >>= λ address.
          after_transfer (
            bridge.transfer (record { contract = contract; sender = address; origin = address })
              (reserve_address h address) value w))

  unfoldable pub reserve : CurrencyId → AccountId → Balance → World → Dispatch Error World
  reserve id who value w =
      on_currency h id (λ contract. erc20_reserve contract who value w) (λ b. b.reserve who value w)

  -- The rest of a value of which a part was to be moved, and the state that the transfer left, also if
  -- it failed.
  abbrev pub rest_after : Balance → Balance → Dispatch Error (Unit {0}) × World → Balance × World
  rest_after value actual (ok u, w) = (value - actual, w)
  rest_after value actual (err e, w) = (value, w)

  abbrev pub erc20_unreserve_from :
      EvmAddress → Option EvmAddress → Balance → World → Balance × World
  erc20_unreserve_from contract none value w = (value, w)
  erc20_unreserve_from contract (some address) value w =
      let sender = reserve_address h address in
      let actual = min (erc20_balance h contract sender w) value in
      rest_after value actual (
        bridge.transfer (record { contract = contract; sender = sender; origin = address }) address
          actual w)

  abbrev pub erc20_unreserve : EvmAddress → AccountId → Balance → World → Balance × World
  erc20_unreserve contract who value w =
      if value == 0
      then (value, w)
      else erc20_unreserve_from contract (get_evm_address who w) value w

  unfoldable pub unreserve : CurrencyId → AccountId → Balance → World → Balance × World
  unreserve id who value w =
      on_currency h id (λ contract. erc20_unreserve contract who value w)
        (λ b. b.unreserve who value w)

  -- The address that a repatriated value goes to.
  abbrev pub destination : BalanceStatus → EvmAddress → EvmAddress
  destination free address = address
  destination reserved address = reserve_address h address

  -- From the reserve address of the one address towards the other.
  abbrev pub erc20_repatriate_at :
      EvmAddress
      → EvmAddress
      → EvmAddress
      → Balance
      → BalanceStatus
      → World
      → Dispatch Error (Balance × World)
  erc20_repatriate_at contract slashed_address beneficiary_address value status w = do
    let sender = reserve_address h slashed_address
    let actual = min (erc20_balance h contract sender w) value
    w' ← after_transfer (
        bridge.transfer (record { contract = contract; sender = sender; origin = slashed_address })
          (destination status beneficiary_address) actual w)
    ok (value - actual, w')

  abbrev pub erc20_repatriate_other :
      EvmAddress
      → AccountId
      → AccountId
      → Balance
      → BalanceStatus
      → World
      → Dispatch Error (Balance × World)
  erc20_repatriate_other contract slashed beneficiary value status w = do
    slashed_address ← ok_or (get_evm_address slashed w) (pallet evm_account_not_found)
    let (beneficiary_address, w₁) = get_or_create_evm_address beneficiary w
    erc20_repatriate_at contract slashed_address beneficiary_address value status w₁

  abbrev pub erc20_repatriate_self :
      EvmAddress → AccountId → Balance → BalanceStatus → World → Balance × World
  erc20_repatriate_self contract slashed value free w = erc20_unreserve contract slashed value w
  erc20_repatriate_self contract slashed value reserved w =
      (value - reserved_at contract (get_evm_address slashed w) w, w)

  abbrev pub erc20_repatriate :
      EvmAddress
      → AccountId
      → AccountId
      → Balance
      → BalanceStatus
      → World
      → Dispatch Error (Balance × World)
  erc20_repatriate contract slashed beneficiary value status w =
      if value == 0
      then ok (value, w)
      else if slashed == beneficiary
      then ok (erc20_repatriate_self contract slashed value status w)
      else erc20_repatriate_other contract slashed beneficiary value status w

  unfoldable pub repatriate_reserved :
      CurrencyId
      → AccountId
      → AccountId
      → Balance
      → BalanceStatus
      → World
      → Dispatch Error (Balance × World)
  repatriate_reserved id slashed beneficiary value status w =
      on_currency h id (λ contract. erc20_repatriate contract slashed beneficiary value status w)
        (λ b. b.repatriate_reserved slashed beneficiary value status w)

  -- The operations at one id.
  unfoldable pub currency : CurrencyId → Basic World
  currency id = record {
    minimum_balance = minimum_balance h id;
    total_issuance = total_issuance h id;
    total_balance = total_balance h id;
    free_balance = free_balance h id;
    ensure_can_withdraw = ensure_can_withdraw h id;
    transfer = transfer h id;
    deposit = deposit h id;
    withdraw = withdraw h id;
    can_slash = can_slash h id;
    slash = slash h id;
    update_balance = update_balance h id;
    set_lock = λ lock_id. set_lock h lock_id id;
    extend_lock = λ lock_id. extend_lock h lock_id id;
    remove_lock = λ lock_id. remove_lock h lock_id id;
    can_reserve = can_reserve id;
    slash_reserved = slash_reserved id;
    reserved_balance = reserved_balance id;
    reserve = reserve id;
    unreserve = unreserve id;
    repatriate_reserved = repatriate_reserved id;
  }
