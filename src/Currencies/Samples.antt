-- ===== src/Currencies/Samples.antt =====
-- A concrete currency and a concrete contract, which show that what is expected of them can hold.
use chain_upgrade.Base.{
  ◌+◌, ◌-◌, refl, false, ◌∷◌, some, ok, err, if◌then◌else◌, leb, ◌&&◌, drop, arith,
}
use chain_upgrade.Substrate.{AccountId, Balance, other, Dispatch}
use chain_upgrade.Substrate.Ledger.{Book, set_at}
use chain_upgrade.Evm.Meter.{EvmAddress}
use chain_upgrade.Currencies.Interfaces.{Error, Host}
use chain_upgrade.Currencies.Adapter.{PalletCurrency, PalletCurrencyLaws, basic_currency_adapter}
use chain_upgrade.Currencies.Moves.{Erc20Laws}

abbrev pub pay : AccountId → AccountId → Balance → Book → Dispatch Error Book
pay from to a b =
    if leb a (b.free from)
    then (let taken = set_at from (b.free from - a) b.free in
        ok (record b { free = set_at to (taken to + a) taken }))
    else err (other "InsufficientBalance")

abbrev pub burn : AccountId → Balance → Book → Dispatch Error Book
burn who a b =
    if leb a (b.free who) && leb a b.issued
    then ok (record b { free = set_at who (b.free who - a) b.free; issued = b.issued - a })
    else err (other "InsufficientBalance")

-- What a token that answers `true` gives, and what one gives that answers nothing.
abbrev answered : Book → Dispatch Error Book → Dispatch Error (Unit {0}) × Book
answered b (ok moved) = (ok tt, moved)
answered b (err e) = (err e, b)

abbrev unanswered : Book → Dispatch Error Book → Dispatch Error (Unit {0}) × Book
unanswered b (ok moved) = (err (other "InvalidReturnValue"), moved)
unanswered b (err e) = (err e, b)

-- It has no slashes, and no reserves.
abbrev pub pallet_currency : PalletCurrency Book
pallet_currency = record {
  minimum_balance = λ b. 0;
  total_issuance = λ b. b.issued;
  total_balance = λ who b. b.free who;
  free_balance = λ who b. b.free who;
  ensure_can_withdraw = λ who a rest b. ok tt;
  transfer = pay;
  deposit_creating =
      λ who a b. (a, record b { free = set_at who (b.free who + a) b.free; issued = b.issued + a });
  withdraw = burn;
  can_slash = λ who a b. false;
  slash = λ who a b. (a, b);
  set_lock = λ id who a b. b;
  extend_lock = λ id who a b. b;
  remove_lock = λ id who b. b;
  can_reserve = λ who a b. false;
  slash_reserved = λ who a b. (a, b);
  reserved_balance = λ who b. 0;
  reserve = λ who a b. err (other "NoReserves");
  unreserve = λ who a b. (a, b);
  repatriate_reserved = λ slashed beneficiary a status b. err (other "NoReserves");
}

pub pallet_currency_laws : PalletCurrencyLaws pallet_currency
pallet_currency_laws = record {
  deposit_creating_lem = λ who a b. ground arith;
  withdraw_lem = λ who a w w' done. ground arith;
}

-- The free balances of the book are those of every contract. Account n has the address n, and the hash
-- replaces the first seven bytes by a one.
abbrev pub host : Host Book
host = record {
  native = basic_currency_adapter pallet_currency;
  multi = λ id. basic_currency_adapter pallet_currency;
  multi_transfer_all = λ source dest b. ok b;
  bridge = record {
    total_supply = λ x b. ok b.issued;
    balance_of = λ x a b. ok (b.free a);
    transfer = λ x to v b. answered b (pay x.sender to v b);
    get_origin = λ b. some 1;
  };
  get_evm_address = λ who b. some who;
  get_or_create_evm_address = λ who b. (who, b);
  deposit_event = λ e b. b;
  blake2_256 = λ bytes. 1 ∷ drop 7 bytes;
}

-- The same with a token whose transfers answer nothing.
abbrev pub silent_host : Host Book
silent_host = record host {
  bridge = record host.bridge { transfer = λ x to v b. unanswered b (pay x.sender to v b) };
}

pub erc20_laws : (contract : EvmAddress) → Erc20Laws host contract
erc20_laws contract = record {
  transfer_lem = λ sender origin to v w w' apart done. ground arith;
  transfer_mapping = λ x to v w w' who done. refl;
  mapped = λ who a w p. ground arith;
}
