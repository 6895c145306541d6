-- ===== src/Substrate/Ledger.antt =====
-- A concrete currency: free and reserved balances by account, and the issuance. It shows that the laws
-- of the interface can hold, and runs the tests.
use chain_upgrade.Base.{
  ◌+◌, ◌-◌, Result, ok, err, String, if◌then◌else◌, leb, ltb, ◌==◌, ◌&&◌, arith,
}
use chain_upgrade.Substrate.{AccountId, Balance, Currency, CurrencyLaws}

pub record Book : Type 0 where
  pub free : AccountId → Balance
  pub held : AccountId → Balance
  pub issued : Balance

abbrev pub set_at : AccountId → Balance → (AccountId → Balance) → AccountId → Balance
set_at k v f j = if j == k then v else f j

abbrev pub book_reserve : AccountId → Balance → Book → Result String Book
book_reserve who a b =
    if leb a (b.free who)
    then ok (record b {
      free = set_at who (b.free who - a) b.free;
      held = set_at who (b.held who + a) b.held;
    })
    else err "InsufficientBalance"

-- What is missing in the reserve is not paid.
abbrev pub book_unreserve : AccountId → Balance → Book → Book
book_unreserve who a b =
    if leb a (b.held who)
    then record b {
      free = set_at who (b.free who + a) b.free;
      held = set_at who (b.held who - a) b.held;
    }
    else record b { free = set_at who (b.free who + b.held who) b.free; held = set_at who 0 b.held }

-- One unit has to stay.
abbrev pub book_withdraw : AccountId → Balance → Book → Result String Book
book_withdraw who a b =
    if ltb a (b.free who) && leb a b.issued
    then ok (record b { free = set_at who (b.free who - a) b.free; issued = b.issued - a })
    else err "InsufficientBalance"

abbrev pub book_deposit : AccountId → Balance → Book → Result String Book
book_deposit who a b =
    if ltb 0 (b.free who + b.held who)
    then ok (record b { free = set_at who (b.free who + a) b.free; issued = b.issued + a })
    else err "DeadAccount"

abbrev pub book_transfer : AccountId → AccountId → Balance → Book → Result String Book
book_transfer from to a b =
    if leb a (b.free from)
    then (let taken = set_at from (b.free from - a) b.free in
        ok (record b { free = set_at to (taken to + a) taken }))
    else err "InsufficientBalance"

abbrev pub book_repatriate : AccountId → AccountId → Balance → Book → Result String Book
book_repatriate from to a b =
    if leb a (b.held from)
    then (let taken = set_at from (b.held from - a) b.held in
        ok (record b { held = set_at to (taken to + a) taken }))
    else err "InsufficientBalance"

abbrev pub book : Currency
book = record {
  Ledger = Book;
  total_issuance = λ b. b.issued;
  free_balance = λ who b. b.free who;
  reserved_balance = λ who b. b.held who;
  minimum_balance = 1;
  reserve = book_reserve;
  unreserve = book_unreserve;
  withdraw = book_withdraw;
  deposit_into_existing = book_deposit;
  transfer = book_transfer;
  repatriate_reserved = book_repatriate;
}

pub book_laws : CurrencyLaws book
book_laws = record {
  withdraw_issuance = λ who a l m h. ground arith;
  deposit_issuance = λ who a l m h. ground arith;
  reserve_issuance = λ who a l m h. ground arith;
  unreserve_issuance = λ who a l. ground arith;
  reserve_lem = λ who a l m h. ground arith;
  unreserve_lem = λ who a l h. ground arith;
  deposit_free = λ who a l m h. ground arith;
  withdraw_free = λ who a l m h. ground arith;
  reserve_other = λ who j a l m n h. ground arith;
  unreserve_other = λ who j a l n. ground arith;
  transfer_lem = λ from to a l m n h. ground arith;
  transfer_reserved = λ from to j a l m h. ground arith;
  repatriate_lem = λ from to a l m n p h. ground arith;
}
