-- ===== src/Substrate.antt =====
-- What the modules take from Substrate and from the pallets of other repositories: the errors of a
-- dispatch, and the currency as an interface of operations with the laws that are documented for it.
pub mod Ledger
use chain_upgrade.Base.{ℕ, String, ◌≡◌, ◌≢◌, ◌+◌, ◌≤◌, Result, ok}

abbrev pub AccountId : Type 0
AccountId = ℕ

abbrev pub Balance : Type 0
Balance = ℕ

-- `pallet` is a module's own error; `other` one that a library call, or a text, stands for.
pub data DispatchError (E : Type 0) : Type 0 where
  pallet : E → DispatchError E
  other : String → DispatchError E

abbrev pub Dispatch : Type 0 → Type 0 → Type 0
Dispatch E A = Result (DispatchError E) A

-- `Currency` and `ReservableCurrency` of frame_support, as far as the modules call them. A ledger is
-- the state of the pallet that implements them.
pub record Currency : Type 1 where
  pub Ledger : Type 0
  pub total_issuance : Ledger → Balance
  pub free_balance : AccountId → Ledger → Balance
  pub reserved_balance : AccountId → Ledger → Balance
  pub minimum_balance : Balance
  pub reserve : AccountId → Balance → Ledger → Result String Ledger
  pub unreserve : AccountId → Balance → Ledger → Ledger
  -- With `WithdrawReasons::RESERVE` and `KeepAlive`; the imbalance is dropped, so it is burned.
  pub withdraw : AccountId → Balance → Ledger → Result String Ledger
  -- The imbalance is dropped, so it is issued.
  pub deposit_into_existing : AccountId → Balance → Ledger → Result String Ledger
  -- With `AllowDeath`.
  pub transfer : AccountId → AccountId → Balance → Ledger → Result String Ledger
  -- Into the reserved balance of the second account.
  pub repatriate_reserved : AccountId → AccountId → Balance → Ledger → Result String Ledger

-- The documented effect of the operations on the issuance and on the account that they name.
module _ (c : Currency) where
  open c use {
    Ledger, total_issuance, free_balance, reserved_balance, reserve, unreserve, withdraw,
    deposit_into_existing, transfer, repatriate_reserved,
  }

  pub record CurrencyLaws : Type 0 where
    pub withdraw_issuance :
        (who : AccountId) (a : Balance) (l m : Ledger)
        → withdraw who a l ≡ ok m
        → total_issuance m + a ≡ total_issuance l
    pub deposit_issuance :
        (who : AccountId) (a : Balance) (l m : Ledger)
        → deposit_into_existing who a l ≡ ok m
        → total_issuance m ≡ total_issuance l + a
    pub reserve_issuance :
        (who : AccountId) (a : Balance) (l m : Ledger)
        → reserve who a l ≡ ok m
        → total_issuance m ≡ total_issuance l
    pub unreserve_issuance :
        (who : AccountId) (a : Balance) (l : Ledger)
        → total_issuance (unreserve who a l) ≡ total_issuance l
    pub reserve_lem :
        (who : AccountId) (a : Balance) (l m : Ledger)
        → reserve who a l ≡ ok m
        → (free_balance who m + a ≡ free_balance who l)
          × (reserved_balance who m ≡ reserved_balance who l + a)
    pub unreserve_lem :
        (who : AccountId) (a : Balance) (l : Ledger)
        → a ≤ reserved_balance who l
        → (free_balance who (unreserve who a l) ≡ free_balance who l + a)
          × (reserved_balance who (unreserve who a l) + a ≡ reserved_balance who l)
    pub deposit_free :
        (who : AccountId) (a : Balance) (l m : Ledger)
        → deposit_into_existing who a l ≡ ok m
        → free_balance who m ≡ free_balance who l + a
    pub withdraw_free :
        (who : AccountId) (a : Balance) (l m : Ledger)
        → withdraw who a l ≡ ok m
        → free_balance who m + a ≡ free_balance who l
    pub reserve_other :
        (who j : AccountId) (a : Balance) (l m : Ledger)
        → j ≢ who
        → reserve who a l ≡ ok m
        → (free_balance j m ≡ free_balance j l) × (reserved_balance j m ≡ reserved_balance j l)
    pub unreserve_other :
        (who j : AccountId) (a : Balance) (l : Ledger)
        → j ≢ who
        → (free_balance j (unreserve who a l) ≡ free_balance j l)
          × (reserved_balance j (unreserve who a l) ≡ reserved_balance j l)
    -- The sender may be reaped, so it may lose more than the amount.
    pub transfer_lem :
        (from to : AccountId) (a : Balance) (l m : Ledger)
        → from ≢ to
        → transfer from to a l ≡ ok m
        → (free_balance from m + a ≤ free_balance from l)
          × (free_balance to m ≡ free_balance to l + a)
    pub transfer_reserved :
        (from to j : AccountId) (a : Balance) (l m : Ledger)
        → transfer from to a l ≡ ok m
        → reserved_balance j m ≡ reserved_balance j l
    pub repatriate_lem :
        (from to : AccountId) (a : Balance) (l m : Ledger)
        → from ≢ to
        → a ≤ reserved_balance from l
        → repatriate_reserved from to a l ≡ ok m
        → (reserved_balance from m + a ≡ reserved_balance from l)
          × (reserved_balance to m ≡ reserved_balance to l + a)
