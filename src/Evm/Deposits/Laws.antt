-- ===== src/Evm/Deposits/Laws.antt =====
-- Deposits move between the origin and the contracts without loss, and what the leak of the meters costs.
use chain_upgrade.Base.{
  ℕ, ◌+◌, ◌-◌, ◌*◌, ◌≡◌, ◌≢◌, ◌≤◌, ◌<◌, refl, true, ok, arith, sym, sat_add, Result-cases, inl, inr,
  u32_max, u128_max,
}
use chain_upgrade.Substrate.{AccountId, Balance, Currency, CurrencyLaws}
use chain_upgrade.Evm.Meter.{EvmAddress}
use chain_upgrade.Evm.Meter.Runs.{run_transaction}
use chain_upgrade.Evm.Meter.Leak.{reverted_use, run_transaction-leak}
use chain_upgrade.Evm.Deposits.{
  Setting, deposit_for, reserve_storage, unreserve_storage, move_deposit, charge_storage,
  deposit_handler,
}

module _ (currency : Currency) (laws : CurrencyLaws currency) (E : Type 0) (setting : Setting) where
  open currency use {
    Ledger, free_balance, reserved_balance, minimum_balance, reserve, unreserve, transfer,
  }
  open setting use {origin, get_account_id, storage_deposit_per_byte}

  move_deposit-lem :
      (acc : AccountId) (a : Balance) (l m : Ledger)
      → acc ≢ get_account_id origin
      → a ≤ reserved_balance (get_account_id origin) l
      → a + minimum_balance ≤ u128_max
      → move_deposit currency E setting acc a l ≡ (ok tt, m)
      → (reserved_balance (get_account_id origin) m + a
          ≡ reserved_balance (get_account_id origin) l)
        × (reserved_balance acc m ≡ reserved_balance acc l + a)
        × (free_balance (get_account_id origin) m + minimum_balance
            ≤ free_balance (get_account_id origin) l)
  unfolding move_deposit
  move_deposit-lem acc a l m other enough fits done =
      let user = get_account_id origin in
      let free = unreserve user a l in
      elim (Result-cases (transfer user acc (sat_add u128_max a minimum_balance) free)) [
        | inr (x, e) ↦ absurd (ground arith)
        | inl (t, e) ↦
            let same : user ≢ acc = λ p. other (sym p) in
            let paid : reserve acc a t ≡ ok m = ground arith in
            ground (
              arith,
              laws.unreserve_lem user a l enough,
              laws.unreserve_other user acc a l other,
              laws.transfer_lem user acc (sat_add u128_max a minimum_balance) free t same e,
              laws.transfer_reserved user acc user (sat_add u128_max a minimum_balance) free t e,
              laws.transfer_reserved user acc acc (sat_add u128_max a minimum_balance) free t e,
              laws.reserve_lem acc a t m paid,
              laws.reserve_other acc user a t m same paid,
            )
      ]

  -- A charge that succeeds, for a contract whose account is not the origin's: equal use and refund change
  -- nothing. More use than refund moves the deposit for the difference from the reserve of the origin
  -- into the reserve of the contract, and the minimum balance besides out of the origin's free balance.
  -- More refund than use moves the deposit back.
  pub charge_storage-deposit :
      (contract : EvmAddress) (used refunded : ℕ) (l m : Ledger)
      → let user = get_account_id origin in
        let acc = get_account_id contract in
        acc ≢ user
        → charge_storage currency E setting contract used refunded l ≡ (ok tt, m)
        → (used ≡ refunded → m ≡ l)
          × (refunded < used
              → let a = deposit_for setting (used - refunded) in
                a + minimum_balance ≤ u128_max
                → a ≤ reserved_balance user l
                → (reserved_balance user m + a ≡ reserved_balance user l)
                  × (reserved_balance acc m ≡ reserved_balance acc l + a)
                  × (free_balance user m + minimum_balance ≤ free_balance user l))
          × (used < refunded
              → let a = deposit_for setting (refunded - used) in
                a ≤ reserved_balance acc l
                → (reserved_balance acc m + a ≡ reserved_balance acc l)
                  × (reserved_balance user m ≡ reserved_balance user l + a))
  unfolding charge_storage
  charge_storage-deposit contract used refunded l m other done = (
    λ same. ground arith,
    λ more fits enough.
        move_deposit-lem (get_account_id contract) (deposit_for setting (used - refunded)) l m other
          enough fits (ground arith),
    λ less enough.
        laws.repatriate_lem (get_account_id contract) (get_account_id origin)
          (deposit_for setting (refunded - used)) l m other enough (ground arith),
  )

  -- What the release of a part of a reservation leaves.
  part_released :
      (limit n : ℕ) (l reserved : Ledger)
      → n ≤ limit
      → limit ≤ u32_max
      → storage_deposit_per_byte * limit ≤ u128_max
      → reserve (get_account_id origin) (deposit_for setting limit) l ≡ ok reserved
      → reserved_balance
          (get_account_id origin)
          (unreserve_storage currency E setting (limit - n) 0 0 reserved).1
        ≡ reserved_balance (get_account_id origin) l + deposit_for setting n
  unfolding unreserve_storage
  part_released limit n l reserved part small fits held =
      let user = get_account_id origin in
      let price = storage_deposit_per_byte in
      let parts : price * (limit - n) + price * n ≡ price * limit = grind arith in
      ground (
        arith,
        parts,
        laws.reserve_lem user (deposit_for setting limit) l reserved held,
        laws.unreserve_lem user (deposit_for setting (limit - n)) reserved,
      )

  -- The leak in money: the transaction of a caller whose callee reverts after a call below has used `n`
  -- bytes succeeds, charges no contract, and leaves the deposit for `n` bytes in the reserve of the origin.
  pub reverted_use-deposit :
      (contract a b : EvmAddress) (limit n : ℕ) (l reserved : Ledger)
      → n ≤ limit
      → 0 < limit
      → limit ≤ u32_max
      → storage_deposit_per_byte * limit ≤ u128_max
      → reserve (get_account_id origin) (deposit_for setting limit) l ≡ ok reserved
      → (charge_storage currency E setting b n 0 reserved).0 ≡ ok tt
      → let (r, m) =
          run_transaction
            (deposit_handler currency E setting)
            contract
            limit
            (reverted_use a b n)
            true
            l in
        (r ≡ ok tt)
        × (reserved_balance (get_account_id origin) m
            ≡ reserved_balance (get_account_id origin) l + deposit_for setting n)
  unfolding reserve_storage charge_storage unreserve_storage
  reverted_use-deposit contract a b limit n l reserved part some_limit small fits held used =
      let leak =
        run_transaction-leak (deposit_handler currency E setting) contract a b limit n l reserved
          part small starts used ends releases in
      rw leak (refl, rw nothing (part_released limit n l reserved part small fits held))
    where
      starts : reserve_storage currency E setting limit l ≡ (ok tt, reserved)
      starts = ground arith

      nothing : (charge_storage currency E setting contract 0 0 reserved).1 ≡ reserved
      nothing = ground arith

      ends : (charge_storage currency E setting contract 0 0 reserved).0 ≡ ok tt
      ends = ground arith

      releases :
          (unreserve_storage currency E setting
            (limit - n)
            0
            0
            (charge_storage currency E setting contract 0 0 reserved).1).0
          ≡ ok tt
      releases = ground arith
