-- ===== src/Poc/Unbonding.antt =====
-- The life of a commitment: it is withdrawn after its lock period, once, and in full.
use chain_upgrade.Base.{
  ◌+◌, ◌-◌, ◌%◌, ◌^◌, ◌≡◌, ◌≤◌, ◌<◌, some, none, ok, err, arith, ◌==◌, u128_max, ◌∷◌, Bool-cases,
  inl, inr,
}
use chain_upgrade.Base.Map.{
  lookup, remove, lookup-insert, lookup-remove_self, lookup-remove_ne, insert-Distinct,
}
use chain_upgrade.Substrate.{AccountId, Balance, Currency, CurrencyLaws, pallet}
use chain_upgrade.Poc.Types.{
  BlockNumber, LockDuration, committed, unbonding, already_committed, cannot_withdraw_locked,
  commitment_not_found, Commitment, Config, State, bond_withdrawn,
}
use chain_upgrade.Poc.Calls.{lock_period, commit, unbond, withdraw}
use chain_upgrade.Poc.Locked.{IsLocked, locked_sum-remove}

module _ (currency : Currency) (config : Config) where
  open currency use {Ledger, free_balance, total_issuance, deposit_into_existing}

  -- A commitment that is not unbonding, or not long enough, stays, with the error that says which.
  pub withdraw_early :
      (now start : BlockNumber) (who : AccountId) (c : Commitment) (s : State Ledger)
      → lookup who s.commitments ≡ some c
      → (c.state ≡ committed
          → withdraw currency config now (ok who) s ≡ err (pallet already_committed))
        × (c.state ≡ unbonding start
            → start + lock_period c.duration < 2 ^ 32
            → now < start + lock_period c.duration
            → withdraw currency config now (ok who) s ≡ err (pallet cannot_withdraw_locked))
  unfolding withdraw
  withdraw_early now start who c s found = (λ e. ground arith, λ e fits early. ground arith)

  -- A withdrawal that succeeds was of a commitment whose lock period is over. It removes that
  -- commitment and no other, lowers the locked total by its amount and pays that amount.
  pub withdraw_ok :
      (laws : CurrencyLaws currency) (now : BlockNumber) (who : AccountId) (c : Commitment)
      (s t : State Ledger)
      → IsLocked config.total_locked_cap s
      → lookup who s.commitments ≡ some c
      → withdraw currency config now (ok who) s ≡ ok t
      → ((start : BlockNumber) × (c.state ≡ unbonding start)
          × ((start + lock_period c.duration) % 2 ^ 32 ≤ now))
        × (t.commitments ≡ remove who s.commitments)
        × (lookup who t.commitments ≡ none)
        × (t.locked_amount + c.amount ≡ s.locked_amount)
        × (free_balance who t.ledger ≡ free_balance who s.ledger + c.amount)
  unfolding withdraw
  withdraw_ok laws now who c s t h found done =
      grind (arith, laws.deposit_free, lookup-remove_self, locked_sum-remove)

  -- After a withdrawal a second one finds no commitment, at any time.
  pub withdraw_twice :
      (now later : BlockNumber) (who : AccountId) (s t : State Ledger)
      → IsLocked config.total_locked_cap s
      → withdraw currency config now (ok who) s ≡ ok t
      → withdraw currency config later (ok who) t ≡ err (pallet commitment_not_found)
  unfolding withdraw
  withdraw_twice now later who s t h done = grind (arith, lookup-remove_self)

  -- Committing, unbonding and waiting for the lock period: unless the currency refuses the deposit, the
  -- withdrawal succeeds, and then every commitment, the locked total and the issuance are as before.
  pub commit-unbond_withdraw :
      (laws : CurrencyLaws currency) (amount : Balance) (d : LockDuration) (candidate : AccountId)
      (now later : BlockNumber) (who : AccountId) (s t u : State Ledger) (l : Ledger)
      → config.total_locked_cap ≤ u128_max
      → IsLocked config.total_locked_cap s
      → commit currency config amount d candidate (ok who) s ≡ ok t
      → unbond currency config now (ok who) t ≡ ok u
      → now + lock_period d < 2 ^ 32
      → now + lock_period d ≤ later
      → deposit_into_existing who amount u.ledger ≡ ok l
      → (v : State Ledger) × (withdraw currency config later (ok who) u ≡ ok v)
        × ((j : AccountId) → lookup j v.commitments ≡ lookup j s.commitments)
        × (v.locked_amount ≡ s.locked_amount)
        × (total_issuance v.ledger ≡ total_issuance s.ledger)
  unfolding commit unbond withdraw
  commit-unbond_withdraw laws amount d candidate now later who s t u l bound h p q fits wait paid =
      (
        record u {
          ledger = l;
          commitments = remove who u.commitments;
          locked_amount = u.locked_amount - amount;
          events = bond_withdrawn who amount ∷ u.events;
        },
        grind (arith, lookup-insert),
        λ j. elim (Bool-cases (j == who)) [
          | inl e ↦ grind (arith, lookup-insert, insert-Distinct, lookup-remove_self)
          | inr e ↦ grind (arith, lookup-insert, lookup-remove_ne)
        ],
        grind (arith, laws.withdraw_issuance),
        omega (arith, laws.deposit_issuance who amount u.ledger l paid, burned, kept),
      )
    where
      burned : total_issuance t.ledger + amount ≡ total_issuance s.ledger
      burned = grind (arith, laws.withdraw_issuance)

      kept : total_issuance u.ledger ≡ total_issuance t.ledger
      kept = ground arith
