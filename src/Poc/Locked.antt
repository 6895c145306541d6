-- ===== src/Poc/Locked.antt =====
-- The locked total is the sum of the commitments.
use chain_upgrade.Base.{◌+◌, ◌≡◌, ◌≤◌, [], ◌∷◌, some, none, arith, u128_max, settle}
use chain_upgrade.Base.Map.{Map, lookup, insert, remove, Distinct, insert-Distinct, remove-Distinct}
use chain_upgrade.Substrate.{AccountId, Balance, Currency}
use chain_upgrade.Poc.Types.{BlockNumber, Commitment, LockDuration, Config, State}
use chain_upgrade.Poc.Calls.{Origin, commit, add_funds, unbond, withdraw, vote_candidate}

abbrev pub locked_sum : Map Commitment → Balance
locked_sum [] = 0
locked_sum ((who, c) ∷ m) = c.amount + locked_sum m

pub locked_sum-insert :
    (who : AccountId) (c old : Commitment) (m : Map Commitment)
    → lookup who m ≡ some old
    → locked_sum (insert who c m) + old.amount ≡ locked_sum m + c.amount
unfolding lookup insert
locked_sum-insert who c old [] h = ground arith
locked_sum-insert who c old ((j, d) ∷ m) h = ground (arith, locked_sum-insert who c old m)

pub locked_sum-insert_new :
    (who : AccountId) (c : Commitment) (m : Map Commitment)
    → lookup who m ≡ none
    → locked_sum (insert who c m) ≡ locked_sum m + c.amount
unfolding lookup insert
locked_sum-insert_new who c [] h = ground arith
locked_sum-insert_new who c ((j, d) ∷ m) h = ground (arith, locked_sum-insert_new who c m)

pub locked_sum-remove :
    (who : AccountId) (old : Commitment) (m : Map Commitment)
    → lookup who m ≡ some old
    → locked_sum (remove who m) + old.amount ≡ locked_sum m
unfolding lookup remove
locked_sum-remove who old [] h = ground arith
locked_sum-remove who old ((j, d) ∷ m) h = ground (arith, locked_sum-remove who old m)

pub record IsLocked {Ledger : Type 0} (cap_amount : Balance) (s : State Ledger) : Type 0 where
  pub keys : Distinct s.commitments
  pub total : s.locked_amount ≡ locked_sum s.commitments
  pub range : s.locked_amount ≤ cap_amount

module _ (currency : Currency) (config : Config) (cap : config.total_locked_cap ≤ u128_max) where
  open currency use {Ledger}

  pub commit-IsLocked :
      (amount : Balance) (d : LockDuration) (candidate : AccountId)
      (origin : Origin currency config) (s : State Ledger)
      → IsLocked config.total_locked_cap s
      → IsLocked config.total_locked_cap
          (settle s (commit currency config amount d candidate origin s))
  unfolding commit
  commit-IsLocked amount d candidate origin s h =
      grind (arith, insert-Distinct, locked_sum-insert_new)

  pub add_funds-IsLocked :
      (amount : Balance) (origin : Origin currency config) (s : State Ledger)
      → IsLocked config.total_locked_cap s
      → IsLocked config.total_locked_cap (settle s (add_funds currency config amount origin s))
  unfolding add_funds
  add_funds-IsLocked amount origin s h = grind (arith, insert-Distinct, locked_sum-insert)

  pub unbond-IsLocked :
      (now : BlockNumber) (origin : Origin currency config) (s : State Ledger)
      → IsLocked config.total_locked_cap s
      → IsLocked config.total_locked_cap (settle s (unbond currency config now origin s))
  unfolding unbond
  unbond-IsLocked now origin s h = grind (arith, insert-Distinct, locked_sum-insert)

  pub withdraw-IsLocked :
      (now : BlockNumber) (origin : Origin currency config) (s : State Ledger)
      → IsLocked config.total_locked_cap s
      → IsLocked config.total_locked_cap (settle s (withdraw currency config now origin s))
  unfolding withdraw
  withdraw-IsLocked now origin s h = grind (arith, remove-Distinct, locked_sum-remove)

  pub vote_candidate-IsLocked :
      (candidate : AccountId) (origin : Origin currency config) (s : State Ledger)
      → IsLocked config.total_locked_cap s
      → IsLocked config.total_locked_cap
          (settle s (vote_candidate currency config candidate origin s))
  unfolding vote_candidate
  vote_candidate-IsLocked candidate origin s h = grind (arith, insert-Distinct, locked_sum-insert)
