-- ===== src/Poc/VoterReward.antt =====
-- Voting: where the vote goes, and that an era pays its reward once.
use chain_upgrade.Base.{◌+◌, ◌≡◌, ◌≢◌, ◌<◌, refl, ◌⊎◌, some, none, ok, arith, if◌then◌else◌, ◌==◌}
use chain_upgrade.Base.Map.{lookup, lookup-insert}
use chain_upgrade.Base.DoubleMap.{lookup2, lookup2-insert2}
use chain_upgrade.Substrate.{AccountId, Currency, CurrencyLaws}
use chain_upgrade.Poc.Types.{Commitment, committed, Config, State, one_month}
use chain_upgrade.Poc.Power.{era_voter_reward}
use chain_upgrade.Poc.Calls.{vote_candidate}

module _ (currency : Currency) (config : Config) where
  open currency use {Ledger, total_issuance}

  -- The reward does not depend on the candidate.
  era_voter_reward_candidate :
      (c : Commitment) (candidate : AccountId)
      → era_voter_reward config (record c { candidate = candidate }) ≡ era_voter_reward config c
  unfolding era_voter_reward
  era_voter_reward_candidate c candidate = refl

  -- A vote that succeeds is of an active commitment and moves it to the candidate; the other
  -- commitments stay as they are, and so does the locked total.
  pub vote_candidate_moves :
      (candidate who j : AccountId) (c : Commitment) (s t : State Ledger)
      → lookup who s.commitments ≡ some c
      → vote_candidate currency config candidate (ok who) s ≡ ok t
      → (c.state ≡ committed)
        × (lookup j t.commitments ≡ (
            if j == who then some (record c { candidate = candidate }) else lookup j s.commitments))
        × (t.locked_amount ≡ s.locked_amount)
  unfolding vote_candidate
  vote_candidate_moves candidate who j c s t found done = grind (arith, lookup-insert)

  -- A vote that succeeds issues the reward of the commitment if the account has no entry for the era
  -- yet, and then makes that entry; with an entry it issues nothing. Either way an account whose reward
  -- is positive has an entry afterwards.
  pub vote_candidate_reward :
      (laws : CurrencyLaws currency) (candidate who : AccountId) (c : Commitment)
      (s t : State Ledger)
      → lookup who s.commitments ≡ some c
      → vote_candidate currency config candidate (ok who) s ≡ ok t
      → let reward = era_voter_reward config c in
        let entry = lookup2 s.current_era.index who s.voter_rewards in
        (total_issuance t.ledger ≡ (elim entry [
          | none ↦ total_issuance s.ledger + reward
          | some paid ↦ total_issuance s.ledger
        ]))
        × (0 < reward → lookup2 s.current_era.index who t.voter_rewards ≢ none)
  unfolding vote_candidate
  vote_candidate_reward laws candidate who c s t found done =
      grind (arith, laws.deposit_issuance, lookup2-insert2, era_voter_reward_candidate)

  -- Two votes of one account in an era pay at most one reward: the second leaves the ledger alone.
  pub vote_candidate_twice :
      (first second who : AccountId) (s t u : State Ledger)
      → vote_candidate currency config first (ok who) s ≡ ok t
      → vote_candidate currency config second (ok who) t ≡ ok u
      → u.ledger ≡ t.ledger
  unfolding vote_candidate era_voter_reward
  vote_candidate_twice first second who s t u p q = grind (arith, lookup-insert, lookup2-insert2)

  -- Commitments of a month earn no reward, and neither do those that are unbonding.
  pub one_month_reward :
      (c : Commitment)
      → (c.duration ≡ one_month) ⊎ (c.state ≢ committed)
      → era_voter_reward config c ≡ 0
  unfolding era_voter_reward
  one_month_reward c h = ground arith
