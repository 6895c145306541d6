-- ===== src/Poc/Weights.antt =====
-- With the caps of the configuration no vote is lost: neither the product of an amount and its
-- multiplier wraps, nor does the sum of the votes saturate.
use chain_upgrade.Base.{
  ℕ, ◌+◌, ◌*◌, ◌≡◌, ◌≤◌, refl, [], ◌∷◌, arith, if◌then◌else◌, ◌==◌, u128_max, ◌&&◌, some, none,
}
use chain_upgrade.Base.Map.{Map, lookup, contains_key}
use chain_upgrade.Substrate.{AccountId, Balance}
use chain_upgrade.Poc.Types.{
  Commitment, LockDuration, one_month, one_year, ten_years, is_committed, State,
}
use chain_upgrade.Poc.Power.{voting_weight, multiplier}
use chain_upgrade.Poc.Tally.{votes, is_named, lookup-tally}
use chain_upgrade.Poc.Election.{tally}
use chain_upgrade.Poc.Locked.{locked_sum, IsLocked}

-- The votes without machine arithmetic: a month counts once, a year ten times, ten years a hundred
-- times, and only while the commitment is active.
abbrev pub exact_votes : AccountId → Map Commitment → ℕ
exact_votes k [] = 0
exact_votes k ((who, c) ∷ cs) =
    (if k == c.candidate
      then (if is_committed c.state then c.amount * multiplier c.duration else 0)
      else 0)
    + exact_votes k cs

multiplier-le : (d : LockDuration) (a : ℕ) → a * multiplier d ≤ a * 100
multiplier-le one_month a = omega arith
multiplier-le one_year a = omega arith
multiplier-le ten_years a = omega arith

votes-exact :
    (k : AccountId) (cs : Map Commitment)
    → locked_sum cs * 100 ≤ u128_max
    → (votes k cs ≡ exact_votes k cs) × (exact_votes k cs ≤ locked_sum cs * 100)
unfolding voting_weight
votes-exact k [] h = (refl, omega arith)
votes-exact k ((who, c) ∷ cs) h =
    ground (arith, votes-exact k cs (omega arith), multiplier-le c.duration c.amount)

-- If a hundred times the cap fits a balance, then in every storage whose locked total is the sum of its
-- commitments and within the cap, the tally gives every candidate who runs and whom a commitment names the
-- exact votes, and nobody else an entry.
pub votes_no_overflow :
    {Ledger : Type 0} (cap_amount : Balance) (k : AccountId) (s : State Ledger)
    → IsLocked cap_amount s
    → cap_amount * 100 ≤ u128_max
    → lookup k (tally s.candidates s.commitments []) ≡ (
        if contains_key k s.candidates && is_named k s.commitments
        then some (exact_votes k s.commitments)
        else none)
votes_no_overflow cap_amount k s h fits =
    ground
      (arith, lookup-tally k s.candidates s.commitments, votes-exact k s.commitments (omega arith))
