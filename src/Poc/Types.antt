-- ===== src/Poc/Types.antt =====
-- The data of modules/poc/src/lib.rs. The storage is a record with a field for each storage item; the
-- ledger of the currency, the events and the calls of `MembershipChanged` are fields beside them.
use chain_upgrade.Base.{ℕ, ◌*◌, ◌/◌, List, Bool, true, false}
use chain_upgrade.Base.Map.{Map}
use chain_upgrade.Base.DoubleMap.{DoubleMap}
use chain_upgrade.Substrate.{AccountId, Balance}

abbrev pub BlockNumber : Type 0
BlockNumber = ℕ

abbrev pub EraIndex : Type 0
EraIndex = ℕ

pub data LockState : Type 0 where
  committed : LockState
  unbonding : BlockNumber → LockState

-- `state == LockState::Committed`
abbrev pub is_committed : LockState → Bool
is_committed committed = true
is_committed (unbonding start) = false

pub data LockDuration : Type 0 where
  one_month one_year ten_years : LockDuration

pub record Commitment : Type 0 where
  pub state : LockState
  pub duration : LockDuration
  pub amount : Balance
  pub candidate : AccountId

pub record Era : Type 0 where
  pub index : EraIndex
  pub start : BlockNumber

pub data Error : Type 0 where
  already_candidate not_candidate cannot_leave max_candidates_reached : Error
  already_committed commitment_not_found not_committed cannot_withdraw_locked : Error
  insufficient_amount over_subscribed no_commitments_found : Error

pub data Event : Type 0 where
  candidate_added candidate_removed : AccountId → Event
  committed_funds funds_added unbonding_started bond_withdrawn : AccountId → Balance → Event
  voted : AccountId → AccountId → Balance → Event
  voter_rewarded elected : EraIndex → AccountId → Balance → Event

-- `trait Config`, with the arithmetic of `Perbill` from sp_arithmetic: `mul p x` is `p * x`, and
-- `from_rational n d` the proportion n/d.
pub record Config : Type 1 where
  pub Perbill : Type 0
  pub mul : Perbill → Balance → Balance
  pub from_rational : ℕ → ℕ → Perbill
  pub on_initialize_era : ℕ → ℕ
  pub on_initialize_empty : ℕ
  pub era_duration : BlockNumber
  pub nominator_apy : Perbill
  pub council_inflation : Perbill
  pub candidacy_deposit : Balance
  pub min_lock_amount : Balance
  pub total_locked_cap : Balance
  pub max_candidates : ℕ
  pub max_members : ℕ

pub record State (Ledger : Type 0) : Type 0 where
  pub current_era : Era
  pub voter_rewards : DoubleMap Balance
  pub commitments : Map Commitment
  pub members : List AccountId
  pub candidates : Map Balance
  pub candidates_count : ℕ
  pub locked_amount : Balance
  pub ledger : Ledger
  -- `set_members_sorted(new, old)`, the latest call first
  pub membership_changes : List (List AccountId × List AccountId)
  -- The latest event first.
  pub events : List Event

-- `primitives::time`: blocks of ten seconds.
abbrev pub minutes : BlockNumber
minutes = 60 / 10

abbrev pub hours : BlockNumber
hours = minutes * 60

abbrev pub days : BlockNumber
days = hours * 24
