-- ===== src/Poc/Tests.antt =====
-- Runs of the proof of commitment, and its theorems at concrete inputs.
use mathlib.Core.List.Perm
use chain_upgrade.Base.{
  ℕ, ◌+◌, ◌*◌, ◌/◌, ◌^◌, ◌≡◌, ◌≢◌, ◌≤◌, ◌<◌, ◌&&◌, ◌%◌, refl, true, false, List, [], ◌∷◌, some,
  none, ok, err, settle, arith, if◌then◌else◌, ◌==◌, sat_add, u128_max, elem, length, Ascending,
}
use chain_upgrade.Base.Map.{Map, lookup, insert, remove, contains_key}
use chain_upgrade.Base.DoubleMap.{lookup2, insert2}
use chain_upgrade.Substrate.{AccountId, Balance, pallet}
use chain_upgrade.Substrate.Ledger.{Book, book, book_laws}
use chain_upgrade.Poc.Types.{
  Config, State, Commitment, committed, unbonding, one_month, one_year, ten_years, cannot_leave,
}
use chain_upgrade.Poc.Power.{era_voter_reward, era_council_rewards, voting_weight}
use chain_upgrade.Poc.Calls.{
  start_candidacy, stop_candidacy, commit, unbond, withdraw, vote_candidate, binary_search,
  lock_period,
}
use chain_upgrade.Poc.Election.{
  tally, count_vote, elect, winners_of, install, change_era, on_initialize,
}
use chain_upgrade.Poc.Tally.{votes, is_named, lookup-tally}
use chain_upgrade.Poc.Winners.{election}
use chain_upgrade.Poc.Order.{elect-perm}
use chain_upgrade.Poc.Locked.{IsLocked}
use chain_upgrade.Poc.Weights.{exact_votes, votes_no_overflow}
use chain_upgrade.Poc.Runs.{
  Step, block, call, start_candidacy_call, commit_call, withdraw_call, genesis, dispatch, step, run,
  IsSound, genesis-run-IsSound,
}
use chain_upgrade.Poc.Supply.{backing, dispatch-backing}
use chain_upgrade.Poc.Unbonding.{withdraw_ok, commit-unbond_withdraw}
use chain_upgrade.Poc.VoterReward.{vote_candidate_reward}
use chain_upgrade.Poc.Council.{IsSeated, on_initialize-members}
use chain_upgrade.Poc.Eras.{on_initialize_eras, on_initialize-issuance}

-- Eras of ten blocks, two seats, rewards by parts of a billion.
abbrev config : Config
config = record {
  Perbill = ℕ;
  mul = λ p x. p * x / 1_000_000_000;
  from_rational = λ n d. n * 1_000_000_000 / d;
  on_initialize_era = λ n. 100 + n;
  on_initialize_empty = 1;
  era_duration = 1_000_000;
  nominator_apy = 100_000_000;
  council_inflation = 10_000_000;
  candidacy_deposit = 50;
  min_lock_amount = 100;
  total_locked_cap = 1_000_000_000;
  max_candidates = 3;
  max_members = 2;
}

abbrev ledger : Book
ledger = record { free = λ who. 10_000_000; held = λ who. 0; issued = 100_000_000 }

-- Three candidates; the voters 1, 2 and 3 vote for 7, 8 and 9, then the era ends.
abbrev history : List (ℕ × Step book config)
history =
    (1, call start_candidacy_call (ok 7))
    ∷ (1, call start_candidacy_call (ok 8))
    ∷ (1, call start_candidacy_call (ok 9))
    ∷ (1, call start_candidacy_call (ok 10))
    ∷ (2, call (commit_call 1000 ten_years 7) (ok 1))
    ∷ (2, call (commit_call 1000 one_month 8) (ok 2))
    ∷ (3, call (commit_call 2000 one_year 9) (ok 3))
    ∷ (1_000_000, block)
    ∷ []

abbrev after_era : State Book
after_era = run book config (genesis ledger) history

-- The fourth candidacy finds no room, and the two candidates with the most votes win.
after_era_members : after_era.members ≡ 7 ∷ 9 ∷ []
unfolding run step genesis start_candidacy commit on_initialize lookup insert voting_weight
    change_era install winners_of elect count_vote
after_era_members = refl

abbrev active : ℕ → Commitment
active candidate = record {
  state = committed;
  duration = ten_years;
  amount = 1000;
  candidate = candidate;
}

abbrev leaving : Commitment
leaving = record { state = unbonding 10; duration = one_month; amount = 1000; candidate = 8 }

-- Account 1 is committed, account 2 unbonding; 7 and 8 run, and 7 sits.
abbrev sitting : State Book
sitting = record {
  current_era = record { index = 4; start = 100 };
  voter_rewards = [];
  commitments = (1, active 7) ∷ (2, leaving) ∷ [];
  members = 7 ∷ [];
  candidates = (7, 50) ∷ (8, 50) ∷ [];
  candidates_count = 2;
  locked_amount = 2000;
  ledger = ledger;
  membership_changes = [];
  events = [];
}

sitting-IsLocked : IsLocked config.total_locked_cap sitting
unfolding lookup
sitting-IsLocked = record { keys = (refl, (refl, tt)); total = refl; range = omega arith }

a_member_stays : stop_candidacy book config (ok 7) sitting ≡ err (pallet cannot_leave)
unfolding stop_candidacy lookup binary_search
a_member_stays = refl

genesis-run-IsSound_example : IsSound book config (run book config (genesis ledger) history)
genesis-run-IsSound_example =
    genesis-run-IsSound book config (omega arith) (omega arith) ledger history

abbrev running : Map Balance
running = (7, 50) ∷ (8, 50) ∷ (9, 50) ∷ []

abbrev voters : Map Commitment
voters = (1, active 7) ∷ (2, active 8) ∷ (3, active 8) ∷ []

election_example :
    let winners = winners_of (elect 1 running voters) in
    (length winners ≤ 1)
    × Ascending winners
    × (elem 8 winners ≡ true → (contains_key 8 running ≡ true) × (is_named 8 voters ≡ true))
    × (contains_key 7 running ≡ true
        → is_named 7 voters ≡ true
        → elem 7 winners ≡ false
        → (length winners ≡ 1)
          × (elem 8 winners ≡ true
              → sat_add u128_max 0 (votes 7 voters) ≤ sat_add u128_max 0 (votes 8 voters)))
election_example = election 1 running voters 8 7

elect-perm_example :
    elect 2 running ((1, active 7) ∷ (2, active 8) ∷ [])
    ≡ elect 2 running ((2, active 8) ∷ (1, active 7) ∷ [])
elect-perm_example =
    elect-perm 2 running ((1, active 7) ∷ (2, active 8) ∷ []) ((2, active 8) ∷ (1, active 7) ∷ [])
      (Perm.swap (2, active 8) (1, active 7) [])

lookup-tally_example : lookup 8 (tally running voters []) ≡ (
    if contains_key 8 running && is_named 8 voters
    then some (sat_add u128_max 0 (votes 8 voters))
    else none)
lookup-tally_example = lookup-tally 8 running voters

votes_no_overflow_example : lookup 7 (tally sitting.candidates sitting.commitments []) ≡ (
    if contains_key 7 sitting.candidates && is_named 7 sitting.commitments
    then some (exact_votes 7 sitting.commitments)
    else none)
votes_no_overflow_example =
    votes_no_overflow config.total_locked_cap 7 sitting sitting-IsLocked (omega arith)

dispatch-backing_example :
    backing book (settle sitting (dispatch book config withdraw_call 900_000 (ok 2) sitting))
    ≡ backing book sitting
dispatch-backing_example =
    dispatch-backing book book_laws config (omega arith) withdraw_call 900_000 (ok 2) sitting
      (λ c e. cc) sitting-IsLocked

abbrev withdrawn : State Book
withdrawn = settle sitting (withdraw book config 259_210 (ok 2) sitting)

withdrawn-ok : withdraw book config 259_210 (ok 2) sitting ≡ ok withdrawn
unfolding withdraw lookup lock_period
withdrawn-ok = refl

withdraw_ok_example :
    ((start : ℕ) × (leaving.state ≡ unbonding start)
      × ((start + lock_period one_month) % 2 ^ 32 ≤ 259_210))
    × (withdrawn.commitments ≡ remove 2 sitting.commitments)
    × (lookup 2 withdrawn.commitments ≡ none)
    × (withdrawn.locked_amount + 1000 ≡ 2000)
    × (withdrawn.ledger.free 2 ≡ 10_000_000 + 1000)
unfolding lookup
withdraw_ok_example =
    withdraw_ok book config book_laws 259_210 2 leaving sitting withdrawn sitting-IsLocked refl
      withdrawn-ok

abbrev recommitted : State Book
recommitted = settle sitting (commit book config 500 one_month 8 (ok 3) sitting)

recommitted-ok : commit book config 500 one_month 8 (ok 3) sitting ≡ ok recommitted
unfolding commit lookup
recommitted-ok = refl

abbrev unbonded : State Book
unbonded = settle recommitted (unbond book config 1000 (ok 3) recommitted)

unbonded-ok : unbond book config 1000 (ok 3) recommitted ≡ ok unbonded
unfolding commit unbond lookup insert
unbonded-ok = refl

paid_back : Book
paid_back = settle ledger (book.deposit_into_existing 3 500 unbonded.ledger)

paid_back-ok : book.deposit_into_existing 3 500 unbonded.ledger ≡ ok paid_back
unfolding paid_back commit unbond lookup insert
paid_back-ok = refl

commit-unbond_withdraw_example :
    (v : State Book) × (withdraw book config 300_000 (ok 3) unbonded ≡ ok v)
    × ((j : AccountId) → lookup j v.commitments ≡ lookup j sitting.commitments)
    × (v.locked_amount ≡ 2000)
    × (v.ledger.issued ≡ 100_000_000)
unfolding lock_period
commit-unbond_withdraw_example =
    commit-unbond_withdraw book config book_laws 500 one_month 8 1000 300_000 3 sitting recommitted
      unbonded paid_back (omega arith) sitting-IsLocked recommitted-ok unbonded-ok (omega arith)
      (omega arith) paid_back-ok

abbrev voted_once : State Book
voted_once = settle sitting (vote_candidate book config 8 (ok 1) sitting)

voted_once-ok : vote_candidate book config 8 (ok 1) sitting ≡ ok voted_once
unfolding vote_candidate lookup lookup2 era_voter_reward
voted_once-ok = refl

abbrev voted_twice : State Book
voted_twice = settle voted_once (vote_candidate book config 7 (ok 1) voted_once)

voted_twice-ok : vote_candidate book config 7 (ok 1) voted_once ≡ ok voted_twice
unfolding vote_candidate lookup insert lookup2 insert2 era_voter_reward
voted_twice-ok = refl

vote_candidate_reward_example :
    (voted_once.ledger.issued ≡ 100_000_000 + era_voter_reward config (active 7))
    × (0 < era_voter_reward config (active 7) → lookup2 4 1 voted_once.voter_rewards ≢ none)
unfolding lookup lookup2
vote_candidate_reward_example =
    vote_candidate_reward book config book_laws 8 1 (active 7) sitting voted_once refl voted_once-ok

on_initialize_eras_example :
    (500_000 < 100 + 1_000_000 → on_initialize book config 500_000 sitting ≡ (sitting, 1))
    × (100 + 1_000_000 ≤ 500_000
        → ((on_initialize book config 500_000 sitting).0.current_era
            ≡ record { index = 5; start = 500_000 })
          × (lookup2 4 1 (on_initialize book config 500_000 sitting).0.voter_rewards
              ≡ (if 4 == 4 then none else lookup2 4 1 sitting.voter_rewards)))
on_initialize_eras_example =
    on_initialize_eras book config 500_000 sitting 4 1 (omega arith) (omega arith)

-- Two candidates for one seat.
abbrev one_seat : Config
one_seat = record config { max_members = 1 }

abbrev seated : State Book
seated = (on_initialize book one_seat 2_000_000 sitting).0

on_initialize-members_example :
    (contains_key 8 sitting.candidates ≡ true
      → is_named 8 sitting.commitments ≡ true
      → IsSeated 1 7 8 sitting seated.members
        × (seated.membership_changes ≡ (seated.members, 7 ∷ []) ∷ []))
    × (((k : ℕ) → (contains_key k sitting.candidates && is_named k sitting.commitments) ≡ false)
        → (seated.members ≡ 7 ∷ []) × (seated.membership_changes ≡ []))
on_initialize-members_example =
    on_initialize-members book one_seat 2_000_000 sitting 7 8 (omega arith) (omega arith)
      (λ e. omega (arith, e))

on_initialize-issuance_example :
    (on_initialize book config 2_000_000 sitting).0.ledger.issued
    ≤ 100_000_000 + era_council_rewards config book ledger
on_initialize-issuance_example = on_initialize-issuance book config book_laws 2_000_000 sitting
