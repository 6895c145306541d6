-- ===== src/Poc/Calls.antt =====
-- The dispatchable functions of modules/poc/src/lib.rs. `origin` is what `ensure_signed` makes of the
-- origin, and `now` the block number. A call returns the new storage or its error, which leaves the
-- storage as it was.
use chain_upgrade.Base.{
  ℕ, zero, suc, ◌+◌, ◌-◌, ◌*◌, ◌/◌, ◌%◌, ◌^◌, List, [], ◌∷◌, Bool, true, false, not, ◌&&◌, ok,
  ◌>>=◌, ◌>>◌, ensure, ok_or, map_err, if◌then◌else◌, ltb, leb, ◌==◌, sat_add, checked_add, length,
  take, drop, u32_max, u128_max,
}
use chain_upgrade.Base.Map.{contains_key, lookup, insert, remove, value_or_zero, is_some}
use chain_upgrade.Base.DoubleMap.{lookup2, insert2}
use chain_upgrade.Substrate.{AccountId, Balance, Currency, pallet, other, Dispatch}
use chain_upgrade.Poc.Types.{
  BlockNumber, LockState, committed, unbonding, is_committed, LockDuration, one_month, one_year,
  ten_years, Commitment, Error, already_candidate, not_candidate, cannot_leave,
  max_candidates_reached, already_committed, commitment_not_found, not_committed,
  cannot_withdraw_locked, insufficient_amount, over_subscribed, no_commitments_found,
  candidate_added, candidate_removed, committed_funds, funds_added, unbonding_started,
  bond_withdrawn, voted, voter_rewarded, Config, State, days,
}
use chain_upgrade.Poc.Power.{voting_weight, era_voter_reward}

-- `binary_search(x).is_ok()`: the halves of the slice by the middle element, `fuel` rounds at most.
unfoldable pub bisect : ℕ → List AccountId → AccountId → Bool
bisect zero xs x = false
bisect (suc fuel) xs x = elim (drop (length xs / 2) xs) [
  | [] ↦ false
  | y ∷ above ↦ elim (ltb y x) [
    | true ↦ bisect fuel above x
    | false ↦ elim (ltb x y) [ true ↦ bisect fuel (take (length xs / 2) xs) x | false ↦ true ]
  ]
]

unfoldable pub binary_search : List AccountId → AccountId → Bool
unfolding bisect
binary_search xs x = bisect (suc (length xs)) xs x

-- The lock periods of `withdraw`, in days.
abbrev pub lock_days : LockDuration → ℕ
lock_days one_month = 30
lock_days one_year = 365
lock_days ten_years = 3650

-- `lock_days * DAYS`, as a `u32`
unfoldable pub lock_period : LockDuration → BlockNumber
lock_period d = lock_days d * days % 2 ^ 32

module _ (currency : Currency) (config : Config) where
  open currency use {Ledger, reserve, unreserve, withdraw as withdraw_funds, deposit_into_existing}
  open config use {candidacy_deposit, min_lock_amount, total_locked_cap, max_candidates}

  abbrev pub Origin : Type 0
  Origin = Dispatch Error AccountId

  abbrev pub Call : Type 0
  Call = Origin → State Ledger → Dispatch Error (State Ledger)

  unfoldable pub start_candidacy : Call
  start_candidacy origin s = do
    who ← origin
    ensure (not (contains_key who s.candidates)) (pallet already_candidate)
    ensure (ltb s.candidates_count max_candidates) (pallet max_candidates_reached)
    l ← map_err other (reserve who candidacy_deposit s.ledger)
    ok (record s {
      ledger = l;
      candidates = insert who candidacy_deposit s.candidates;
      candidates_count = sat_add u32_max s.candidates_count 1;
      events = candidate_added who ∷ s.events;
    })

  unfoldable pub stop_candidacy : Call
  stop_candidacy origin s = do
    who ← origin
    ensure (contains_key who s.candidates) (pallet not_candidate)
    ensure (not (binary_search s.members who)) (pallet cannot_leave)
    let deposit = value_or_zero (lookup who s.candidates)
    ok (record s {
      ledger = unreserve who deposit s.ledger;
      candidates = remove who s.candidates;
      candidates_count = s.candidates_count - 1;
      events = candidate_removed who ∷ s.events;
    })

  -- The checks of `commit` and `add_funds` on the total: what will be locked, or `OverSubscribed`.
  abbrev pub subscribe : Balance → State Ledger → Dispatch Error Balance
  subscribe amount s = do
    let locked_total = sat_add u128_max s.locked_amount amount
    ensure (ltb locked_total total_locked_cap) (pallet over_subscribed)
    ok locked_total

  -- `contains_key` and `get(..).ok_or(..)`
  abbrev pub commitment_of : AccountId → State Ledger → Dispatch Error Commitment
  commitment_of who s = do
    ensure (contains_key who s.commitments) (pallet commitment_not_found)
    ok_or (lookup who s.commitments) (pallet no_commitments_found)

  unfoldable pub commit : Balance → LockDuration → AccountId → Call
  commit amount duration candidate origin s = do
    who ← origin
    ensure (not (contains_key who s.commitments)) (pallet already_committed)
    ensure (leb min_lock_amount amount) (pallet insufficient_amount)
    locked_total ← subscribe amount s
    l ← map_err other (withdraw_funds who amount s.ledger)
    let c : Commitment = record {
      state = committed;
      duration = duration;
      amount = amount;
      candidate = candidate;
    }
    ok (record s {
      ledger = l;
      locked_amount = locked_total;
      commitments = insert who c s.commitments;
      events = committed_funds who amount ∷ s.events;
    })

  -- `amount >= 0` holds of every unsigned amount.
  unfoldable pub add_funds : Balance → Call
  add_funds amount origin s = do
    who ← origin
    c ← commitment_of who s
    ensure (leb 0 amount) (pallet insufficient_amount)
    locked_total ← subscribe amount s
    l ← map_err other (withdraw_funds who amount s.ledger)
    total ← ok_or (checked_add u128_max c.amount amount) (other "currency overflow")
    ok (record s {
      ledger = l;
      locked_amount = locked_total;
      commitments = insert who (record c { amount = total; state = committed }) s.commitments;
      events = funds_added who amount ∷ s.events;
    })

  unfoldable pub unbond : BlockNumber → Call
  unbond now origin s = do
    who ← origin
    c ← commitment_of who s
    ensure (is_committed c.state) (pallet not_committed)
    ok (record s {
      commitments = insert who (record c { state = unbonding now }) s.commitments;
      events = unbonding_started who c.amount ∷ s.events;
    })

  -- `start_block + lock_period <= current_block`, in `u32` that wraps.
  abbrev pub is_unlocked : BlockNumber → Commitment → LockState → Bool
  is_unlocked now c committed = false
  is_unlocked now c (unbonding start) = leb ((start + lock_period c.duration) % 2 ^ 32) now

  unfoldable pub withdraw : BlockNumber → Call
  withdraw now origin s = do
    who ← origin
    c ← commitment_of who s
    ensure (not (is_committed c.state)) (pallet already_committed)
    ensure (is_unlocked now c c.state) (pallet cannot_withdraw_locked)
    l ← map_err other (deposit_into_existing who c.amount s.ledger)
    ok (record s {
      ledger = l;
      commitments = remove who s.commitments;
      locked_amount = s.locked_amount - c.amount;
      events = bond_withdrawn who c.amount ∷ s.events;
    })

  -- The first half of `vote_candidate`: a changed vote is stored.
  abbrev pub move_vote : AccountId → AccountId → Commitment → State Ledger → State Ledger
  move_vote who candidate c s =
      if c.candidate == candidate
      then s
      else (let moved : Commitment = record c { candidate = candidate } in
          record s {
            commitments = insert who moved s.commitments;
            events = voted who candidate (voting_weight moved) ∷ s.events;
          })

  abbrev pub pay_voter : AccountId → Balance → State Ledger → Dispatch Error (State Ledger)
  pay_voter who reward s = do
    l ← map_err other (deposit_into_existing who reward s.ledger)
    ok (record s {
      ledger = l;
      voter_rewards = insert2 s.current_era.index who reward s.voter_rewards;
      events = voter_rewarded s.current_era.index who reward ∷ s.events;
    })

  -- The second half: the reward, once in an era.
  abbrev pub reward_voter : AccountId → Balance → State Ledger → Dispatch Error (State Ledger)
  reward_voter who reward s =
      if ltb 0 reward && not (is_some (lookup2 s.current_era.index who s.voter_rewards))
      then pay_voter who reward s
      else ok s

  unfoldable pub vote_candidate : AccountId → Call
  vote_candidate candidate origin s = do
    who ← origin
    c ← commitment_of who s
    ensure (is_committed c.state) (pallet not_committed)
    reward_voter who (era_voter_reward config (record c { candidate = candidate }))
        (move_vote who candidate c s)
