-- ===== src/Poc/Election.antt =====
-- The block hook `on_initialize` of modules/poc/src/lib.rs: at the end of an era the votes are counted,
-- the members replaced and rewarded.
use chain_upgrade.Base.{
  ℕ, ◌+◌, ◌/◌, ◌%◌, ◌^◌, List, [], ◌∷◌, map, Bool, settle, if◌then◌else◌, ltb, leb, ◌==◌, sat_add,
  length, take, u32_max, u128_max,
}
use chain_upgrade.Base.Map.{Map, contains_key, lookup, value_or_zero}
use chain_upgrade.Base.DoubleMap.{remove_prefix}
use chain_upgrade.Substrate.{AccountId, Balance, Currency}
use chain_upgrade.Poc.Types.{BlockNumber, EraIndex, Commitment, Event, elected, Config, State, Era}
use chain_upgrade.Poc.Power.{voting_weight, era_council_rewards}

-- `BTreeMap::insert`: the keys stay in ascending order.
unfoldable pub counter_insert : AccountId → Balance → Map Balance → Map Balance
counter_insert k v [] = (k, v) ∷ []
counter_insert k v ((j, w) ∷ m) =
    if ltb k j
    then (k, v) ∷ (j, w) ∷ m
    else (if k == j then (k, v) ∷ m else (j, w) ∷ counter_insert k v m)

-- The body of the loop over the commitments, for a candidate that is running.
unfoldable pub count_vote : Commitment → Map Balance → Map Balance
unfolding counter_insert
count_vote c counter =
    if contains_key c.candidate counter
    then counter_insert c.candidate
        (sat_add u128_max (voting_weight c) (value_or_zero (lookup c.candidate counter))) counter
    else counter_insert c.candidate (voting_weight c) counter

-- The loop, over the candidates, the commitments left and the counter.
unfoldable pub tally : Map Balance → Map Commitment → Map Balance → Map Balance
tally running [] counter = counter
tally running ((who, c) ∷ cs) counter =
    tally running cs (if contains_key c.candidate running then count_vote c counter else counter)

-- `commitment_count`, for the weight.
unfoldable pub count_commitments : Map Balance → Map Commitment → ℕ → ℕ
count_commitments running [] n = n
count_commitments running ((who, c) ∷ cs) n =
    count_commitments running cs (if contains_key c.candidate running then (n + 1) % 2 ^ 32 else n)

-- `sorted.sort_by(|&(_, a), &(_, b)| b.cmp(&a))`: stable, the greatest weight first.
unfoldable pub insert_by_weight : AccountId × Balance → Map Balance → Map Balance
insert_by_weight x [] = x ∷ []
insert_by_weight x (y ∷ ys) = if leb y.1 x.1 then x ∷ y ∷ ys else y ∷ insert_by_weight x ys

unfoldable pub sort_by_weight : Map Balance → Map Balance
unfolding insert_by_weight
sort_by_weight [] = []
sort_by_weight (x ∷ xs) = insert_by_weight x (sort_by_weight xs)

-- `winners.sort()`
unfoldable pub insert_ascending : AccountId → List AccountId → List AccountId
insert_ascending x [] = x ∷ []
insert_ascending x (y ∷ ys) = if leb x y then x ∷ y ∷ ys else y ∷ insert_ascending x ys

unfoldable pub sort_ascending : List AccountId → List AccountId
unfolding insert_ascending
sort_ascending [] = []
sort_ascending (x ∷ xs) = insert_ascending x (sort_ascending xs)

-- The candidates that are elected with their weights, the greatest weight first.
unfoldable pub elect : ℕ → Map Balance → Map Commitment → Map Balance
unfolding tally sort_by_weight
elect max_members running cs = take max_members (sort_by_weight (tally running cs []))

-- The names of the elected, sorted.
unfoldable pub winners_of : Map Balance → List AccountId
unfolding sort_ascending
winners_of top = sort_ascending (map (λ x. x.0) top)

-- The `Elected` events, pushed in the order of the weights; the latest event comes first.
unfoldable pub elected_events : EraIndex → Map Balance → List Event → List Event
elected_events index [] events = events
elected_events index (x ∷ xs) events = elected_events index xs (elected index x.0 x.1 ∷ events)

-- `era_duration` after the start of the era, in `u32` that wraps.
abbrev pub is_era_over : BlockNumber → BlockNumber → Era → Bool
is_era_over n era_duration era = leb ((era.start + era_duration) % 2 ^ 32) n

module _ (currency : Currency) (config : Config) where
  open currency use {Ledger, deposit_into_existing}
  open config use {era_duration, max_members, on_initialize_era, on_initialize_empty}

  -- A reward that cannot be paid is skipped.
  unfoldable pub pay_all : Balance → List AccountId → Ledger → Ledger
  pay_all reward [] l = l
  pay_all reward (w ∷ ws) l = pay_all reward ws (settle l (deposit_into_existing w reward l))

  -- `rewards.checked_div(winners.len()).unwrap_or(zero)`; there is a winner.
  abbrev pub reward_share : Ledger → List AccountId → Balance
  reward_share l winners = era_council_rewards config currency l / length winners

  -- The block under `if !winners.is_empty()`.
  unfoldable pub install : List AccountId → State Ledger → State Ledger
  unfolding pay_all
  install [] s = s
  install (w ∷ ws) s =
      let reward = reward_share s.ledger (w ∷ ws) in
      record s {
        membership_changes = (w ∷ ws, s.members) ∷ s.membership_changes;
        members = w ∷ ws;
        ledger = if ltb 0 reward then pay_all reward (w ∷ ws) s.ledger else s.ledger;
      }

  -- The era change: the next era, the old rewards cleared, the winners announced and installed.
  unfoldable pub change_era : BlockNumber → State Ledger → State Ledger
  unfolding elected_events
  change_era n s =
      let index = sat_add u32_max s.current_era.index 1 in
      let top = elect max_members s.candidates s.commitments in
      install (winners_of top) (record s {
        current_era = record { index = index; start = n };
        voter_rewards = remove_prefix s.current_era.index s.voter_rewards;
        events = elected_events index top s.events;
      })

  -- The new storage and the weight.
  unfoldable pub on_initialize : BlockNumber → State Ledger → State Ledger × ℕ
  unfolding count_commitments
  on_initialize n s =
      if is_era_over n era_duration s.current_era
      then (change_era n s, on_initialize_era (count_commitments s.candidates s.commitments 0))
      else (s, on_initialize_empty)
