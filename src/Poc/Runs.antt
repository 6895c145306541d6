-- ===== src/Poc/Runs.antt =====
-- Histories of the proof of commitment: calls and block hooks, each at a block number. What holds of the
-- storage after every history that starts at the empty storage.
use chain_upgrade.Base.{◌≤◌, List, [], ◌∷◌, settle, arith, u32_max, u128_max}
use chain_upgrade.Substrate.{AccountId, Balance, Currency, Dispatch}
use chain_upgrade.Poc.Types.{BlockNumber, LockDuration, Error, Config, State}
use chain_upgrade.Poc.Calls.{
  Origin, start_candidacy, stop_candidacy, commit, add_funds, unbond, withdraw, vote_candidate,
}
use chain_upgrade.Poc.Election.{on_initialize, install, change_era}
use chain_upgrade.Poc.Locked.{
  IsLocked, commit-IsLocked, add_funds-IsLocked, unbond-IsLocked, withdraw-IsLocked,
  vote_candidate-IsLocked,
}
use chain_upgrade.Poc.Seats.{
  IsSeated, start_candidacy-IsSeated, stop_candidacy-IsSeated, on_initialize-IsSeated,
}

-- The calls, by their names, with their arguments.
pub data Request : Type 0 where
  start_candidacy_call stop_candidacy_call unbond_call withdraw_call : Request
  commit_call : Balance → LockDuration → AccountId → Request
  add_funds_call : Balance → Request
  vote_candidate_call : AccountId → Request

-- The storage at genesis: `FirstEra`, no entries and zero counters.
unfoldable pub genesis : {Ledger : Type 0} → Ledger → State Ledger
genesis l = record {
  current_era = record { index = 0; start = 0 };
  voter_rewards = [];
  commitments = [];
  members = [];
  candidates = [];
  candidates_count = 0;
  locked_amount = 0;
  ledger = l;
  membership_changes = [];
  events = [];
}

module _ (currency : Currency) (config : Config) where
  open currency use {Ledger}

  unfoldable pub dispatch :
      Request → BlockNumber → Origin currency config → State Ledger → Dispatch Error (State Ledger)
  dispatch start_candidacy_call now = start_candidacy currency config
  dispatch stop_candidacy_call now = stop_candidacy currency config
  dispatch (commit_call amount d candidate) now = commit currency config amount d candidate
  dispatch (add_funds_call amount) now = add_funds currency config amount
  dispatch unbond_call now = unbond currency config now
  dispatch withdraw_call now = withdraw currency config now
  dispatch (vote_candidate_call candidate) now = vote_candidate currency config candidate

  -- What happens at a block: its hook, or a call.
  pub data Step : Type 0 where
    block : Step
    call : Request → Origin currency config → Step

  unfoldable pub step : State Ledger → BlockNumber × Step → State Ledger
  unfolding dispatch
  step s (now, block) = (on_initialize currency config now s).0
  step s (now, call request origin) = settle s (dispatch request now origin s)

  unfoldable pub run : State Ledger → List (BlockNumber × Step) → State Ledger
  run s [] = s
  run s (x ∷ xs) = run (step s x) xs

  -- The two invariants together.
  abbrev pub IsSound : State Ledger → Type 0
  IsSound s = IsLocked config.total_locked_cap s × IsSeated config.max_candidates s

  install-IsLocked :
      (winners : List AccountId) (s : State Ledger)
      → IsLocked config.total_locked_cap s
      → IsLocked config.total_locked_cap (install currency config winners s)
  unfolding install
  install-IsLocked [] s h = h
  install-IsLocked (w ∷ ws) s h = record { keys = h.keys; total = h.total; range = h.range }

  change_era-IsLocked :
      (now : BlockNumber) (s : State Ledger)
      → IsLocked config.total_locked_cap s
      → IsLocked config.total_locked_cap (change_era currency config now s)
  unfolding change_era
  change_era-IsLocked now s h =
      install-IsLocked _ _ (record { keys = h.keys; total = h.total; range = h.range })

  on_initialize-IsLocked :
      (now : BlockNumber) (s : State Ledger)
      → IsLocked config.total_locked_cap s
      → IsLocked config.total_locked_cap (on_initialize currency config now s).0
  unfolding on_initialize
  on_initialize-IsLocked now s h = ground (arith, change_era-IsLocked now s h)

module _ (currency : Currency) (config : Config) (cap : config.total_locked_cap ≤ u128_max)
    (limit : config.max_candidates ≤ u32_max) where
  open currency use {Ledger}

  dispatch-IsLocked :
      (r : Request) (now : BlockNumber) (origin : Origin currency config) (s : State Ledger)
      → IsLocked config.total_locked_cap s
      → IsLocked config.total_locked_cap (settle s (dispatch currency config r now origin s))
  unfolding dispatch start_candidacy stop_candidacy
  dispatch-IsLocked start_candidacy_call now origin s h = ground arith
  dispatch-IsLocked stop_candidacy_call now origin s h = ground arith
  dispatch-IsLocked (commit_call a d c) now origin s h =
      commit-IsLocked currency config cap a d c origin s h
  dispatch-IsLocked (add_funds_call a) now origin s h =
      add_funds-IsLocked currency config cap a origin s h
  dispatch-IsLocked unbond_call now origin s h = unbond-IsLocked currency config cap now origin s h
  dispatch-IsLocked withdraw_call now origin s h =
      withdraw-IsLocked currency config cap now origin s h
  dispatch-IsLocked (vote_candidate_call c) now origin s h =
      vote_candidate-IsLocked currency config cap c origin s h

  dispatch-IsSeated :
      (r : Request) (now : BlockNumber) (origin : Origin currency config) (s : State Ledger)
      → IsSeated config.max_candidates s
      → IsSeated config.max_candidates (settle s (dispatch currency config r now origin s))
  unfolding dispatch commit add_funds unbond withdraw vote_candidate
  dispatch-IsSeated start_candidacy_call now origin s h =
      start_candidacy-IsSeated currency config limit origin s h
  dispatch-IsSeated stop_candidacy_call now origin s h =
      stop_candidacy-IsSeated currency config limit origin s h
  dispatch-IsSeated (commit_call a d c) now origin s h = ground arith
  dispatch-IsSeated (add_funds_call a) now origin s h = ground arith
  dispatch-IsSeated unbond_call now origin s h = ground arith
  dispatch-IsSeated withdraw_call now origin s h = ground arith
  dispatch-IsSeated (vote_candidate_call c) now origin s h = ground arith

  step-IsSound :
      (s : State Ledger) (x : BlockNumber × Step currency config)
      → IsSound currency config s
      → IsSound currency config (step currency config s x)
  unfolding step
  step-IsSound s (now, block) h = (
    on_initialize-IsLocked currency config now s h.0,
    on_initialize-IsSeated currency config limit now s h.1,
  )
  step-IsSound s (now, call r origin) h =
      (dispatch-IsLocked r now origin s h.0, dispatch-IsSeated r now origin s h.1)

  run-IsSound :
      (s : State Ledger) (xs : List (BlockNumber × Step currency config))
      → IsSound currency config s
      → IsSound currency config (run currency config s xs)
  unfolding run
  run-IsSound s [] h = h
  run-IsSound s (x ∷ xs) h = run-IsSound (step currency config s x) xs (step-IsSound s x h)

  -- After every history of calls and blocks from the empty storage the locked total is the sum of the
  -- commitments, with one commitment to an account; the members are sorted without repetition and all
  -- of them are candidates, and the counter is the number of candidates, at most the maximum.
  pub genesis-run-IsSound :
      (l : Ledger) (xs : List (BlockNumber × Step currency config))
      → IsSound currency config (run currency config (genesis l) xs)
  unfolding genesis
  genesis-run-IsSound l xs = run-IsSound (genesis l) xs (omega arith)
