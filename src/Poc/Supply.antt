-- ===== src/Poc/Supply.antt =====
-- What the calls do to the supply: what is locked is burned, and issued again when it is withdrawn.
use chain_upgrade.Base.{◌+◌, ◌≡◌, ◌≤◌, refl, ◌≢◌, arith, settle, u128_max}
use chain_upgrade.Substrate.{AccountId, Balance, Currency, CurrencyLaws}
use chain_upgrade.Poc.Types.{BlockNumber, Config, State}
use chain_upgrade.Poc.Calls.{
  Origin, start_candidacy, stop_candidacy, commit, add_funds, unbond, withdraw,
}
use chain_upgrade.Poc.Locked.{IsLocked, locked_sum-remove}
use chain_upgrade.Poc.Runs.{
  Request, start_candidacy_call, stop_candidacy_call, unbond_call, withdraw_call, commit_call,
  add_funds_call, vote_candidate_call, dispatch,
}

-- The issuance together with what is locked.
abbrev pub backing : (currency : Currency) → State currency.Ledger → Balance
backing currency s = currency.total_issuance s.ledger + s.locked_amount

module _ (currency : Currency) (laws : CurrencyLaws currency) (config : Config)
    (cap : config.total_locked_cap ≤ u128_max) where
  open currency use {Ledger}

  -- Every call but a vote keeps the sum of the issuance and the locked total, whether it fails or not.
  pub dispatch-backing :
      (r : Request) (now : BlockNumber) (origin : Origin currency config) (s : State Ledger)
      → ((c : AccountId) → r ≢ vote_candidate_call c)
      → IsLocked config.total_locked_cap s
      → backing currency (settle s (dispatch currency config r now origin s)) ≡ backing currency s
  unfolding dispatch start_candidacy stop_candidacy commit add_funds unbond withdraw
  dispatch-backing start_candidacy_call now origin s v h = grind (arith, laws.reserve_issuance)
  dispatch-backing stop_candidacy_call now origin s v h = grind (arith, laws.unreserve_issuance)
  dispatch-backing (commit_call a d c) now origin s v h = grind (arith, laws.withdraw_issuance)
  dispatch-backing (add_funds_call a) now origin s v h = grind (arith, laws.withdraw_issuance)
  dispatch-backing unbond_call now origin s v h = ground arith
  dispatch-backing withdraw_call now origin s v h =
      grind (arith, laws.deposit_issuance, locked_sum-remove)
  dispatch-backing (vote_candidate_call c) now origin s v h = absurd (v c refl)
