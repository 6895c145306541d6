-- ===== src/Poc/Power.antt =====
-- `voting_weight`, `era_voter_reward`, `era_council_rewards` and `proportion_of_era_to_year` of
-- modules/poc/src/lib.rs. A release build wraps on overflow.
use chain_upgrade.Base.{ℕ, ◌*◌, ◌%◌, ◌^◌, if◌then◌else◌}
use chain_upgrade.Substrate.{Balance, Currency}
use chain_upgrade.Poc.Types.{
  Commitment, Config, LockDuration, one_month, one_year, ten_years, is_committed, days,
}

abbrev pub multiplier : LockDuration → ℕ
multiplier one_month = 1
multiplier one_year = 10
multiplier ten_years = 100

unfoldable pub voting_weight : Commitment → Balance
voting_weight c = if is_committed c.state then c.amount * multiplier c.duration % 2 ^ 128 else 0

module _ (config : Config) where
  open config use {Perbill, mul, from_rational, era_duration, nominator_apy, council_inflation}

  unfoldable pub proportion_of_era_to_year : Perbill
  proportion_of_era_to_year = from_rational era_duration (365 * days)

  abbrev pub duration_reward : LockDuration → Balance → Balance
  duration_reward one_month amount = 0
  duration_reward _ amount = mul nominator_apy (mul proportion_of_era_to_year amount)

  unfoldable pub era_voter_reward : Commitment → Balance
  unfolding proportion_of_era_to_year
  era_voter_reward c = if is_committed c.state then duration_reward c.duration c.amount else 0

  unfoldable pub era_council_rewards : (currency : Currency) → currency.Ledger → Balance
  unfolding proportion_of_era_to_year
  era_council_rewards currency l =
      mul proportion_of_era_to_year (mul council_inflation (currency.total_issuance l))
