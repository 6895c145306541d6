-- ===== src/Poc/Eras.antt =====
-- The block hook: when an era ends, who sits afterwards, and what the council is paid.
use chain_upgrade.Base.{
  ◌+◌, ◌*◌, ◌≡◌, ◌≢◌, ◌≤◌, ◌<◌, refl, inl, inr, none, arith, List, [], ◌∷◌, length, ap, ◌∙◌,
  sat_add, u32_max, if◌then◌else◌, ◌==◌, Result-cases,
}
use chain_upgrade.Base.DoubleMap.{lookup2, lookup2-remove_prefix}
use chain_upgrade.Substrate.{AccountId, Balance, Currency, CurrencyLaws}
use chain_upgrade.Poc.Types.{BlockNumber, EraIndex, Config, State}
use chain_upgrade.Poc.Power.{era_council_rewards}
use chain_upgrade.Poc.Election.{
  pay_all, reward_share, install, change_era, on_initialize, elect, winners_of,
}

module _ (currency : Currency) (config : Config) where
  open currency use {Ledger, total_issuance, deposit_into_existing}
  open config use {era_duration, max_members}

  -- Payments issue at most the reward for each account.
  pay_all-issuance :
      (laws : CurrencyLaws currency) (reward : Balance) (ws : List AccountId) (l : Ledger)
      → total_issuance (pay_all currency config reward ws l) ≤ total_issuance l + length ws * reward
  unfolding pay_all
  pay_all-issuance laws reward [] l = omega arith
  pay_all-issuance laws reward (w ∷ ws) l = elim (Result-cases (deposit_into_existing w reward l)) [
    | inl (m, e) ↦
        rw e
          (omega (arith, laws.deposit_issuance w reward l m e, pay_all-issuance laws reward ws m))
    | inr (x, e) ↦ rw e (omega (arith, pay_all-issuance laws reward ws l))
  ]

  install-issuance :
      (laws : CurrencyLaws currency) (winners : List AccountId) (s : State Ledger)
      → total_issuance (install currency config winners s).ledger
        ≤ total_issuance s.ledger + era_council_rewards config currency s.ledger
  unfolding install
  install-issuance laws [] s = omega arith
  install-issuance laws (w ∷ ws) s = ground (
    arith,
    pay_all-issuance laws (reward_share currency config s.ledger (w ∷ ws)) (w ∷ ws) s.ledger,
  )

  install-era :
      (winners : List AccountId) (s : State Ledger)
      → ((install currency config winners s).current_era ≡ s.current_era)
        × ((install currency config winners s).voter_rewards ≡ s.voter_rewards)
  unfolding install
  install-era [] s = (refl, refl)
  install-era (w ∷ ws) s = (refl, refl)

  install-members :
      (winners : List AccountId) (s : State Ledger)
      → let t = install currency config winners s in
        (winners ≢ []
          → (t.members ≡ winners)
            × (t.membership_changes ≡ (winners, s.members) ∷ s.membership_changes))
        × (winners ≡ [] → (t.members ≡ s.members) × (t.membership_changes ≡ s.membership_changes))
  unfolding install
  install-members [] s = (λ h. absurd (h refl), λ h. (refl, refl))
  install-members (w ∷ ws) s = (λ h. (refl, refl), λ h. absurd (cc))

  change_era-issuance :
      (laws : CurrencyLaws currency) (n : BlockNumber) (s : State Ledger)
      → total_issuance (change_era currency config n s).ledger
        ≤ total_issuance s.ledger + era_council_rewards config currency s.ledger
  unfolding change_era
  change_era-issuance laws n s = install-issuance laws _ _

  change_era-era :
      (n : BlockNumber) (s : State Ledger) (era : EraIndex) (who : AccountId)
      → ((change_era currency config n s).current_era
          ≡ record { index = sat_add u32_max s.current_era.index 1; start = n })
        × (lookup2 era who (change_era currency config n s).voter_rewards
            ≡ (if era == s.current_era.index then none else lookup2 era who s.voter_rewards))
  unfolding change_era
  change_era-era n s era who = (
    (install-era _ _).0,
    ap (lookup2 era who) (install-era _ _).1
        ∙ lookup2-remove_prefix era who s.current_era.index s.voter_rewards,
  )

  -- A block before the end of the era leaves the storage as it is, at the weight of an empty block. A
  -- block from then on starts the next era at its number and drops the reward entries of the old era,
  -- and only those.
  pub on_initialize_eras :
      (n : BlockNumber) (s : State Ledger) (era : EraIndex) (who : AccountId)
      → s.current_era.start + era_duration ≤ u32_max
      → s.current_era.index < u32_max
      → (n < s.current_era.start + era_duration
          → on_initialize currency config n s ≡ (s, config.on_initialize_empty))
        × (s.current_era.start + era_duration ≤ n
            → ((on_initialize currency config n s).0.current_era
                ≡ record { index = s.current_era.index + 1; start = n })
              × (lookup2 era who (on_initialize currency config n s).0.voter_rewards
                  ≡ (if era == s.current_era.index then none else lookup2 era who s.voter_rewards)))
  unfolding on_initialize
  on_initialize_eras n s era who fits room =
      (λ before. ground arith, λ after. ground (arith, change_era-era n s era who))

  -- The members after an era change are the winners of the election, in the block's collective too; if
  -- nobody is elected the members stay and the collective hears nothing.
  pub change_era-members :
      (n : BlockNumber) (s : State Ledger)
      → let winners = winners_of (elect max_members s.candidates s.commitments) in
        let t = change_era currency config n s in
        (winners ≢ []
          → (t.members ≡ winners)
            × (t.membership_changes ≡ (winners, s.members) ∷ s.membership_changes))
        × (winners ≡ [] → (t.members ≡ s.members) × (t.membership_changes ≡ s.membership_changes))
  unfolding change_era
  change_era-members n s =
      install-members (winners_of (elect max_members s.candidates s.commitments)) _

  -- No block issues more than the reward of the council for the era.
  pub on_initialize-issuance :
      (laws : CurrencyLaws currency) (n : BlockNumber) (s : State Ledger)
      → total_issuance (on_initialize currency config n s).0.ledger
        ≤ total_issuance s.ledger + era_council_rewards config currency s.ledger
  unfolding on_initialize
  on_initialize-issuance laws n s = ground (arith, change_era-issuance laws n s)
