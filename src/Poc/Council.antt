-- ===== src/Poc/Council.antt =====
-- Who sits after the block hook of modules/poc/src/lib.rs has ended an era.
use chain_upgrade.Base.{
  ◌+◌, ◌≡◌, ◌≢◌, ◌≤◌, refl, sym, ap, ◌∙◌, subst, true, false, ◌&&◌, List, [], ◌∷◌, length, elem,
  arith, Ascending, sat_add, u32_max, u128_max,
}
use chain_upgrade.Base.Map.{Map, contains_key}
use chain_upgrade.Substrate.{AccountId, Balance, Currency}
use chain_upgrade.Poc.Types.{BlockNumber, Commitment, Config, State}
use chain_upgrade.Poc.Election.{change_era, on_initialize, elect, winners_of}
use chain_upgrade.Poc.Tally.{votes, is_named}
use chain_upgrade.Poc.Winners.{election}
use chain_upgrade.Poc.Eras.{change_era-members}

-- Without winners there is a seat left, so nobody loses.
somebody_wins :
    (n : Balance) (running : Map Balance) (cs : Map Commitment) (j : AccountId)
    → n ≢ 0
    → contains_key j running ≡ true
    → is_named j cs ≡ true
    → winners_of (elect n running cs) ≢ []
unfolding elem
somebody_wins n running cs j seats runs named empty =
    let lost : elem j (winners_of (elect n running cs)) ≡ false = ap (elem j) empty in
    let full = ((election n running cs j j).3 runs named lost).0 in
    absurd (seats (sym full ∙ ap length empty))

nobody_wins :
    (running : Map Balance) (cs : Map Commitment) (ws : List AccountId)
    → ((k : AccountId)
        → elem k ws ≡ true
        → (contains_key k running ≡ true) × (is_named k cs ≡ true))
    → ((k : AccountId) → (contains_key k running && is_named k cs) ≡ false)
    → ws ≡ []
unfolding elem
nobody_wins running cs [] won nobody = refl
nobody_wins running cs (w ∷ ws) won nobody = absurd (ground (arith, won w (ground arith), nobody w))

-- What an election makes of a list of members, for an account `i` that sits and an account `j` that runs.
abbrev pub IsSeated :
    {Ledger : Type 0} → Balance → AccountId → AccountId → State Ledger → List AccountId → Type 0
IsSeated n i j s members =
    (length members ≤ n)
    × Ascending members
    × (elem i members ≡ true
        → (contains_key i s.candidates ≡ true) × (is_named i s.commitments ≡ true))
    × (elem j members ≡ false
        → (length members ≡ n)
          × (elem i members ≡ true
              → sat_add u128_max 0 (votes j s.commitments)
                ≤ sat_add u128_max 0 (votes i s.commitments)))

module _ (currency : Currency) (config : Config) where
  open currency use {Ledger}
  open config use {era_duration, max_members}

  -- A block that ends an era, where the council has seats and the end of the era is a block number. If `j` runs and some commitment names `j`, then
  -- the new members are in ascending order and no more than the seats, and the collective hears of them
  -- and of those before; every member `i` ran and is named; and if `j` does not sit, then every seat is
  -- taken and no member has fewer votes than `j`. If nobody runs and is named, the members stay and
  -- the collective hears nothing.
  pub on_initialize-members :
      (n : BlockNumber) (s : State Ledger) (i j : AccountId)
      → s.current_era.start + era_duration ≤ u32_max
      → s.current_era.start + era_duration ≤ n
      → max_members ≢ 0
      → let t = (on_initialize currency config n s).0 in
        (contains_key j s.candidates ≡ true
          → is_named j s.commitments ≡ true
          → IsSeated max_members i j s t.members
            × (t.membership_changes ≡ (t.members, s.members) ∷ s.membership_changes))
        × (((k : AccountId) → (contains_key k s.candidates && is_named k s.commitments) ≡ false)
            → (t.members ≡ s.members) × (t.membership_changes ≡ s.membership_changes))
  unfolding on_initialize
  on_initialize-members n s i j fits over seats =
      let winners = winners_of (elect max_members s.candidates s.commitments) in
      let ended : change_era currency config n s ≡ (on_initialize currency config n s).0 =
        ground arith in
      let (short, ascending, ran, best) = election max_members s.candidates s.commitments i j in
      let (elected, stayed) = change_era-members currency config n s in
      (
        λ runs named.
            let (now, heard) =
              elected (somebody_wins max_members s.candidates s.commitments j seats runs named) in
            subst
              (λ t.
                IsSeated max_members i j s t.members
                × (t.membership_changes ≡ (t.members, s.members) ∷ s.membership_changes))
              ended
              (
                subst (IsSeated max_members i j s) (sym now)
                    (short, ascending, ran, λ lost. best runs named lost),
                subst
                    (λ ms.
                      (change_era currency config n s).membership_changes
                      ≡ (ms, s.members) ∷ s.membership_changes)
                    (sym now) heard,
              ),
        λ nobody.
            let none_won =
              nobody_wins s.candidates s.commitments winners
                (λ k. (election max_members s.candidates s.commitments k k).2) nobody in
            subst (λ t. (t.members ≡ s.members) × (t.membership_changes ≡ s.membership_changes))
              ended (stayed none_won),
      )
