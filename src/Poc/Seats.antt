-- ===== src/Poc/Seats.antt =====
-- Members and candidates: a member stays a candidate, the members are sorted, and the counter of the
-- candidates is right.
use chain_upgrade.Base.{
  ℕ, ◌+◌, ◌≡◌, ◌≤◌, true, false, List, [], ◌∷◌, arith, settle, All, Ascending, elem, length,
  u32_max, Option-cases, inl, inr,
}
use chain_upgrade.Base.Map.{
  Map, lookup, insert, remove, contains_key, Distinct, insert-Distinct, remove-Distinct,
  lookup-insert, lookup-remove_ne,
}
use chain_upgrade.Substrate.{AccountId, Balance, Currency}
use chain_upgrade.Poc.Types.{BlockNumber, Config, State}
use chain_upgrade.Poc.Calls.{Origin, start_candidacy, stop_candidacy}
use chain_upgrade.Poc.Search.{binary_search-eq-elem}
use chain_upgrade.Poc.Election.{install, change_era, on_initialize, elect, winners_of}
use chain_upgrade.Poc.Ranking.{lookup-elect}
use chain_upgrade.Poc.Winners.{elem-winners_of, winners_of-Ascending}

-- Every account of the list is a candidate.
abbrev pub AllRunning : Map Balance → List AccountId → Type 0
AllRunning running xs = All (λ m. contains_key m running ≡ true) xs

AllRunning-insert :
    (k : AccountId) (v : Balance) (running : Map Balance) (xs : List AccountId)
    → AllRunning running xs
    → AllRunning (insert k v running) xs
AllRunning-insert k v running [] a = tt
AllRunning-insert k v running (x ∷ xs) a =
    (ground (arith, lookup-insert x k v running), AllRunning-insert k v running xs a.1)

AllRunning-remove :
    (k : AccountId) (running : Map Balance) (xs : List AccountId)
    → elem k xs ≡ false
    → AllRunning running xs
    → AllRunning (remove k running) xs
unfolding elem
AllRunning-remove k running [] h a = tt
AllRunning-remove k running (x ∷ xs) h a = (
  ground (arith, lookup-remove_ne x k running),
  AllRunning-remove k running xs (ground arith) a.1,
)

AllRunning-of_elem :
    (running : Map Balance) (xs : List AccountId)
    → ((j : AccountId) → elem j xs ≡ true → contains_key j running ≡ true)
    → AllRunning running xs
unfolding elem
AllRunning-of_elem running [] h = tt
AllRunning-of_elem running (x ∷ xs) h =
    (h x (ground arith), AllRunning-of_elem running xs (λ j e. h j (ground arith)))

length-insert_new :
    (k : AccountId) (v : Balance) (m : Map Balance)
    → contains_key k m ≡ false
    → length (insert k v m) ≡ length m + 1
unfolding lookup insert
length-insert_new k v [] h = omega arith
length-insert_new k v ((j, w) ∷ m) h = ground (arith, length-insert_new k v m)

length-remove :
    (k : AccountId) (m : Map Balance) → contains_key k m ≡ true → length (remove k m) + 1 ≡ length m
unfolding lookup remove
length-remove k [] h = absurd (cc)
length-remove k ((j, w) ∷ m) h = ground (arith, length-remove k m)

pub record IsSeated {Ledger : Type 0} (max_candidates : ℕ) (s : State Ledger) : Type 0 where
  pub keys : Distinct s.candidates
  pub count : s.candidates_count ≡ length s.candidates
  pub limit : s.candidates_count ≤ max_candidates
  pub order : Ascending s.members
  pub running : AllRunning s.candidates s.members

module _ (currency : Currency) (config : Config) (limit : config.max_candidates ≤ u32_max) where
  open currency use {Ledger}
  open config use {max_candidates, max_members}

  pub start_candidacy-IsSeated :
      (origin : Origin currency config) (s : State Ledger)
      → IsSeated max_candidates s
      → IsSeated max_candidates (settle s (start_candidacy currency config origin s))
  unfolding start_candidacy
  start_candidacy-IsSeated origin s h =
      grind (arith, insert-Distinct, length-insert_new, AllRunning-insert)

  pub stop_candidacy-IsSeated :
      (origin : Origin currency config) (s : State Ledger)
      → IsSeated max_candidates s
      → IsSeated max_candidates (settle s (stop_candidacy currency config origin s))
  unfolding stop_candidacy
  stop_candidacy-IsSeated origin s h =
      grind (arith, remove-Distinct, length-remove, AllRunning-remove, binary_search-eq-elem)

  winners_running :
      (n : ℕ) (s : State Ledger)
      → AllRunning s.candidates (winners_of (elect n s.candidates s.commitments))
  winners_running n s = AllRunning-of_elem s.candidates _ λ j e.
      elim (Option-cases (lookup j top)) [
        | inl missing ↦ absurd (ground (arith, elem-winners_of j top))
        | inr (v, found) ↦ (lookup-elect j n s.candidates s.commitments found).0
      ]
    where
      top : Map Balance
      top = elect n s.candidates s.commitments

  install-IsSeated :
      (winners : List AccountId) (s : State Ledger)
      → Ascending winners
      → AllRunning s.candidates winners
      → IsSeated max_candidates s
      → IsSeated max_candidates (install currency config winners s)
  unfolding install
  install-IsSeated [] s a r h = h
  install-IsSeated (w ∷ ws) s a r h = record {
    keys = h.keys;
    count = h.count;
    limit = h.limit;
    order = a;
    running = r;
  }

  change_era-IsSeated :
      (n : BlockNumber) (s : State Ledger)
      → IsSeated max_candidates s
      → IsSeated max_candidates (change_era currency config n s)
  unfolding change_era
  change_era-IsSeated n s h =
      install-IsSeated (winners_of (elect max_members s.candidates s.commitments)) _
        (winners_of-Ascending max_members s.candidates s.commitments)
        (winners_running max_members s)
        (record {
          keys = h.keys;
          count = h.count;
          limit = h.limit;
          order = h.order;
          running = h.running;
        })

  pub on_initialize-IsSeated :
      (n : BlockNumber) (s : State Ledger)
      → IsSeated max_candidates s
      → IsSeated max_candidates (on_initialize currency config n s).0
  unfolding on_initialize
  on_initialize-IsSeated n s h = ground (arith, change_era-IsSeated n s h)
