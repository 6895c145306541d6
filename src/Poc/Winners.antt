-- ===== src/Poc/Winners.antt =====
-- The names of the elected, as the members that are installed.
use chain_upgrade.Base.{
  ℕ, ◌+◌, ◌≡◌, ◌≤◌, ◌<◌, refl, true, false, ◌||◌, ◌∙◌, List, [], ◌∷◌, map, arith, ◌==◌, All,
  Ascending, elem, length, some, Option-cases, inl, inr, sat_add, u128_max,
}
use chain_upgrade.Base.Map.{Map, lookup, contains_key, Distinct}
use chain_upgrade.Substrate.{AccountId, Balance}
use chain_upgrade.Poc.Types.{Commitment}
use chain_upgrade.Poc.Election.{insert_ascending, sort_ascending, elect, winners_of}
use chain_upgrade.Poc.Ranking.{elect-Distinct, length-elect, lookup-elect, elect-best, elect-all}
use chain_upgrade.Poc.Tally.{votes, is_named}

elem-insert_ascending :
    (j x : AccountId) (xs : List AccountId)
    → elem j (insert_ascending x xs) ≡ ((j == x) || elem j xs)
unfolding elem insert_ascending
elem-insert_ascending j x [] = refl
elem-insert_ascending j x (y ∷ ys) = ground (arith, elem-insert_ascending j x ys)

abbrev names : Map Balance → List AccountId
names = map (λ x. x.0)

elem-sort_ascending :
    (j : AccountId) (m : Map Balance) → elem j (sort_ascending (names m)) ≡ contains_key j m
unfolding elem lookup sort_ascending
elem-sort_ascending j [] = refl
elem-sort_ascending j ((k, v) ∷ m) =
    ground (arith, elem-insert_ascending j k (sort_ascending (names m)), elem-sort_ascending j m)

-- The members that are installed are exactly the elected.
pub elem-winners_of :
    (j : AccountId) (top : Map Balance) → elem j (winners_of top) ≡ contains_key j top
unfolding winners_of
elem-winners_of j top = elem-sort_ascending j top

All-insert_ascending :
    (y x : AccountId) (xs : List AccountId)
    → y < x
    → All (λ z. y < z) xs
    → All (λ z. y < z) (insert_ascending x xs)
unfolding insert_ascending
All-insert_ascending y x [] h a = (h, tt)
All-insert_ascending y x (z ∷ zs) h a = ground (arith, All-insert_ascending y x zs h a.1)

All-below :
    (x y : AccountId) (xs : List AccountId) → x ≤ y → All (λ z. y < z) xs → All (λ z. x < z) xs
All-below x y [] h a = tt
All-below x y (z ∷ zs) h a = (omega arith, All-below x y zs h a.1)

insert_ascending-Ascending :
    (x : AccountId) (xs : List AccountId)
    → elem x xs ≡ false
    → Ascending xs
    → Ascending (insert_ascending x xs)
unfolding elem insert_ascending
insert_ascending-Ascending x [] h a = (tt, tt)
insert_ascending-Ascending x (y ∷ ys) h a =
    ground (arith, insert_ascending-Ascending x ys, All-below x y ys, All-insert_ascending y x ys)

sort_ascending-Ascending : (m : Map Balance) → Distinct m → Ascending (sort_ascending (names m))
unfolding sort_ascending
sort_ascending-Ascending [] d = tt
sort_ascending-Ascending ((k, v) ∷ m) d =
    insert_ascending-Ascending k (sort_ascending (names m)) (elem-sort_ascending k m ∙ d.0)
      (sort_ascending-Ascending m d.1)

length-insert_ascending :
    (x : AccountId) (xs : List AccountId) → length (insert_ascending x xs) ≡ length xs + 1
unfolding insert_ascending
length-insert_ascending x [] = omega arith
length-insert_ascending x (y ∷ ys) = ground (arith, length-insert_ascending x ys)

length-sort_ascending : (m : Map Balance) → length (sort_ascending (names m)) ≡ length m
unfolding sort_ascending
length-sort_ascending [] = refl
length-sort_ascending ((k, v) ∷ m) =
    omega (arith, length-insert_ascending k (sort_ascending (names m)), length-sort_ascending m)

pub length-winners_of : (top : Map Balance) → length (winners_of top) ≡ length top
unfolding winners_of
length-winners_of top = length-sort_ascending top

pub winners_of-Ascending :
    (n : ℕ) (running : Map Balance) (cs : Map Commitment)
    → Ascending (winners_of (elect n running cs))
unfolding winners_of
winners_of-Ascending n running cs =
    sort_ascending-Ascending (elect n running cs) (elect-Distinct n running cs)

module _ (n : ℕ) (running : Map Balance) (cs : Map Commitment) where
  -- A winner's entry in the ranking.
  winner-entry :
      (k : AccountId)
      → elem k (winners_of (elect n running cs)) ≡ true
      → (lookup k (elect n running cs) ≡ some (sat_add u128_max 0 (votes k cs)))
        × ((contains_key k running ≡ true) × (is_named k cs ≡ true))
  winner-entry k won = elim (Option-cases (lookup k (elect n running cs))) [
    | inl missing ↦ absurd (ground (arith, elem-winners_of k (elect n running cs)))
    | inr (v, found) ↦ ground (arith, lookup-elect k n running cs found)
  ]

  -- Someone who runs, is named and does not win finds all seats taken.
  loser-length :
      (j : AccountId)
      → contains_key j running ≡ true
      → is_named j cs ≡ true
      → elem j (winners_of (elect n running cs)) ≡ false
      → ¬ (length (elect n running cs) < n)
  loser-length j run name lost short =
      ground
        (arith, elem-winners_of j (elect n running cs), elect-all j n running cs short run name)

-- The election. There are at most as many winners as seats, in ascending order; each of them runs and is
-- named by a commitment, and has at least as many votes, as counted, as any loser who runs and is named;
-- and there is no such loser while a seat is left.
pub election :
    (n : ℕ) (running : Map Balance) (cs : Map Commitment) (i j : AccountId)
    → let winners = winners_of (elect n running cs) in
      (length winners ≤ n)
      × Ascending winners
      × (elem i winners ≡ true → (contains_key i running ≡ true) × (is_named i cs ≡ true))
      × (contains_key j running ≡ true
          → is_named j cs ≡ true
          → elem j winners ≡ false
          → (length winners ≡ n)
            × (elem i winners ≡ true
                → sat_add u128_max 0 (votes j cs) ≤ sat_add u128_max 0 (votes i cs)))
election n running cs i j =
    let top = elect n running cs in
    (
      omega (arith, length-winners_of top, length-elect n running cs),
      winners_of-Ascending n running cs,
      λ won. (winner-entry n running cs i won).1,
      λ run name lost. (
        omega (
          arith,
          length-winners_of top,
          length-elect n running cs,
          loser-length n running cs j run name lost,
        ),
        λ won.
            elect-best i j n running cs (winner-entry n running cs i won).0 run name
              (ground (arith, elem-winners_of j top)),
      ),
    )
