-- ===== src/Poc/Ranking.antt =====
-- The election: who wins, how many, and in which order they are listed.
use chain_upgrade.Base.{
  ℕ, zero, suc, ◌≡◌, ◌≤◌, ◌<◌, refl, true, false, ◌&&◌, [], ◌∷◌, some, none, arith, if◌then◌else◌,
  ◌==◌, sat_add, u128_max, All, Ascending, length, take, length-take, ◌∙◌, ap,
}
use chain_upgrade.Base.Map.{Map, lookup, contains_key, Distinct}
use chain_upgrade.Substrate.{AccountId, Balance}
use chain_upgrade.Poc.Types.{Commitment}
use chain_upgrade.Poc.Election.{tally, insert_by_weight, sort_by_weight, elect}
use chain_upgrade.Poc.Tally.{keys, votes, is_named, lookup-tally, tally_keys-Ascending}

-- Sorting by weight keeps the entries.
lookup-insert_by_weight :
    (j : AccountId) (x : AccountId × Balance) (m : Map Balance)
    → contains_key x.0 m ≡ false
    → lookup j (insert_by_weight x m) ≡ (if j == x.0 then some x.1 else lookup j m)
unfolding lookup insert_by_weight
lookup-insert_by_weight j (k, v) [] h = refl
lookup-insert_by_weight j (k, v) ((i, w) ∷ m) h = ground (arith, lookup-insert_by_weight j (k, v) m)

insert_by_weight-Distinct :
    (x : AccountId × Balance) (m : Map Balance)
    → contains_key x.0 m ≡ false
    → Distinct m
    → Distinct (insert_by_weight x m)
unfolding lookup insert_by_weight
insert_by_weight-Distinct (k, v) [] h d = (refl, tt)
insert_by_weight-Distinct (k, v) ((i, w) ∷ m) h d =
    ground (arith, insert_by_weight-Distinct (k, v) m, lookup-insert_by_weight i (k, v) m)

lookup-sort_by_weight :
    (j : AccountId) (m : Map Balance) → Distinct m → lookup j (sort_by_weight m) ≡ lookup j m
unfolding lookup sort_by_weight
lookup-sort_by_weight j [] d = refl
lookup-sort_by_weight j ((k, v) ∷ m) d = ground (
  arith,
  lookup-insert_by_weight j (k, v) (sort_by_weight m),
  lookup-sort_by_weight j m d.1,
  lookup-sort_by_weight k m d.1,
)

sort_by_weight-Distinct : (m : Map Balance) → Distinct m → Distinct (sort_by_weight m)
unfolding sort_by_weight
sort_by_weight-Distinct [] d = tt
sort_by_weight-Distinct ((k, v) ∷ m) d =
    insert_by_weight-Distinct (k, v) (sort_by_weight m)
      (ground (arith, lookup-sort_by_weight k m d.1)) (sort_by_weight-Distinct m d.1)

-- The weights fall along the list.
abbrev pub IsRanked : Map Balance → Type 0
IsRanked [] = Unit
IsRanked ((k, v) ∷ m) = All (λ (y : AccountId × Balance). y.1 ≤ v) m × IsRanked m

All-insert_by_weight :
    (b : Balance) (x : AccountId × Balance) (m : Map Balance)
    → x.1 ≤ b
    → All (λ (y : AccountId × Balance). y.1 ≤ b) m
    → All (λ (y : AccountId × Balance). y.1 ≤ b) (insert_by_weight x m)
unfolding insert_by_weight
All-insert_by_weight b x [] h a = (h, tt)
All-insert_by_weight b x (y ∷ m) h a = ground (arith, All-insert_by_weight b x m h a.1)

All-raise :
    (b c : Balance) (m : Map Balance)
    → b ≤ c
    → All (λ (y : AccountId × Balance). y.1 ≤ b) m
    → All (λ (y : AccountId × Balance). y.1 ≤ c) m
All-raise b c [] h a = tt
All-raise b c (y ∷ m) h a = (omega arith, All-raise b c m h a.1)

insert_by_weight-IsRanked :
    (x : AccountId × Balance) (m : Map Balance) → IsRanked m → IsRanked (insert_by_weight x m)
unfolding insert_by_weight
insert_by_weight-IsRanked (k, v) [] r = (tt, tt)
insert_by_weight-IsRanked (k, v) ((j, w) ∷ m) r = ground (
  arith,
  insert_by_weight-IsRanked (k, v) m r.1,
  All-raise w v m,
  All-insert_by_weight w (k, v) m,
)

sort_by_weight-IsRanked : (m : Map Balance) → IsRanked (sort_by_weight m)
unfolding sort_by_weight
sort_by_weight-IsRanked [] = tt
sort_by_weight-IsRanked (x ∷ m) =
    insert_by_weight-IsRanked x (sort_by_weight m) (sort_by_weight-IsRanked m)

lookup-take :
    (j : AccountId) (n : ℕ) (m : Map Balance) {v : Balance}
    → lookup j (take n m) ≡ some v
    → lookup j m ≡ some v
unfolding lookup
lookup-take j zero m h = cc
lookup-take j (suc n) [] h = h
lookup-take j (suc n) ((k, w) ∷ m) {v} h = ground (arith, lookup-take j n m {v = v})

contains-take :
    (j : AccountId) (n : ℕ) (m : Map Balance)
    → contains_key j m ≡ false
    → contains_key j (take n m) ≡ false
unfolding lookup
contains-take j zero m h = refl
contains-take j (suc n) [] h = refl
contains-take j (suc n) ((k, w) ∷ m) h = ground (arith, contains-take j n m)

take-Distinct : (n : ℕ) (m : Map Balance) → Distinct m → Distinct (take n m)
take-Distinct zero m d = tt
take-Distinct (suc n) [] d = tt
take-Distinct (suc n) ((k, w) ∷ m) d = (contains-take k n m d.0, take-Distinct n m d.1)

lookup-le :
    (j : AccountId) (b : Balance) (m : Map Balance) {v : Balance}
    → All (λ (y : AccountId × Balance). y.1 ≤ b) m
    → lookup j m ≡ some v
    → v ≤ b
unfolding lookup
lookup-le j b [] a h = absurd (cc)
lookup-le j b ((k, w) ∷ m) {v} a h = ground (arith, lookup-le j b m {v = v} a.1)

-- What a cut leaves out weighs no more than what it keeps.
take-IsRanked :
    (i j : AccountId) (n : ℕ) (m : Map Balance) {u v : Balance}
    → IsRanked m
    → lookup i (take n m) ≡ some u
    → lookup j m ≡ some v
    → contains_key j (take n m) ≡ false
    → v ≤ u
unfolding lookup
take-IsRanked i j zero m r hi hj out = absurd (cc)
take-IsRanked i j (suc n) [] r hi hj out = absurd (cc)
take-IsRanked i j (suc n) ((k, w) ∷ m) {u} {v} r hi hj out =
    ground (arith, lookup-le j w m {v = v} r.0, take-IsRanked i j n m {u = u} {v = v} r.1)

pub lookup-above :
    (k : AccountId) (m : Map Balance) → All (λ z. k < z) (keys m) → contains_key k m ≡ false
unfolding lookup
lookup-above k [] a = refl
lookup-above k ((j, w) ∷ m) a = ground (arith, lookup-above k m a.1)

Ascending-Distinct : (m : Map Balance) → Ascending (keys m) → Distinct m
Ascending-Distinct [] a = tt
Ascending-Distinct ((k, w) ∷ m) a = (lookup-above k m a.0, Ascending-Distinct m a.1)

-- The counted candidates, sorted by weight.
abbrev ranking : Map Balance → Map Commitment → Map Balance
ranking running cs = sort_by_weight (tally running cs [])

ranking-Distinct : (running : Map Balance) (cs : Map Commitment) → Distinct (ranking running cs)
ranking-Distinct running cs =
    sort_by_weight-Distinct (tally running cs [])
      (Ascending-Distinct _ (tally_keys-Ascending running cs))

lookup-ranking :
    (k : AccountId) (running : Map Balance) (cs : Map Commitment)
    → lookup k (ranking running cs) ≡ (
        if contains_key k running && is_named k cs
        then some (sat_add u128_max 0 (votes k cs))
        else none)
lookup-ranking k running cs =
    lookup-sort_by_weight k (tally running cs [])
      (Ascending-Distinct _ (tally_keys-Ascending running cs))
    ∙ lookup-tally k running cs

pub elect-Distinct :
    (n : ℕ) (running : Map Balance) (cs : Map Commitment) → Distinct (elect n running cs)
unfolding elect
elect-Distinct n running cs = take-Distinct n (ranking running cs) (ranking-Distinct running cs)

-- Every elected account is a running candidate that a commitment names, with the sum of its votes.
pub lookup-elect :
    (k : AccountId) (n : ℕ) (running : Map Balance) (cs : Map Commitment) {v : Balance}
    → lookup k (elect n running cs) ≡ some v
    → (contains_key k running ≡ true)
      × (is_named k cs ≡ true)
      × (v ≡ sat_add u128_max 0 (votes k cs))
unfolding elect
lookup-elect k n running cs {v} h =
    ground (arith, lookup-take k n (ranking running cs) {v = v}, lookup-ranking k running cs)

-- A running candidate that is named and not elected has no more votes than anyone elected.
pub elect-best :
    (i j : AccountId) (n : ℕ) (running : Map Balance) (cs : Map Commitment) {u : Balance}
    → lookup i (elect n running cs) ≡ some u
    → contains_key j running ≡ true
    → is_named j cs ≡ true
    → contains_key j (elect n running cs) ≡ false
    → sat_add u128_max 0 (votes j cs) ≤ u
unfolding elect
elect-best i j n running cs {u} hi run name out =
    take-IsRanked i j n (ranking running cs) (sort_by_weight-IsRanked (tally running cs [])) hi
      (rw (lookup-ranking j running cs, run, name)) out

pub length-elect :
    (n : ℕ) (running : Map Balance) (cs : Map Commitment) → length (elect n running cs) ≤ n
unfolding elect
length-elect n running cs = omega (arith, length-take n (ranking running cs))

take_short : (n : ℕ) (m : Map Balance) → length (take n m) < n → take n m ≡ m
take_short zero m h = elim h [ ]
take_short (suc n) [] h = refl
take_short (suc n) (x ∷ m) h = ap (◌∷◌ x) (take_short n m (omega arith))

-- With a seat left, everybody who runs and is named is elected.
pub elect-all :
    (j : AccountId) (n : ℕ) (running : Map Balance) (cs : Map Commitment)
    → length (elect n running cs) < n
    → contains_key j running ≡ true
    → is_named j cs ≡ true
    → contains_key j (elect n running cs) ≡ true
unfolding elect
elect-all j n running cs short run name =
    rw (take_short n (ranking running cs) short, lookup-ranking j running cs, run, name)
