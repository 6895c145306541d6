-- ===== src/Poc/Tally.antt =====
-- The count of the votes against its specification: a sum over the commitments, whatever their order.
use chain_upgrade.Base.{
  ℕ, ◌+◌, ◌≡◌, ◌≤◌, ◌<◌, refl, Bool, false, ◌&&◌, ◌||◌, List, [], ◌∷◌, some, none, arith,
  if◌then◌else◌, ◌==◌, sat_add, u128_max, All, Ascending, Bool-cases, inl, inr,
}
use chain_upgrade.Base.Map.{Map, lookup, contains_key, value_or_zero}
use chain_upgrade.Substrate.{AccountId, Balance}
use chain_upgrade.Poc.Types.{Commitment}
use chain_upgrade.Poc.Power.{voting_weight}
use chain_upgrade.Poc.Election.{counter_insert, count_vote, tally}

pub voting_weight-le : (c : Commitment) → voting_weight c ≤ u128_max
unfolding voting_weight
voting_weight-le c = ground arith

-- The sum of the weights of the commitments that name `k`.
abbrev pub votes : AccountId → Map Commitment → Balance
votes k [] = 0
votes k ((who, c) ∷ cs) = (if k == c.candidate then voting_weight c else 0) + votes k cs

-- Some commitment names `k`.
abbrev pub is_named : AccountId → Map Commitment → Bool
is_named k [] = false
is_named k ((who, c) ∷ cs) = (k == c.candidate) || is_named k cs

votes_unnamed : (k : AccountId) (cs : Map Commitment) → is_named k cs ≡ false → votes k cs ≡ 0
votes_unnamed k [] h = refl
votes_unnamed k ((who, c) ∷ cs) h = ground (arith, votes_unnamed k cs)

pub lookup-counter_insert :
    (j k : AccountId) (v : Balance) (m : Map Balance)
    → lookup j (counter_insert k v m) ≡ (if j == k then some v else lookup j m)
unfolding lookup counter_insert
lookup-counter_insert j k v [] = refl
lookup-counter_insert j k v ((i, w) ∷ m) = ground (arith, lookup-counter_insert j k v m)

lookup-count_vote :
    (j : AccountId) (c : Commitment) (m : Map Balance)
    → lookup j (count_vote c m) ≡ (
        if j == c.candidate
        then some (sat_add u128_max (value_or_zero (lookup j m)) (voting_weight c))
        else lookup j m)
unfolding count_vote
lookup-count_vote j c m = grind (arith, lookup-counter_insert, voting_weight-le c)

lookup-tally_from :
    (k : AccountId) (running : Map Balance) (cs : Map Commitment) (m : Map Balance)
    → value_or_zero (lookup k m) ≤ u128_max
    → lookup k (tally running cs m) ≡ (
        if contains_key k running && is_named k cs
        then some (sat_add u128_max (value_or_zero (lookup k m)) (votes k cs))
        else lookup k m)
unfolding tally
lookup-tally_from k running [] m h = ground arith
lookup-tally_from k running ((who, c) ∷ cs) m h =
    elim (Bool-cases (contains_key c.candidate running)) [
      | inl e ↦ rw e (
          ground (
            arith,
            lookup-count_vote k c m,
            lookup-tally_from k running cs (count_vote c m),
            voting_weight-le c,
            votes_unnamed k cs,
          ))
      | inr e ↦ rw e (ground (arith, lookup-tally_from k running cs m h))
    ]

-- A running candidate that some commitment names is counted, with the saturated sum of the weights of
-- the commitments that name it; nobody else is counted.
pub lookup-tally :
    (k : AccountId) (running : Map Balance) (cs : Map Commitment)
    → lookup k (tally running cs []) ≡ (
        if contains_key k running && is_named k cs
        then some (sat_add u128_max 0 (votes k cs))
        else none)
unfolding lookup
lookup-tally k running cs = lookup-tally_from k running cs [] (omega arith)

-- The names of a map, in its order.
abbrev pub keys {ℓ} : {V : Type ℓ} → Map V → List AccountId
keys [] = []
keys ((k, v) ∷ m) = k ∷ keys m

pub All-above : (x y : ℕ) (xs : List ℕ) → x < y → All (λ z. y < z) xs → All (λ z. x < z) xs
All-above x y [] h a = tt
All-above x y (z ∷ xs) h a = (omega arith, All-above x y xs h a.1)

All-counter_insert :
    (x k : AccountId) (v : Balance) (m : Map Balance)
    → x < k
    → All (λ z. x < z) (keys m)
    → All (λ z. x < z) (keys (counter_insert k v m))
unfolding counter_insert
All-counter_insert x k v [] h a = (h, tt)
All-counter_insert x k v ((j, w) ∷ m) h a = ground (arith, All-counter_insert x k v m h a.1)

counter_insert-Ascending :
    (k : AccountId) (v : Balance) (m : Map Balance)
    → Ascending (keys m)
    → Ascending (keys (counter_insert k v m))
unfolding counter_insert
counter_insert-Ascending k v [] a = (tt, tt)
counter_insert-Ascending k v ((j, w) ∷ m) a =
    ground (
      arith,
      counter_insert-Ascending k v m a.1,
      All-above k j (keys m),
      All-counter_insert j k v m,
    )

count_vote-Ascending :
    (c : Commitment) (m : Map Balance) → Ascending (keys m) → Ascending (keys (count_vote c m))
unfolding count_vote
count_vote-Ascending c m a = elim (Bool-cases (contains_key c.candidate m)) [
  | inl e ↦ rw e (counter_insert-Ascending c.candidate _ m a)
  | inr e ↦ rw e (counter_insert-Ascending c.candidate _ m a)
]

tally-Ascending :
    (running : Map Balance) (cs : Map Commitment) (m : Map Balance)
    → Ascending (keys m)
    → Ascending (keys (tally running cs m))
unfolding tally
tally-Ascending running [] m a = a
tally-Ascending running ((who, c) ∷ cs) m a = elim (Bool-cases (contains_key c.candidate running)) [
  | inl e ↦ rw e (tally-Ascending running cs (count_vote c m) (count_vote-Ascending c m a))
  | inr e ↦ rw e (tally-Ascending running cs m a)
]

pub tally_keys-Ascending :
    (running : Map Balance) (cs : Map Commitment) → Ascending (keys (tally running cs []))
tally_keys-Ascending running cs = tally-Ascending running cs [] tt
