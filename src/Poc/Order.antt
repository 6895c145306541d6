-- ===== src/Poc/Order.antt =====
-- The outcome of the election does not depend on the order in which the storage iterates over the
-- commitments: the counter is a sorted map, and two such maps with the same entries are the same.
use mathlib.Core.List.{Perm, Permᴰ}
use mathlib.Core.Logic.{∥∥₁_elim}
use chain_upgrade.Base.{ℕ, ◌≡◌, ◌<◌, refl, ap, ◌∙◌, false, [], ◌∷◌, arith, All, Ascending, take}
use chain_upgrade.Base.Map.{Map, lookup, contains_key}
use chain_upgrade.Substrate.{AccountId, Balance}
use chain_upgrade.Poc.Types.{Commitment}
use chain_upgrade.Poc.Election.{tally, elect, sort_by_weight}
use chain_upgrade.Poc.Tally.{All-above, keys, votes, is_named, lookup-tally, tally_keys-Ascending}
use chain_upgrade.Poc.Ranking.{lookup-above}

Map-set : IsSet (Map Balance)
Map-set = hlevel

votes-permᴰ : (k : AccountId) {cs ds : Map Commitment} → Permᴰ cs ds → votes k cs ≡ votes k ds
votes-permᴰ k Permᴰ.nil = refl
votes-permᴰ k (Permᴰ.cons e p) = rw (e, votes-permᴰ k p)
votes-permᴰ k (Permᴰ.swap e f) = rw (e, f) (omega arith)
votes-permᴰ k (Permᴰ.trans p q) = votes-permᴰ k p ∙ votes-permᴰ k q

is_named-permᴰ :
    (k : AccountId) {cs ds : Map Commitment} → Permᴰ cs ds → is_named k cs ≡ is_named k ds
is_named-permᴰ k Permᴰ.nil = refl
is_named-permᴰ k (Permᴰ.cons e p) = rw (e, is_named-permᴰ k p)
is_named-permᴰ k (Permᴰ.swap e f) = rw (e, f) (ground arith)
is_named-permᴰ k (Permᴰ.trans p q) = is_named-permᴰ k p ∙ is_named-permᴰ k q

lookup-below :
    (k j : AccountId) (m : Map Balance)
    → k < j
    → All (λ z. j < z) (keys m)
    → contains_key k m ≡ false
lookup-below k j m h a = lookup-above k m (All-above k j (keys m) h a)

heads-eq :
    (k j : AccountId) (v w : Balance) (m n : Map Balance)
    → All (λ z. k < z) (keys m)
    → All (λ z. j < z) (keys n)
    → lookup k ((k, v) ∷ m) ≡ lookup k ((j, w) ∷ n)
    → lookup j ((k, v) ∷ m) ≡ lookup j ((j, w) ∷ n)
    → (k ≡ j) × (v ≡ w)
unfolding lookup
heads-eq k j v w m n a b p q = ground (arith, lookup-below k j n, lookup-below j k m)

-- Sorted maps are determined by what is found in them.
Map-ext :
    (m n : Map Balance)
    → Ascending (keys m)
    → Ascending (keys n)
    → ((k : AccountId) → lookup k m ≡ lookup k n)
    → m ≡ n
unfolding lookup
Map-ext [] [] a b h = refl
Map-ext [] ((j, w) ∷ n) a b h = absurd (ground (arith, h j))
Map-ext ((k, v) ∷ m) [] a b h = absurd (ground (arith, h k))
Map-ext ((k, v) ∷ m) ((j, w) ∷ n) a b h =
    let heads = heads-eq k j v w m n a.0 b.0 (h k) (h j) in
    let tails =
      Map-ext m n a.1 b.1
        (λ i. ground (arith, h i, heads, lookup-above k m a.0, lookup-above j n b.0)) in
    rw (heads.0, heads.1, tails)

tally-perm :
    (running : Map Balance) {cs ds : Map Commitment}
    → Permᴰ cs ds
    → tally running cs [] ≡ tally running ds []
tally-perm running {cs} {ds} p =
    Map-ext (tally running cs []) (tally running ds []) (tally_keys-Ascending running cs)
      (tally_keys-Ascending running ds)
      λ k.
        rw (
          lookup-tally k running cs,
          lookup-tally k running ds,
          votes-permᴰ k p,
          is_named-permᴰ k p,
        )

-- Two orders of the same commitments elect the same accounts with the same weights, in the same order.
pub elect-perm :
    (n : ℕ) (running : Map Balance) (cs ds : Map Commitment)
    → Perm cs ds
    → elect n running cs ≡ elect n running ds
unfolding elect
elect-perm n running cs ds p =
    ∥∥₁_elim p (Map-set _ _) λ q. ap (λ m. take n (sort_by_weight m)) (tally-perm running q)
