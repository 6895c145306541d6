-- ===== src/Poc/Search.antt =====
-- The binary search of `stop_candidacy` finds exactly the members of a sorted list.
use chain_upgrade.Base.{
  ℕ, zero, suc, ◌/◌, ◌≡◌, ◌≤◌, ◌<◌, refl, ap, ◌∙◌, ◌⊎◌, inl, inr, Bool, true, false, ◌||◌, List, [],
  ◌∷◌, ◌++◌, arith, ltb, length, take, drop, take-append-drop, length-take, length-drop, All,
  Ascending, elem,
}
use chain_upgrade.Substrate.{AccountId}
use chain_upgrade.Poc.Calls.{bisect, binary_search}

elem-append : (x : ℕ) (xs ys : List ℕ) → elem x (xs ++ ys) ≡ (elem x xs || elem x ys)
unfolding elem
elem-append x [] ys = refl
elem-append x (z ∷ xs) ys = ground (arith, elem-append x xs ys)

elem-below : (x y : ℕ) (xs : List ℕ) → x ≤ y → All (λ z. y < z) xs → elem x xs ≡ false
unfolding elem
elem-below x y [] h a = refl
elem-below x y (z ∷ xs) h a = ground (arith, elem-below x y xs h a.1)

elem-above : (x y : ℕ) (xs : List ℕ) → y ≤ x → All (λ z. z < y) xs → elem x xs ≡ false
unfolding elem
elem-above x y [] h a = refl
elem-above x y (z ∷ xs) h a = ground (arith, elem-above x y xs h a.1)

All-append_split :
    (y : ℕ) (xs : List ℕ) (z : ℕ) (ys : List ℕ) → All (λ w. y < w) (xs ++ z ∷ ys) → y < z
All-append_split y [] z ys a = a.0
All-append_split y (x ∷ xs) z ys a = All-append_split y xs z ys a.1

All-append_left : (y : ℕ) (xs ys : List ℕ) → All (λ w. y < w) (xs ++ ys) → All (λ w. y < w) xs
All-append_left y [] ys a = tt
All-append_left y (x ∷ xs) ys a = (a.0, All-append_left y xs ys a.1)

-- An ascending list is ascending on both sides of each element, and separated by it.
Ascending-append :
    (xs : List ℕ) (y : ℕ) (ys : List ℕ)
    → Ascending (xs ++ y ∷ ys)
    → Ascending xs × All (λ z. z < y) xs × All (λ z. y < z) ys × Ascending ys
Ascending-append [] y ys a = (tt, tt, a.0, a.1)
Ascending-append (x ∷ xs) y ys a =
    let rest = Ascending-append xs y ys a.1 in
    (
      (All-append_left x xs (y ∷ ys) a.0, rest.0),
      (All-append_split x xs y ys a.0, rest.1),
      rest.2,
      rest.3,
    )

List-cases : (xs : List ℕ) → (xs ≡ []) ⊎ ((y : ℕ) × (ys : List ℕ) × (xs ≡ y ∷ ys))
List-cases [] = inl refl
List-cases (y ∷ ys) = inr (y, ys, refl)

-- One round of the search, over the halves and the results of the rounds that may follow.
bisect_step :
    (xs : List ℕ) (y : ℕ) (ys : List ℕ) (x : ℕ) {left right : Bool}
    → Ascending (xs ++ y ∷ ys)
    → left ≡ elem x xs
    → right ≡ elem x ys
    → (elim (ltb y x) [ true ↦ right | false ↦ elim (ltb x y) [ true ↦ left | false ↦ true ] ])
      ≡ elem x (xs ++ y ∷ ys)
unfolding elem
bisect_step xs y ys x a p q =
    let sides = Ascending-append xs y ys a in
    rw (elem-append x xs (y ∷ ys)) (ground (arith, elem-above x y xs, elem-below x y ys))

bisect-eq :
    (fuel : ℕ) (xs : List AccountId) (x : AccountId)
    → length xs < fuel
    → Ascending xs
    → bisect fuel xs x ≡ elem x xs
unfolding bisect elem
bisect-eq zero xs x h a = elim h [ ]
bisect-eq (suc fuel) [] x h a = refl
bisect-eq (suc fuel) (w ∷ ws) x h a =
    let n = length (w ∷ ws) / 2 in
    elim (List-cases (drop n (w ∷ ws))) [
      | inl e ↦ absurd (omega (arith, ap length e, length-drop n (w ∷ ws)))
      | inr (y, ys, e) ↦
          let whole : take n (w ∷ ws) ++ y ∷ ys ≡ w ∷ ws = rw (← e) (take-append-drop n (w ∷ ws)) in
          let ordered : Ascending (take n (w ∷ ws) ++ y ∷ ys) = rw whole a in
          let sides = Ascending-append (take n (w ∷ ws)) y ys ordered in
          let lower =
            bisect-eq fuel (take n (w ∷ ws)) x (omega (arith, length-take n (w ∷ ws))) sides.0 in
          let upper =
            bisect-eq fuel ys x (omega (arith, ap length e, length-drop n (w ∷ ws))) sides.3 in
          rw (e, bisect)
            (bisect_step (take n (w ∷ ws)) y ys x ordered lower upper ∙ ap (elem x) whole)
    ]

pub binary_search-eq-elem :
    (xs : List AccountId) (x : AccountId) → Ascending xs → binary_search xs x ≡ elem x xs
unfolding binary_search
binary_search-eq-elem xs x a = bisect-eq (suc (length xs)) xs x (omega arith) a
