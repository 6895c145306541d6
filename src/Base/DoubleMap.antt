-- ===== src/Base/DoubleMap.antt =====
-- A storage double map, keyed by two numbers, as an association list.
use Prim.Native.Nat.{ℕ}
use mathlib.Core.Path.{◌≡◌, refl}
use mathlib.Core.Bool.{◌&&◌}
use mathlib.Core.Option.{Option, none, some}
use mathlib.Core.List.{List, [], ◌∷◌}
use native.Mathlib.Omega.{arith}
use chain_upgrade.Base.Tests.{◌==◌, if◌then◌else◌}

abbrev pub DoubleMap {ℓ} : Type ℓ → Type ℓ
DoubleMap V = List ((ℕ × ℕ) × V)

module _ {ℓ} {V : Type ℓ} where
  unfoldable pub lookup2 : ℕ → ℕ → DoubleMap V → Option V
  lookup2 a b [] = none
  lookup2 a b (((i, j), v) ∷ m) = if (a == i) && (b == j) then some v else lookup2 a b m

  unfoldable pub insert2 : ℕ → ℕ → V → DoubleMap V → DoubleMap V
  insert2 a b v [] = ((a, b), v) ∷ []
  insert2 a b v (((i, j), w) ∷ m) =
      if (a == i) && (b == j) then ((a, b), v) ∷ m else ((i, j), w) ∷ insert2 a b v m

  -- Removes every entry whose first key is `a`.
  unfoldable pub remove_prefix : ℕ → DoubleMap V → DoubleMap V
  remove_prefix a [] = []
  remove_prefix a (((i, j), w) ∷ m) =
      let rest = remove_prefix a m in if a == i then rest else ((i, j), w) ∷ rest

  pub lookup2-insert2 :
      (a b c d : ℕ) (v : V) (m : DoubleMap V)
      → lookup2 a b (insert2 c d v m) ≡ (if (a == c) && (b == d) then some v else lookup2 a b m)
  unfolding lookup2 insert2
  lookup2-insert2 a b c d v [] = refl
  lookup2-insert2 a b c d v (((i, j), w) ∷ m) = ground (arith, lookup2-insert2 a b c d v m)

  pub lookup2-remove_prefix :
      (a b c : ℕ) (m : DoubleMap V)
      → lookup2 a b (remove_prefix c m) ≡ (if a == c then none else lookup2 a b m)
  unfolding lookup2 remove_prefix
  lookup2-remove_prefix a b c [] = ground arith
  lookup2-remove_prefix a b c (((i, j), w) ∷ m) = ground (arith, lookup2-remove_prefix a b c m)
