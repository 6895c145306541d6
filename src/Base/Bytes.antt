-- ===== src/Base/Bytes.antt =====
-- Big-endian numbers as lists of bytes, and slices of lists.
use Prim.Native.Nat.{ℕ, zero, suc, ◌+◌, ◌-◌, ◌*◌, ◌/◌, ◌%◌}
use mathlib.Core.Path.{◌≡◌, refl, sym, ap, ◌∙◌, subst}
use mathlib.Core.List.{List, [], ◌∷◌, ◌++◌}
use native.Mathlib.Omega.{arith}
use chain_upgrade.Base.Lists.{length, length-append, take, drop}

-- The last `n` bytes of a number, the highest first.
unfoldable pub bytes_of : ℕ → ℕ → List ℕ
bytes_of zero x = []
bytes_of (suc n) x = bytes_of n (x / 256) ++ (x % 256) ∷ []

-- A big-endian number after the bytes read so far.
unfoldable pub from_be : ℕ → List ℕ → ℕ
from_be acc [] = acc
from_be acc (b ∷ bytes) = from_be (acc * 256 + b) bytes

-- `xs[start..end]`, for `start ≤ end ≤ xs.len()`.
abbrev pub slice {ℓ} : {A : Type ℓ} → ℕ → ℕ → List A → List A
slice start end xs = take (end - start) (drop start xs)

-- How often a number is divided by 256 before it vanishes is at most `n`.
unfoldable pub BytesBelow : ℕ → ℕ → Type 0
BytesBelow zero x = x ≡ 0
BytesBelow (suc n) x = BytesBelow n (x / 256)

pub length-bytes_of : (n x : ℕ) → length (bytes_of n x) ≡ n
unfolding bytes_of
length-bytes_of zero x = refl
length-bytes_of (suc n) x =
    omega
      (arith, length-append (bytes_of n (x / 256)) ((x % 256) ∷ []), length-bytes_of n (x / 256))

pub from_be-append :
    (acc : ℕ) (xs : List ℕ) (b : ℕ) → from_be acc (xs ++ b ∷ []) ≡ from_be acc xs * 256 + b
unfolding from_be
from_be-append acc [] b = refl
from_be-append acc (x ∷ xs) b = from_be-append (acc * 256 + x) xs b

pub from_be-bytes_of : (n x : ℕ) → BytesBelow n x → from_be 0 (bytes_of n x) ≡ x
unfolding from_be bytes_of BytesBelow
from_be-bytes_of zero x h = sym h
from_be-bytes_of (suc n) x h =
    omega (arith, from_be-append 0 (bytes_of n (x / 256)) (x % 256), from_be-bytes_of n (x / 256) h)

pub take_append {ℓ} : {A : Type ℓ} (xs ys : List A) → take (length xs) (xs ++ ys) ≡ xs
take_append [] ys = refl
take_append (x ∷ xs) ys = ap (◌∷◌ x) (take_append xs ys)

pub drop_append {ℓ} : {A : Type ℓ} (xs ys : List A) → drop (length xs) (xs ++ ys) ≡ ys
drop_append [] ys = refl
drop_append (x ∷ xs) ys = drop_append xs ys

pub slice_middle :
    (start n : ℕ) (xs ys zs : List ℕ)
    → length xs ≡ start
    → length ys ≡ n
    → slice start (start + n) (xs ++ (ys ++ zs)) ≡ ys
slice_middle start n xs ys zs p q =
    subst (λ k. take (start + n - start) (drop k (xs ++ (ys ++ zs))) ≡ ys) p
      (subst (λ k. take k (drop (length xs) (xs ++ (ys ++ zs))) ≡ ys) (omega (arith, q))
        (ap (take (length ys)) (drop_append xs (ys ++ zs)) ∙ take_append ys zs))
