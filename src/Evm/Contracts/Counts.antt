-- ===== src/Evm/Contracts/Counts.antt =====
-- How many accounts have a contract with a given hash of code, and the count that the storage keeps of it.
use chain_upgrade.Base.{
  ℕ, ◌+◌, ◌≡◌, ◌≤◌, refl, [], ◌∷◌, Option, none, some, if◌then◌else◌, ◌==◌, length, arith,
}
use chain_upgrade.Base.Map.{Map, lookup, insert, remove}
use chain_upgrade.Evm.Meter.{EvmAddress}
use chain_upgrade.Evm.Contracts.Storage.{Hash, ContractInfo, EvmAccountInfo, CodeInfo}
use chain_upgrade.Evm.Contracts.Code.{contract_of}

-- One, if the contract has the hash.
abbrev pub points : Hash → Option ContractInfo → ℕ
points h none = 0
points h (some c) = if h == c.code_hash then 1 else 0

unfoldable pub refs : Hash → Map EvmAccountInfo → ℕ
refs h [] = 0
refs h ((j, a) ∷ m) = points h a.contract_info + refs h m

-- The stored count; a hash without an entry has none.
abbrev pub count_at : Option CodeInfo → ℕ
count_at none = 0
count_at (some info) = info.ref_count

pub refs-le-length : (h : Hash) (m : Map EvmAccountInfo) → refs h m ≤ length m
unfolding refs
refs-le-length h [] = omega arith
refs-le-length h ((j, a) ∷ m) = ground (arith, refs-le-length h m)

pub refs-insert :
    (h : Hash) (k : EvmAddress) (a : EvmAccountInfo) (m : Map EvmAccountInfo)
    → refs h (insert k a m) + points h (contract_of (lookup k m))
      ≡ refs h m + points h a.contract_info
unfolding refs lookup insert
refs-insert h k a [] = ground arith
refs-insert h k a ((j, b) ∷ m) = ground (arith, refs-insert h k a m)

pub refs-remove :
    (h : Hash) (k : EvmAddress) (m : Map EvmAccountInfo)
    → refs h (remove k m) + points h (contract_of (lookup k m)) ≡ refs h m
unfolding refs lookup remove
refs-remove h k [] = refl
refs-remove h k ((j, b) ∷ m) = ground (arith, refs-remove h k m)

pub refs-lookup :
    (k : EvmAddress) (c : ContractInfo) (m : Map EvmAccountInfo)
    → contract_of (lookup k m) ≡ some c
    → 1 ≤ refs c.code_hash m
refs-lookup k c m e = ground (arith, refs-remove c.code_hash k m)

pub length-insert_le :
    {V : Type 0} (k : ℕ) (v : V) (m : Map V) → length (insert k v m) ≤ length m + 1
unfolding insert
length-insert_le k v [] = omega arith
length-insert_le k v ((j, w) ∷ m) = ground (arith, length-insert_le k v m)

pub length-remove_le : {V : Type 0} (k : ℕ) (m : Map V) → length (remove k m) ≤ length m
unfolding remove
length-remove_le k [] = omega arith
length-remove_le k ((j, w) ∷ m) = ground (arith, length-remove_le k m)
