-- ===== src/Evm/Accounts/Lookups.antt =====
-- `EvmAddressMapping` of modules/evm-accounts/src/lib.rs: from an account to its address and back.
use chain_upgrade.Base.{◌≡◌, ◌<◌, ◌^◌, inl, inr, none, some, Option-cases, arith}
use chain_upgrade.Base.Map.{lookup, lookup-insert}
use chain_upgrade.Substrate.{AccountId}
use chain_upgrade.Evm.Meter.{EvmAddress}
use chain_upgrade.Evm.Accounts.Linked.{IsLinked, default_of}
use chain_upgrade.Evm.Accounts.Mapping.{
  padded, tagged_address, State, Externals, get_evm_address, get_account_id,
  get_or_create_evm_address,
}

tagged_address-padded : (a : EvmAddress) → a < 2 ^ 160 → tagged_address (padded a) ≡ some a
tagged_address-padded a h = ground arith

module _ (World : Type 0) (externals : Externals World) where
  -- An address of 20 bytes that nobody has claimed stands for its padded account, and that account has
  -- the address, unless it has claimed another.
  pub lookup-padded :
      (a : EvmAddress) (s : State World)
      → a < 2 ^ 160
      → lookup a s.accounts ≡ none
      → lookup (padded a) s.evm_addresses ≡ none
      → (get_account_id World externals a s ≡ padded a)
        × (get_evm_address World externals (padded a) s ≡ some a)
  unfolding get_account_id get_evm_address
  lookup-padded a s h n m = (ground arith, ground (arith, tagged_address-padded a h))

  -- An account without the tag gets, by `get_or_create_evm_address`, an address that stands for it,
  -- and gets the same address when asked again, in storage where the maps mirror each other.
  pub create_lookup :
      (Known : AccountId → Type 0) (who : AccountId) (s : State World)
      → IsLinked World externals Known s
      → tagged_address who ≡ none
      → (get_account_id World externals
            (get_or_create_evm_address World externals who s).0
            (get_or_create_evm_address World externals who s).1
          ≡ who)
        × (get_or_create_evm_address World externals who
              (get_or_create_evm_address World externals who s).1
            ≡ get_or_create_evm_address World externals who s)
  unfolding get_or_create_evm_address get_account_id get_evm_address
  create_lookup Known who s h n = elim (Option-cases (lookup who s.evm_addresses)) [
    | inl m ↦
        (let d = default_of World externals Known who in
          ground (arith, lookup-insert d d who s.accounts, lookup-insert who who d s.evm_addresses))
    | inr (a, m) ↦ ground (arith, h.forth who a m)
  ]
