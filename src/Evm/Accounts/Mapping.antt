-- ===== src/Evm/Accounts/Mapping.antt =====
-- The storage, the calls, `EvmAddressMapping`, `CallKillAccount` and the lookup of
-- modules/evm-accounts/src/lib.rs. An account id is its 32 bytes and an address its 20 bytes, each as one
-- number with the first byte highest. `T::AddressMapping` is `EvmAddressMapping`, as in runtime/src/lib.rs.
use chain_upgrade.Base.{
  ℕ, ◌+◌, ◌*◌, ◌/◌, ◌%◌, ◌^◌, Bool, false, not, ◌||◌, List, [], ◌∷◌, Option, none, some, String,
  Result, ok, ◌>>=◌, ◌>>◌, ensure, ok_or, map_err, if◌then◌else◌, ◌==◌,
}
use chain_upgrade.Base.Bytes.{bytes_of}
use chain_upgrade.Base.Map.{Map, lookup, contains_key, insert, remove}
use chain_upgrade.Substrate.{AccountId, Dispatch, pallet, other}
use chain_upgrade.Evm.Meter.{EvmAddress}
use chain_upgrade.Evm.Accounts.Text.{
  Error, account_id_has_mapped, eth_address_has_mapped, bad_signature, invalid_signature,
  convert_to_ascii_hex, ethereum_signable_message,
}

pub data Event : Type 0 where
  claim_account_event : AccountId → EvmAddress → Event

pub record State (World : Type 0) : Type 0 where
  pub accounts : Map AccountId
  pub evm_addresses : Map EvmAddress
  -- The state of the other pallets.
  pub world : World
  pub events : List Event

-- What the module calls outside the repository. A transfer of all funds may kill accounts, which it
-- names, as their hook belongs to this module.
pub record Externals (World : Type 0) : Type 0 where
  pub usize_max : ℕ
  pub blake2_256 : List ℕ → ℕ
  pub keccak_256 : List ℕ → ℕ
  pub secp256k1_ecdsa_recover : List ℕ → ℕ → Option (List ℕ)
  pub account_exists : AccountId → World → Bool
  pub transfer_all : AccountId → AccountId → World → Result String (List AccountId × World)
  pub on_claim : AccountId → World → Result String World

-- b"evm:" as a number of four bytes.
abbrev pub evm_tag : ℕ
evm_tag = 1702260026

-- The tag, the address and eight bytes of zeros.
abbrev pub padded : EvmAddress → AccountId
padded address = evm_tag * 2 ^ 224 + address * 2 ^ 64

-- `data.starts_with(b"evm:")` and `data[4..24]`
abbrev pub tagged_address : AccountId → Option EvmAddress
tagged_address account_id =
    if account_id / 2 ^ 224 == evm_tag then some (account_id / 2 ^ 64 % 2 ^ 160) else none

abbrev pub or_else : Option ℕ → Option ℕ → Option ℕ
or_else (some a) o = some a
or_else none o = o

-- `MultiAddress` of sp_runtime: `lookup` tells addresses of 20 bytes from the other forms.
pub data MultiAddress : Type 0 where
  id : AccountId → MultiAddress
  address20 : EvmAddress → MultiAddress
  other_address : MultiAddress

module _ (World : Type 0) (externals : Externals World) where
  open externals use {
    usize_max, blake2_256, keccak_256, secp256k1_ecdsa_recover, account_exists, transfer_all,
    on_claim,
  }

  -- The first twenty bytes of the hash of the tag and the account.
  unfoldable pub account_to_default_evm_address : AccountId → EvmAddress
  account_to_default_evm_address account_id =
      blake2_256 (101 ∷ 118 ∷ 109 ∷ 58 ∷ bytes_of 32 account_id) / 2 ^ 96

  unfoldable pub get_account_id : EvmAddress → State World → AccountId
  get_account_id address s = elim (lookup address s.accounts) [
    | some acc ↦ acc
    | none ↦ padded address
  ]

  unfoldable pub get_evm_address : AccountId → State World → Option EvmAddress
  get_evm_address account_id s =
      or_else (lookup account_id s.evm_addresses) (tagged_address account_id)

  -- Both maps get the entry.
  abbrev pub link : AccountId → EvmAddress → State World → State World
  link account_id addr s = record s {
    accounts = insert addr account_id s.accounts;
    evm_addresses = insert account_id addr s.evm_addresses;
  }

  -- The closure of `unwrap_or_else`, where there is no address yet.
  abbrev pub or_create : AccountId → State World → Option EvmAddress → EvmAddress × State World
  or_create account_id s (some addr) = (addr, s)
  or_create account_id s none =
      let addr = account_to_default_evm_address account_id in (addr, link account_id addr s)

  unfoldable pub get_or_create_evm_address : AccountId → State World → EvmAddress × State World
  get_or_create_evm_address account_id s = or_create account_id s (get_evm_address account_id s)

  abbrev pub is_some_of : EvmAddress → Option EvmAddress → Bool
  is_some_of evm (some a) = a == evm
  is_some_of evm none = false

  unfoldable pub is_linked : AccountId → EvmAddress → State World → Bool
  is_linked account_id evm s =
      is_some_of evm (get_evm_address account_id s)
      || (account_to_default_evm_address account_id == evm)

  -- The mappings made by `get_or_create_evm_address` and, with an address, by `claim_account`.
  abbrev pub forget : AccountId → Option EvmAddress → State World → State World
  forget who none s = record s { accounts = remove (account_to_default_evm_address who) s.accounts }
  forget who (some evm_addr) s = record s {
    accounts = remove evm_addr (remove (account_to_default_evm_address who) s.accounts);
    evm_addresses = remove who s.evm_addresses;
  }

  unfoldable pub on_killed_account : AccountId → State World → State World
  on_killed_account who s = forget who (lookup who s.evm_addresses) s

  -- The hook for every account that a transfer killed.
  unfoldable pub on_killed_accounts : List AccountId → State World → State World
  on_killed_accounts [] s = s
  on_killed_accounts (who ∷ killed) s = on_killed_accounts killed (on_killed_account who s)

  -- The last twenty of the 32 bytes of the hash.
  unfoldable pub eth_recover : List ℕ → List ℕ → List ℕ → Dispatch Error EvmAddress
  eth_recover signature what extra = do
    msg ← ethereum_signable_message usize_max what extra
    key ← ok_or (secp256k1_ecdsa_recover signature (keccak_256 msg)) (pallet bad_signature)
    ok (keccak_256 key % 2 ^ 160)

  -- The address that signed for an account: `eth_recover` of the account's bytes in hexadecimal.
  unfoldable pub signer : AccountId → List ℕ → Dispatch Error EvmAddress
  signer who signature = do
    text ← convert_to_ascii_hex usize_max (bytes_of 32 who)
    eth_recover signature text []

  -- Balances of the account under which the address was known so far go to the claimer.
  unfoldable pub merge : AccountId → AccountId → State World → Dispatch Error (State World)
  merge account_id who s =
      if account_exists account_id s.world
      then (do
        moved ← map_err other (transfer_all account_id who s.world)
        ok (on_killed_accounts moved.0 (record s { world = moved.1 })))
      else ok s

  unfoldable pub claim_account :
      Dispatch Error AccountId → EvmAddress → List ℕ → State World → Dispatch Error (State World)
  claim_account origin eth_address eth_signature s = do
    who ← origin
    ensure (not (contains_key who s.evm_addresses)) (pallet account_id_has_mapped)
    ensure (not (contains_key eth_address s.accounts)) (pallet eth_address_has_mapped)
    address ← signer who eth_signature
    ensure (eth_address == address) (pallet invalid_signature)
    t ← merge (get_account_id eth_address s) who s
    let linked = link who eth_address t
    w ← map_err other (on_claim who linked.world)
    ok (record linked { world = w; events = claim_account_event who eth_address ∷ linked.events })

  -- Without `#[transactional]`: a failing hook is rolled back by the dispatch as a whole.
  unfoldable pub claim_default_account :
      Dispatch Error AccountId → State World → Dispatch Error (State World)
  claim_default_account origin s = do
    who ← origin
    ensure (not (contains_key who s.evm_addresses)) (pallet account_id_has_mapped)
    let created = get_or_create_evm_address who s
    w ← map_err other (on_claim who created.1.world)
    ok (record (created.1) {
      world = w;
      events = claim_account_event who created.0 ∷ created.1.events;
    })

  unfoldable pub lookup_source : MultiAddress → State World → Option AccountId
  lookup_source (address20 i) s = some (get_account_id i s)
  lookup_source (id a) s = none
  lookup_source other_address s = none

abbrev pub unlookup : AccountId → MultiAddress
unlookup a = id a
