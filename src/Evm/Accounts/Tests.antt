-- ===== src/Evm/Accounts/Tests.antt =====
-- A small world for modules/evm-accounts/src/lib.rs: accounts 1 and 2 and a padded one, runs of the calls,
-- and the theorems at concrete inputs.
use chain_upgrade.Base.{
  ℕ, ◌+◌, ◌*◌, ◌^◌, ◌%◌, ◌≡◌, ◌≢◌, ◌≤◌, ◌⊎◌, inl, inr, refl, ap, ◌∙◌, subst, Result-cases,
  Bool-cases, true, List, [], ◌∷◌, ◌++◌, some, ok, ◌==◌, if◌then◌else◌, length, All, settle, arith,
  u32_max,
}
use chain_upgrade.Base.Bytes.{bytes_of}
use chain_upgrade.Base.Map
use chain_upgrade.Base.Map.{lookup}
use chain_upgrade.Substrate.{AccountId, Dispatch}
use chain_upgrade.Evm.Accounts.Text
use chain_upgrade.Evm.Accounts.Text.{
  convert_to_ascii_hex, ethereum_signable_message, prefix, ethereum_prefix, Error,
}
use chain_upgrade.Evm.Accounts.TextLaws.{
  read_hex, read_number, read_hex-convert_to_ascii_hex, read_number-ethereum_signable_message,
}
use chain_upgrade.Evm.Accounts.Mapping
use chain_upgrade.Evm.Accounts.Mapping.{
  State, Externals, padded, tagged_address, get_account_id, get_evm_address, is_linked, signer,
  claim_account, get_or_create_evm_address, lookup_source, address20,
}
use chain_upgrade.Evm.Accounts.Linked.{IsLinked, default_of}
use chain_upgrade.Evm.Accounts.Claims.{claim_account_lookup}
use chain_upgrade.Evm.Accounts.Runs.{
  Step, claim_account_step, claim_default_account_step, create_step, empty, step, run, Knows,
  empty-run-IsLinked,
}
use chain_upgrade.Evm.Accounts.Lookups.{create_lookup}

abbrev last : List ℕ → ℕ
last [] = 0
last (b ∷ []) = b
last (b ∷ c ∷ bytes) = last (c ∷ bytes)

-- A signature is its own key, and addresses of keys are from 1000 to 1009.
abbrev externals : Externals ℕ
externals = record {
  usize_max = u32_max;
  blake2_256 = λ bytes. last bytes * 2 ^ 96;
  keccak_256 = λ bytes. 1000 + length bytes % 10;
  secp256k1_ecdsa_recover = λ signature hash. some signature;
  account_exists = λ a w. a == padded 1003;
  transfer_all = λ from to w. ok (if from == padded 1003 then from ∷ [] else [], w + 1);
  on_claim = λ who w. ok w;
}

abbrev Known : AccountId → Type 0
Known w = (w ≡ 1) ⊎ ((w ≡ 2) ⊎ (w ≡ padded 1003))

abbrev signature : List ℕ
signature = 7 ∷ 7 ∷ 7 ∷ []

-- 1 gets its default address, 2 claims the address 1003 and then asks for a default one, which fails.
abbrev history : List Step
history =
    create_step 1
    ∷ claim_account_step (ok 2) 1003 signature
    ∷ claim_default_account_step (ok 2)
    ∷ []

abbrev start : State ℕ
start = empty 0

abbrev reached : State ℕ
reached = run ℕ externals start history

reached_accounts : reached.accounts ≡ (1, 1) ∷ (1003, 2) ∷ []
unfolding run step Mapping.claim_default_account lookup claim_account get_or_create_evm_address
    get_evm_address Map.insert Mapping.account_to_default_evm_address bytes_of signer
    convert_to_ascii_hex Text.push_bytes Text.push_nibble Mapping.eth_recover
    ethereum_signable_message Mapping.merge Map.remove get_account_id Mapping.on_killed_account
    Mapping.on_killed_accounts Text.extend_reversed Text.push_digits
reached_accounts = refl

default_of_one : default_of ℕ externals Known 1 ≡ 1
unfolding Mapping.account_to_default_evm_address bytes_of
default_of_one = refl

default_of_two : default_of ℕ externals Known 2 ≡ 2
unfolding Mapping.account_to_default_evm_address bytes_of
default_of_two = refl

default_of-padded : default_of ℕ externals Known (padded 1003) ≡ 0
unfolding Mapping.account_to_default_evm_address bytes_of
default_of-padded = refl

hex_two : convert_to_ascii_hex u32_max (1 ∷ 171 ∷ []) ≡ ok (48 ∷ 49 ∷ 97 ∷ 98 ∷ [])
unfolding convert_to_ascii_hex Text.push_bytes Text.push_nibble
hex_two = refl

Known-cases :
    (w : AccountId)
    → Known w
    → ((w ≡ 1) × (default_of ℕ externals Known w ≡ 1))
      ⊎ (((w ≡ 2) × (default_of ℕ externals Known w ≡ 2))
          ⊎ ((w ≡ padded 1003) × (default_of ℕ externals Known w ≡ 0)))
Known-cases w (inl e) = inl (e, ap (default_of ℕ externals Known) e ∙ default_of_one)
Known-cases w (inr (inl e)) = inr (inl (e, ap (default_of ℕ externals Known) e ∙ default_of_two))
Known-cases w (inr (inr e)) = inr (inr (e, ap (default_of ℕ externals Known) e ∙ default_of-padded))

signer_range : (who : AccountId) (s : List ℕ) (a : ℕ) → signer ℕ externals who s ≡ ok a → 1000 ≤ a
unfolding signer Mapping.eth_recover
signer_range who s a e = elim (Result-cases (convert_to_ascii_hex u32_max (bytes_of 32 who))) [
  | inr (why, p) ↦ ground arith
  | inl (text, p) ↦ elim (Result-cases (ethereum_signable_message u32_max text [])) [
    | inr (why, q) ↦ ground arith
    | inl (msg, q) ↦ ground arith
  ]
]

inj :
    (w x : AccountId)
    → Known w
    → Known x
    → default_of ℕ externals Known w ≡ default_of ℕ externals Known x
    → w ≡ x
inj w x k l e = ground (arith, Known-cases w k, Known-cases x l)

no_key :
    (who w : AccountId) (s : List ℕ) (a : ℕ)
    → Known w
    → signer ℕ externals who s ≡ ok a
    → default_of ℕ externals Known w ≢ a
no_key who w s a k e clash = ground (arith, Known-cases w k, signer_range who s a e)

kills :
    (from to : AccountId) (v w : ℕ) (killed : List AccountId)
    → externals.transfer_all from to v ≡ ok (killed, w)
    → All Known killed
kills from to v w killed e = elim (Bool-cases (from == padded 1003)) [
  | inl b ↦
      let same : from ∷ [] ≡ killed = ground arith in
      subst (All Known) same (inr (inr (ground arith)), tt)
  | inr b ↦ let same : [] ≡ killed = ground arith in subst (All Known) same tt
]

claims-Knows : All (Knows Known) history
claims-Knows =
    (inl refl, ((λ who e. inr (inl (ground arith))), ((λ who e. inr (inl (ground arith))), tt)))

empty-run-IsLinked_example : IsLinked ℕ externals Known (run ℕ externals (empty 0) history)
empty-run-IsLinked_example =
    empty-run-IsLinked ℕ externals Known inj no_key kills 0 history claims-Knows

abbrev second : Dispatch Error AccountId
second = ok 2

abbrev claimed : State ℕ
claimed = settle start (claim_account ℕ externals second 1003 signature start)

claim_ok : claim_account ℕ externals second 1003 signature start ≡ ok claimed
unfolding claim_account lookup signer convert_to_ascii_hex bytes_of Text.push_bytes Text.push_nibble
    Mapping.eth_recover ethereum_signable_message Mapping.merge get_account_id
claim_ok = refl

claim_account_lookup_example :
    (who : AccountId) × (second ≡ ok who)
    × (signer ℕ externals who signature ≡ ok 1003)
    × (get_account_id ℕ externals 1003 claimed ≡ who)
    × (get_evm_address ℕ externals who claimed ≡ some 1003)
    × (is_linked ℕ externals who 1003 claimed ≡ true)
    × (lookup_source ℕ externals (address20 1003) claimed ≡ some who)
claim_account_lookup_example =
    claim_account_lookup ℕ externals second 1003 signature start claimed claim_ok

create_lookup_example :
    (get_account_id ℕ externals
        (get_or_create_evm_address ℕ externals 5 reached).0
        (get_or_create_evm_address ℕ externals 5 reached).1
      ≡ 5)
    × (get_or_create_evm_address ℕ externals 5 (get_or_create_evm_address ℕ externals 5 reached).1
        ≡ get_or_create_evm_address ℕ externals 5 reached)
create_lookup_example = create_lookup ℕ externals Known 5 reached empty-run-IsLinked_example refl

read_hex-convert_to_ascii_hex_example :
    (text : List ℕ) × (convert_to_ascii_hex u32_max (1 ∷ 171 ∷ []) ≡ ok text)
    × (length text ≡ 4)
    × (read_hex text ≡ some (1 ∷ 171 ∷ []))
read_hex-convert_to_ascii_hex_example =
    read_hex-convert_to_ascii_hex u32_max (1 ∷ 171 ∷ []) (omega arith, (omega arith, tt))
      (omega arith)

read_number-ethereum_signable_message_example :
    (rest : List ℕ) × (ethereum_signable_message u32_max (65 ∷ []) (66 ∷ [])
      ≡ ok (ethereum_prefix ++ rest))
    × (read_number 0 rest ≡ (11, prefix ++ 65 ∷ 66 ∷ []))
read_number-ethereum_signable_message_example =
    read_number-ethereum_signable_message u32_max (65 ∷ []) (66 ∷ []) (omega arith)
