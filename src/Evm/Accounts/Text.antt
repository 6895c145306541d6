-- ===== src/Evm/Accounts/Text.antt =====
-- The text that a claim signs: `convert_to_ascii_hex`, `push_nibble` and `ethereum_signable_message` of
-- modules/evm-accounts/src/lib.rs. Bytes are numbers below 256.
use chain_upgrade.Base.{
  ℕ, zero, suc, ◌+◌, ◌*◌, ◌/◌, ◌%◌, List, [], ◌∷◌, ◌++◌, Option, none, some, ok, ◌>>=◌, ◌>>◌,
  ensure, ok_or, if◌then◌else◌, ltb, length, checked_add, checked_sub,
}
use chain_upgrade.Substrate.{Dispatch, pallet}

pub data Error : Type 0 where
  account_id_has_mapped : Error
  eth_address_has_mapped : Error
  bad_signature : Error
  invalid_signature : Error
  non_zero_ref_count : Error
  still_has_active_reserved : Error
  num_overflow : Error
  vec_insufficient_capacity : Error

abbrev pub u8_max : ℕ
u8_max = 255

-- `b'a'.checked_sub(10).and_then(|sum| sum.checked_add(nibble))`
abbrev pub letter : ℕ → Option ℕ
letter nibble = elim (checked_sub 97 10) [ none ↦ none | some sum ↦ checked_add u8_max sum nibble ]

unfoldable pub push_nibble : ℕ → List ℕ → Dispatch Error (List ℕ)
push_nibble nibble r = do
  value ←
      ok_or (if ltb nibble 10 then checked_add u8_max 48 nibble else letter nibble)
        (pallet num_overflow)
  ok (r ++ value ∷ [])

-- The loop over the bytes.
unfoldable pub push_bytes : List ℕ → List ℕ → Dispatch Error (List ℕ)
push_bytes [] r = ok r
push_bytes (b ∷ data_left) r = do
  high ← push_nibble (b / 16) r
  both ← push_nibble (b % 16) high
  push_bytes data_left both

-- `usize_max` is that of the machine: 32 bits in the runtime, 64 in a native build.
unfoldable pub convert_to_ascii_hex : ℕ → List ℕ → Dispatch Error (List ℕ)
convert_to_ascii_hex usize_max bytes = do
  len ←
      ok_or (if ltb usize_max (length bytes * 2) then none else some (length bytes * 2))
        (pallet num_overflow)
  ensure (ltb len (usize_max / 2)) (pallet vec_insufficient_capacity)
  push_bytes bytes []

-- "reef evm:"
abbrev pub prefix : List ℕ
prefix = 114 ∷ 101 ∷ 101 ∷ 102 ∷ 32 ∷ 101 ∷ 118 ∷ 109 ∷ 58 ∷ []

-- "\x19Ethereum Signed Message:\n"
abbrev pub ethereum_prefix : List ℕ
ethereum_prefix =
    25 ∷ 69 ∷ 116 ∷ 104 ∷ 101 ∷ 114 ∷ 101 ∷ 117 ∷ 109 ∷ 32 ∷ 83 ∷ 105 ∷ 103 ∷ 110 ∷ 101 ∷ 100 ∷ 32
    ∷ 77 ∷ 101 ∷ 115 ∷ 115 ∷ 97 ∷ 103 ∷ 101 ∷ 58 ∷ 10 ∷ []

-- The loop that pushes the digits of `l`, the last one first; it takes at most `l` rounds.
unfoldable pub push_digits : ℕ → ℕ → List ℕ
push_digits zero l = []
push_digits (suc fuel) l =
    let more = push_digits fuel (l / 10) in if ltb 0 l then (48 + l % 10) ∷ more else []

-- `v.extend(rev.into_iter().rev())` before the rest of the message.
unfoldable pub extend_reversed : List ℕ → List ℕ → List ℕ
extend_reversed [] v = v
extend_reversed (c ∷ rev) v = extend_reversed rev (c ∷ v)

-- `prefix.len().checked_add(what.len()).and_then(|sum| sum.checked_add(extra.len()))`
abbrev pub message_length : ℕ → List ℕ → List ℕ → Option ℕ
message_length usize_max what extra = elim (checked_add usize_max (length prefix) (length what)) [
  | none ↦ none
  | some sum ↦ checked_add usize_max sum (length extra)
]

unfoldable pub ethereum_signable_message : ℕ → List ℕ → List ℕ → Dispatch Error (List ℕ)
ethereum_signable_message usize_max what extra = do
  l ← ok_or (message_length usize_max what extra) (pallet num_overflow)
  ok (ethereum_prefix ++ extend_reversed (push_digits l l) (prefix ++ what ++ extra))
