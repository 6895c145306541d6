-- ===== src/Evm/Bridge/Tests.antt =====
-- Texts that modules/evm-bridge/src/lib.rs decodes, and witnesses of its theorems.
use chain_upgrade.Base.{
  ℕ, ◌+◌, ◌-◌, ◌%◌, ◌^◌, ◌≡◌, ◌≤◌, ◌<◌, ◌↔◌, refl, List, [], ◌∷◌, ◌++◌, ok, err, length, take,
  arith, zero, suc,
}
use chain_upgrade.Base.Bytes.{bytes_of, BytesBelow, from_be}
use chain_upgrade.Evm.Bridge.Abi.{panic, decode_string}
use chain_upgrade.Evm.Bridge.Laws.{encode_string, decode_string-encode_string, decode_string_panic}

abbrev usize_max : ℕ
usize_max = 2 ^ 64 - 1

abbrev zero_bytes : ℕ → List ℕ
zero_bytes zero = []
zero_bytes (suc n) = 0 ∷ zero_bytes n

-- "Reef"
abbrev name : List ℕ
name = 82 ∷ 101 ∷ 101 ∷ 102 ∷ []

four_below : BytesBelow 32 4
unfolding BytesBelow
four_below = refl

decode_string-encode_string_example :
    decode_string usize_max (encode_string name (zero_bytes 28)) ≡ ok name
decode_string-encode_string_example =
    decode_string-encode_string usize_max name (zero_bytes 28) refl four_below (ground arith)

-- The first word points behind the output.
abbrev pointing : List ℕ
pointing = bytes_of 32 64 ++ zero_bytes 32

pointing_long : 64 ≤ length pointing
unfolding bytes_of
pointing_long = ground arith

pointing_whole : length pointing % 32 ≡ 0
unfolding bytes_of
pointing_whole = refl

pointing_fits : from_be 0 (take 32 pointing) + 32 ≤ usize_max
unfolding bytes_of from_be
pointing_fits = ground arith

decode_string_panic_example :
    (decode_string usize_max pointing ≡ err panic)
    ↔ (length pointing < from_be 0 (take 32 pointing) + 32)
decode_string_panic_example =
    decode_string_panic usize_max pointing pointing_long pointing_whole pointing_fits
