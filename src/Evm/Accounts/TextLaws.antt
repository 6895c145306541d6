-- ===== src/Evm/Accounts/TextLaws.antt =====
-- What the text of a claim says can be read back: the hexadecimal digits and the length.
use chain_upgrade.Base.{
  ℕ, zero, suc, ◌+◌, ◌-◌, ◌*◌, ◌/◌, ◌%◌, ◌≡◌, ◌≤◌, ◌<◌, refl, sym, ap, ◌∙◌, ◌&&◌, List, [], ◌∷◌,
  ◌++◌, Option, none, some, ok, if◌then◌else◌, ltb, leb, length, length-append, All, arith,
}
use chain_upgrade.Evm.Accounts.Text.{
  push_nibble, push_bytes, convert_to_ascii_hex, prefix, ethereum_prefix, push_digits,
  message_length, extend_reversed, ethereum_signable_message,
}

-- The value of a hexadecimal digit.
unfoldable pub hex_value : ℕ → Option ℕ
hex_value c =
    if leb 48 c && ltb c 58
    then some (c - 48)
    else (if leb 97 c && ltb c 103 then some (c - 87) else none)

abbrev pub both : Option ℕ → Option ℕ → Option (List ℕ) → Option (List ℕ)
both (some h) (some l) (some bytes) = some ((16 * h + l) ∷ bytes)
both h l bytes = none

-- The bytes of which a text is the hexadecimal form.
unfoldable pub read_hex : List ℕ → Option (List ℕ)
unfolding hex_value
read_hex [] = some []
read_hex (h ∷ []) = none
read_hex (h ∷ l ∷ text) = both (hex_value h) (hex_value l) (read_hex text)

-- The digit of a nibble.
abbrev pub digit : ℕ → ℕ
digit n = if ltb n 10 then 48 + n else 87 + n

push_nibble-digit : (n : ℕ) (r : List ℕ) → n < 16 → push_nibble n r ≡ ok (r ++ digit n ∷ [])
unfolding push_nibble
push_nibble-digit n r h = ground arith

hex_value-digit : (n : ℕ) → n < 16 → hex_value (digit n) ≡ some n
unfolding hex_value
hex_value-digit n h = ground arith

abbrev pub digits_of : List ℕ → List ℕ
digits_of [] = []
digits_of (b ∷ bytes) = digit (b / 16) ∷ digit (b % 16) ∷ digits_of bytes

length-digits_of : (bytes : List ℕ) → length (digits_of bytes) ≡ 2 * length bytes
length-digits_of [] = refl
length-digits_of (b ∷ bytes) = omega (arith, length-digits_of bytes)

append_nil : (r : List ℕ) → r ++ [] ≡ r
append_nil [] = refl
append_nil (c ∷ r) = ap (◌∷◌ c) (append_nil r)

append_two :
    (r : List ℕ) (c d : ℕ) (text : List ℕ) → ((r ++ c ∷ []) ++ d ∷ []) ++ text ≡ r ++ c ∷ d ∷ text
append_two [] c d text = refl
append_two (b ∷ r) c d text = ap (◌∷◌ b) (append_two r c d text)

push_bytes_lem :
    (bytes r : List ℕ) → All (λ b. b < 256) bytes → push_bytes bytes r ≡ ok (r ++ digits_of bytes)
unfolding push_bytes
push_bytes_lem [] r h = ap ok (sym (append_nil r))
push_bytes_lem (b ∷ bytes) r h = cc (
  push_nibble-digit (b / 16) r (ground arith),
  push_nibble-digit (b % 16) (r ++ digit (b / 16) ∷ []) (ground arith),
  push_bytes_lem bytes ((r ++ digit (b / 16) ∷ []) ++ digit (b % 16) ∷ []) h.1,
  append_two r (digit (b / 16)) (digit (b % 16)) (digits_of bytes),
)

read_hex-digits_of :
    (bytes : List ℕ) → All (λ b. b < 256) bytes → read_hex (digits_of bytes) ≡ some bytes
unfolding read_hex
read_hex-digits_of [] h = refl
read_hex-digits_of (b ∷ bytes) h =
    ground (arith, hex_value-digit (b / 16), hex_value-digit (b % 16), read_hex-digits_of bytes h.1)

-- Bytes whose text has fewer than half as many digits as an address of the machine has values are
-- converted without error, into two digits a byte, which read back as the bytes.
pub read_hex-convert_to_ascii_hex :
    (usize_max : ℕ) (bytes : List ℕ)
    → All (λ b. b < 256) bytes
    → 2 * length bytes < usize_max / 2
    → (text : List ℕ) × (convert_to_ascii_hex usize_max bytes ≡ ok text)
      × (length text ≡ 2 * length bytes)
      × (read_hex text ≡ some bytes)
unfolding convert_to_ascii_hex
read_hex-convert_to_ascii_hex usize_max bytes h fits = (
  digits_of bytes,
  ground (arith, push_bytes_lem bytes [] h),
  length-digits_of bytes,
  read_hex-digits_of bytes h,
)

-- The number that a text begins with, and what follows it.
unfoldable pub read_number : ℕ → List ℕ → ℕ × List ℕ
read_number acc [] = (acc, [])
read_number acc (c ∷ text) =
    let rest = read_number (acc * 10 + (c - 48)) text in
    if leb 48 c && ltb c 58 then rest else (acc, c ∷ text)

abbrev pub value_reversed : List ℕ → ℕ
value_reversed [] = 0
value_reversed (c ∷ cs) = value_reversed cs * 10 + (c - 48)

abbrev pub AreDigits : List ℕ → Type 0
AreDigits cs = All (λ c. (48 ≤ c) × (c < 58)) cs

push_digits-value : (fuel l : ℕ) → l ≤ fuel → value_reversed (push_digits fuel l) ≡ l
unfolding push_digits
push_digits-value zero l h = omega arith
push_digits-value (suc fuel) l h = ground (arith, push_digits-value fuel (l / 10))

push_digits-AreDigits : (fuel l : ℕ) → AreDigits (push_digits fuel l)
unfolding push_digits
push_digits-AreDigits zero l = tt
push_digits-AreDigits (suc fuel) l = ground (arith, push_digits-AreDigits fuel (l / 10))

read_number-extend_reversed :
    (rev v : List ℕ)
    → AreDigits rev
    → read_number 0 (extend_reversed rev v) ≡ read_number (value_reversed rev) v
unfolding extend_reversed read_number
read_number-extend_reversed [] v h = refl
read_number-extend_reversed (c ∷ rev) v h =
    ground (arith, read_number-extend_reversed rev (c ∷ v) h.1)

read_number-prefix : (n : ℕ) (text : List ℕ) → read_number n (prefix ++ text) ≡ (n, prefix ++ text)
unfolding read_number
read_number-prefix n text = refl

abbrev pub signed_length : List ℕ → List ℕ → ℕ
signed_length what extra = length (prefix ++ what ++ extra)

message_length_lem :
    (usize_max : ℕ) (what extra : List ℕ)
    → signed_length what extra ≤ usize_max
    → message_length usize_max what extra ≡ some (signed_length what extra)
message_length_lem usize_max what extra h = ground (arith, length-append what extra)

read_number-push_digits :
    (l : ℕ) (text : List ℕ)
    → read_number 0 (extend_reversed (push_digits l l) (prefix ++ text)) ≡ (l, prefix ++ text)
read_number-push_digits l text =
    read_number-extend_reversed (push_digits l l) (prefix ++ text) (push_digits-AreDigits l l)
    ∙ ap (λ n. read_number n (prefix ++ text)) (push_digits-value l l (omega arith))
    ∙ read_number-prefix l text

-- A message within the range of the machine is made without error: it is the prefix of Ethereum, the
-- number of bytes of the signed text in decimal digits, and that text, so that reading the number
-- leaves just the text.
pub read_number-ethereum_signable_message :
    (usize_max : ℕ) (what extra : List ℕ)
    → length (prefix ++ what ++ extra) ≤ usize_max
    → (rest : List ℕ) × (ethereum_signable_message usize_max what extra
        ≡ ok (ethereum_prefix ++ rest))
      × (read_number 0 rest ≡ (length (prefix ++ what ++ extra), prefix ++ what ++ extra))
unfolding ethereum_signable_message
read_number-ethereum_signable_message usize_max what extra h = (
  extend_reversed (push_digits (signed_length what extra) (signed_length what extra))
      (prefix ++ what ++ extra),
  ground (arith, message_length_lem usize_max what extra h),
  read_number-push_digits (signed_length what extra) (what ++ extra),
)
