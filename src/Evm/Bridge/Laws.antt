-- ===== src/Evm/Bridge/Laws.antt =====
-- Texts that `decode_string` of modules/evm-bridge/src/lib.rs reads, and outputs that stop it.
use chain_upgrade.Base.{
  ℕ, ◌+◌, ◌-◌, ◌%◌, ◌≡◌, ◌≤◌, ◌<◌, ◌↔◌, refl, ap, subst, true, List, [], ◌++◌, ok, err, length,
  length-append, take, leb, ◌&&◌, ◌==◌, arith,
}
use mathlib.Core.List.{append_assoc}
use chain_upgrade.Base.Bytes.{
  bytes_of, BytesBelow, from_be, slice, length-bytes_of, from_be-bytes_of, slice_middle,
}
use chain_upgrade.Evm.Bridge.Abi.{panic, index, decode_string}

-- The encoding of a text: where its description starts, its length, and the bytes up to a full word.
abbrev pub encode_string : List ℕ → List ℕ → List ℕ
encode_string text padding = bytes_of 32 32 ++ (bytes_of 32 (length text) ++ (text ++ padding))

index_middle :
    (start end : ℕ) (xs ys zs : List ℕ)
    → length xs ≡ start
    → start + length ys ≡ end
    → index start end (xs ++ (ys ++ zs)) ≡ ok ys
unfolding index
index_middle start end xs ys zs p q = ground (
  arith,
  slice_middle start (end - start) xs ys zs p,
  length-append xs (ys ++ zs),
  length-append ys zs,
)

-- The reading of a text whose parts are where they have to be.
decode_string_parts :
    (usize_max size : ℕ) (output head word text : List ℕ)
    → 64 + size ≤ length output
    → length output % 32 ≡ 0
    → 64 + size ≤ usize_max
    → index 0 32 output ≡ ok head
    → from_be 0 head ≡ 32
    → index 32 64 output ≡ ok word
    → from_be 0 word ≡ size
    → slice 64 (64 + size) output ≡ text
    → decode_string usize_max output ≡ ok text
unfolding decode_string
decode_string_parts usize_max size output head word text long whole fits p o q s t =
    let a : (leb 64 (length output) && (length output % 32 == 0)) ≡ true = ground arith in
    let b : leb 32 usize_max ≡ true = ground arith in
    let c : leb 64 usize_max ≡ true = ground arith in
    let d : leb size usize_max ≡ true = ground arith in
    let e : leb (64 + size) usize_max ≡ true = ground arith in
    let f : leb (64 + size) (length output) ≡ true = ground arith in
    let g : leb 64 (64 + size) ≡ true = ground arith in
    simp (a, p, o, b, c, q, s, d, e, g, f) (ap ok t)

word_below : BytesBelow 32 32
unfolding BytesBelow
word_below = refl

-- A text in the encoding of contracts is read back, if the machine has numbers for its end.
pub decode_string-encode_string :
    (usize_max : ℕ) (text padding : List ℕ)
    → (length text + length padding) % 32 ≡ 0
    → BytesBelow 32 (length text)
    → 64 + length text ≤ usize_max
    → decode_string usize_max (encode_string text padding) ≡ ok text
unfolding decode_string bytes_of
decode_string-encode_string usize_max text padding whole small fits =
    let rest = text ++ padding in
    let word = bytes_of 32 (length text) in
    let first = length-bytes_of 32 32 in
    let second = length-bytes_of 32 (length text) in
    let total : length (encode_string text padding) ≡ 64 + (length text + length padding) = omega (
      arith,
      first,
      second,
      length-append (bytes_of 32 32) (word ++ rest),
      length-append word rest,
      length-append text padding,
    ) in
    decode_string_parts usize_max (length text) (encode_string text padding) (bytes_of 32 32) word
      text (omega (arith, total)) (omega (arith, total)) fits
      (index_middle 0 32 [] (bytes_of 32 32) (word ++ rest) refl first)
      (from_be-bytes_of 32 32 word_below)
      (index_middle 32 64 (bytes_of 32 32) word rest first (omega (arith, second)))
      (from_be-bytes_of 32 (length text) small)
      (subst (λ l. slice 64 (64 + length text) l ≡ text) (append_assoc (bytes_of 32 32) word rest)
        (slice_middle 64 (length text) (bytes_of 32 32 ++ word) text padding
          (omega (arith, first, second, length-append (bytes_of 32 32) word)) refl))

-- An output of whole words, two at least, whose first word is a number that the machine can add 32 to,
-- stops the program exactly if the output ends before that word and 32 bytes more.
pub decode_string_panic :
    (usize_max : ℕ) (output : List ℕ)
    → 64 ≤ length output
    → length output % 32 ≡ 0
    → from_be 0 (take 32 output) + 32 ≤ usize_max
    → (decode_string usize_max output ≡ err panic)
      ↔ (length output < from_be 0 (take 32 output) + 32)
unfolding decode_string index
decode_string_panic usize_max output long whole fits =
    ((λ e. ground arith), (λ short. ground arith))
