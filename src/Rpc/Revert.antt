-- ===== src/Rpc/Revert.antt =====
-- The reason of a revert that modules/evm/rpc/src/lib.rs decodes for the message of an error.
use chain_upgrade.Base.{
  ℕ, ◌+◌, ◌≡◌, ◌≤◌, ◌<◌, ◌↔◌, refl, sym, ap, ◌∙◌, subst, List, ◌++◌, none, ok, err, if_true, ltb,
  lt→ltb, length, length-append, arith,
}
use mathlib.Core.List.{append_assoc}
use chain_upgrade.Base.Bytes.{
  bytes_of, BytesBelow, from_be, slice, slice_middle, length-bytes_of, from_be-bytes_of,
}
use chain_upgrade.Rpc.Requests.{panic, Machine, message_end, text_until, decode_revert_message}

module _ (m : Machine) where
  message_end_small : (x : ℕ) → 68 + x ≤ m.usize_max → message_end m x ≡ 68 + x
  message_end_small x h = ground arith

  message_end_over : (x : ℕ) → 68 ≤ m.usize_max → m.usize_max < 68 + x → message_end m x < 68
  message_end_over x room h = ground arith

  over_of : (x : ℕ) → message_end m x < 68 → m.usize_max < 68 + x
  over_of x h = ground arith

  text_until_inside :
      (n : ℕ) (bytes : List ℕ)
      → 68 ≤ n
      → n ≤ length bytes
      → text_until m n bytes ≡ ok (m.from_utf8 (slice 68 n bytes))
  text_until_inside n bytes low high = ground arith

  text_until_panic :
      (n : ℕ) (bytes : List ℕ) → 68 < length bytes → (text_until m n bytes ≡ err panic) ↔ (n < 68)
  text_until_panic n bytes long = ((λ e. ground arith), (λ low. ground arith))

  decode_long :
      (bytes : List ℕ)
      → 68 < length bytes
      → decode_revert_message m bytes
        ≡ text_until m (message_end m (from_be 0 (slice 36 68 bytes))) bytes
  unfolding decode_revert_message
  decode_long bytes long =
      if_true (ltb 68 (length bytes))
        (text_until m (message_end m (from_be 0 (slice 36 68 bytes))) bytes) (ok none)
        (lt→ltb 68 (length bytes) long)

-- The text of an encoded reason is found, in a machine that has numbers for the bytes of the whole.
pub decode_revert_message_lem :
    (m : Machine) (head text padding : List ℕ)
    → length head ≡ 36
    → 0 < length text
    → BytesBelow 32 (length text)
    → 68 + (length text + length padding) ≤ m.usize_max
    → decode_revert_message m (head ++ (bytes_of 32 (length text) ++ (text ++ padding)))
      ≡ ok (m.from_utf8 text)
decode_revert_message_lem m head text padding p some_text small fits =
    let word = bytes_of 32 (length text) in
    let bytes = head ++ (word ++ (text ++ padding)) in
    let total : length bytes ≡ 68 + (length text + length padding) = omega (
      arith,
      p,
      length-bytes_of 32 (length text),
      length-append head (word ++ (text ++ padding)),
      length-append word (text ++ padding),
      length-append text padding,
    ) in
    let number : from_be 0 (slice 36 68 bytes) ≡ length text =
      ap (from_be 0)
        (slice_middle 36 32 head word (text ++ padding) p (length-bytes_of 32 (length text)))
      ∙ from_be-bytes_of 32 (length text) small in
    let end : message_end m (from_be 0 (slice 36 68 bytes)) ≡ 68 + length text =
      ap (message_end m) number ∙ message_end_small m (length text) (omega (arith, fits)) in
    let found : slice 68 (68 + length text) bytes ≡ text =
      subst (λ l. slice 68 (68 + length text) l ≡ text) (append_assoc head word (text ++ padding))
        (slice_middle 68 (length text) (head ++ word) text padding
          (omega (arith, p, length-bytes_of 32 (length text), length-append head word)) refl) in
    decode_long m bytes (omega (arith, total, some_text))
    ∙ ap (λ n. text_until m n bytes) end
    ∙ text_until_inside m (68 + length text) bytes (omega arith) (omega (arith, total))
    ∙ ap (λ t. ok (m.from_utf8 t)) found

-- Bytes with at least one after the first 68 stop the node's thread exactly if the number in the third word
-- is so large that the machine has no number for the end of the text.
pub decode_revert_message_panic :
    (m : Machine) (bytes : List ℕ)
    → 68 < length bytes
    → length bytes ≤ m.usize_max
    → (decode_revert_message m bytes ≡ err panic)
      ↔ (m.usize_max < 68 + from_be 0 (slice 36 68 bytes))
decode_revert_message_panic m bytes long fits =
    let x = from_be 0 (slice 36 68 bytes) in
    let (low, stops) = text_until_panic m (message_end m x) bytes long in
    (
      (λ e. over_of m x (low (sym (decode_long m bytes long) ∙ e))),
      (λ over.
          decode_long m bytes long ∙ stops (message_end_over m x (omega (arith, long, fits)) over)),
    )
