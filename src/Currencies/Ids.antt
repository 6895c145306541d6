-- ===== src/Currencies/Ids.antt =====
-- The currency ids of primitives/src/lib.rs and their 32 bytes. A byte is a number below 256.
use chain_upgrade.Base.{
  ℕ, zero, suc, ◌≡◌, ◌≢◌, refl, Bool, true, false, ◌&&◌, List, [], ◌∷◌, ◌++◌, Option, none, some,
  if◌then◌else◌, ◌==◌, Option-cases, inl, inr, arith, ap, ◌∙◌, sym, subst,
}
use chain_upgrade.Evm.Meter.{EvmAddress}

pub data TokenSymbol : Type 0 where
  reef : TokenSymbol
  rusd : TokenSymbol

pub data CurrencyId : Type 0 where
  token : TokenSymbol → CurrencyId
  dex_share : TokenSymbol → TokenSymbol → CurrencyId
  erc20 : EvmAddress → CurrencyId

-- `token as u8`
abbrev pub symbol_byte : TokenSymbol → ℕ
symbol_byte reef = 0
symbol_byte rusd = 1

-- `TokenSymbol::try_from`
unfoldable pub symbol_try_from : ℕ → Option TokenSymbol
symbol_try_from v = if v == 0 then some reef else if v == 1 then some rusd else none

abbrev pub is_token_currency_id : CurrencyId → Bool
is_token_currency_id (token t) = true
is_token_currency_id (dex_share l r) = false
is_token_currency_id (erc20 a) = false

abbrev pub split_dex_share_currency_id : CurrencyId → Option (CurrencyId × CurrencyId)
split_dex_share_currency_id (dex_share l r) = some (token l, token r)
split_dex_share_currency_id (token t) = none
split_dex_share_currency_id (erc20 a) = none

abbrev pub join_tokens : TokenSymbol → CurrencyId → Option CurrencyId
join_tokens l (token r) = some (dex_share l r)
join_tokens l (dex_share a b) = none
join_tokens l (erc20 a) = none

abbrev pub join_dex_share_currency_id : CurrencyId → CurrencyId → Option CurrencyId
join_dex_share_currency_id (token l) other = join_tokens l other
join_dex_share_currency_id (dex_share a b) other = none
join_dex_share_currency_id (erc20 a) other = none

-- `n` zero bytes.
abbrev pub zeros : ℕ → List ℕ
zeros zero = []
zeros (suc n) = 0 ∷ zeros n

-- What follows `n` zero bytes, if there are so many.
abbrev pub after_zeros : ℕ → List ℕ → Option (List ℕ)
after_zeros zero v = some v
after_zeros (suc n) [] = none
after_zeros (suc n) (b ∷ v) = if b == 0 then after_zeros n v else none

abbrev pub map_token : Option TokenSymbol → Option CurrencyId
map_token none = none
map_token (some t) = some (token t)

abbrev pub map_share : Option TokenSymbol → Option TokenSymbol → Option CurrencyId
map_share none right = none
map_share (some l) none = none
map_share (some l) (some r) = some (dex_share l r)

-- The last three bytes of an id.
abbrev pub id_from : Option (List ℕ) → Option CurrencyId
id_from none = none
id_from (some []) = none
id_from (some (a ∷ [])) = none
id_from (some (a ∷ b ∷ [])) = none
id_from (some (a ∷ b ∷ c ∷ [])) =
    if (a == 0) && (c == 0)
    then map_token (symbol_try_from b)
    else if a == 1
    then map_share (symbol_try_from b) (symbol_try_from c)
    else none
id_from (some (a ∷ b ∷ c ∷ d ∷ rest)) = none

-- `CurrencyId::try_from`
unfoldable pub try_from : List ℕ → Option CurrencyId
try_from v = id_from (after_zeros 29 v)

-- The bytes of an id after 29 zeros.
abbrev pub last_bytes : CurrencyId → List ℕ
last_bytes (token t) = 0 ∷ symbol_byte t ∷ 0 ∷ []
last_bytes (dex_share l r) = 1 ∷ symbol_byte l ∷ symbol_byte r ∷ []
last_bytes (erc20 a) = 0 ∷ 0 ∷ 0 ∷ []

-- `<[u8; 32]>::from`
unfoldable pub into_bytes : CurrencyId → List ℕ
into_bytes id = zeros 29 ++ last_bytes id

-- An id reads back from its bytes, except that every contract reads back as the token REEF.
pub try_from-into_bytes :
    (id : CurrencyId)
    → try_from (into_bytes id)
      ≡ some (elim id [ erc20 a ↦ token reef | token t ↦ token t | dex_share l r ↦ dex_share l r ])
unfolding try_from into_bytes symbol_try_from
try_from-into_bytes (token reef) = refl
try_from-into_bytes (token rusd) = refl
try_from-into_bytes (dex_share reef reef) = refl
try_from-into_bytes (dex_share reef rusd) = refl
try_from-into_bytes (dex_share rusd reef) = refl
try_from-into_bytes (dex_share rusd rusd) = refl
try_from-into_bytes (erc20 a) = refl

after_zeros_lem : (n : ℕ) (v rest : List ℕ) → after_zeros n v ≡ some rest → v ≡ zeros n ++ rest
after_zeros_lem zero v rest h = ground arith
after_zeros_lem (suc n) [] rest h = ground arith
after_zeros_lem (suc n) (b ∷ v) rest h = ground (arith, after_zeros_lem n v rest)

none≢some : {A : Type 0} {a : A} → none ≢ some a
none≢some h = ground arith

symbol_byte-symbol_try_from :
    (b : ℕ) (t : TokenSymbol) → symbol_try_from b ≡ some t → symbol_byte t ≡ b
unfolding symbol_try_from
symbol_byte-symbol_try_from b reef h = ground arith
symbol_byte-symbol_try_from b rusd h = ground arith

last_bytes-token :
    (b : ℕ) (o : Option TokenSymbol) (id : CurrencyId)
    → symbol_try_from b ≡ o
    → map_token o ≡ some id
    → last_bytes id ≡ 0 ∷ b ∷ 0 ∷ []
last_bytes-token b none id p h = ground arith
last_bytes-token b (some t) id p h =
    let same : token t ≡ id = ground arith in
    subst (λ i. last_bytes i ≡ 0 ∷ b ∷ 0 ∷ []) same
      (ap (λ x. 0 ∷ x ∷ 0 ∷ []) (symbol_byte-symbol_try_from b t p))

last_bytes-share :
    (b c : ℕ) (o q : Option TokenSymbol) (id : CurrencyId)
    → symbol_try_from b ≡ o
    → symbol_try_from c ≡ q
    → map_share o q ≡ some id
    → last_bytes id ≡ 1 ∷ b ∷ c ∷ []
last_bytes-share b c none q id p r h = ground arith
last_bytes-share b c (some l) none id p r h = ground arith
last_bytes-share b c (some l) (some t) id p r h =
    let same : dex_share l t ≡ id = ground arith in
    subst (λ i. last_bytes i ≡ 1 ∷ b ∷ c ∷ []) same
      (ap (λ x. 1 ∷ x ∷ symbol_byte t ∷ []) (symbol_byte-symbol_try_from b l p)
        ∙ ap (λ x. 1 ∷ b ∷ x ∷ []) (symbol_byte-symbol_try_from c t r))

last_bytes-id_from :
    (rest : List ℕ) (id : CurrencyId) → id_from (some rest) ≡ some id → last_bytes id ≡ rest
last_bytes-id_from [] id h = ground arith
last_bytes-id_from (a ∷ []) id h = ground arith
last_bytes-id_from (a ∷ b ∷ []) id h = ground arith
last_bytes-id_from (a ∷ b ∷ c ∷ d ∷ rest) id h = ground arith
last_bytes-id_from (a ∷ b ∷ c ∷ []) id h = ground (
  arith,
  last_bytes-token b (symbol_try_from b) id refl,
  last_bytes-share b c (symbol_try_from b) (symbol_try_from c) id refl refl,
)

-- Bytes that read as an id are the bytes of that id, so no two encodings name the same one.
pub into_bytes-try_from : (v : List ℕ) (id : CurrencyId) → try_from v ≡ some id → into_bytes id ≡ v
unfolding try_from into_bytes
into_bytes-try_from v id h = elim (Option-cases (after_zeros 29 v)) [
  | inl none_left ↦ absurd (none≢some (sym (ap id_from none_left) ∙ h))
  | inr (rest, q) ↦
      ap (λ r. zeros 29 ++ r) (last_bytes-id_from rest id (sym (ap id_from q) ∙ h))
      ∙ sym (after_zeros_lem 29 v rest q)
]
