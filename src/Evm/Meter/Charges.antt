-- ===== src/Evm/Meter/Charges.antt =====
-- What a tree of activities charges, read off the tree: the sums and the list of the charges.
use chain_upgrade.Base.{ℕ, ◌+◌, ◌≡◌, true, List, [], ◌∷◌, ◌++◌, arith}
use chain_upgrade.Evm.Meter.{EvmAddress}
use chain_upgrade.Evm.Meter.Runs.{Acts, done, charges, refunds, sub}

-- What one level uses and gives back itself, and with all the calls below it.
abbrev pub self_used : Acts → ℕ
self_used done = 0
self_used (charges n rest) = n + self_used rest
self_used (refunds n rest) = self_used rest
self_used (sub c commits inner rest) = self_used rest

abbrev pub self_refunded : Acts → ℕ
self_refunded done = 0
self_refunded (charges n rest) = self_refunded rest
self_refunded (refunds n rest) = n + self_refunded rest
self_refunded (sub c commits inner rest) = self_refunded rest

abbrev pub total_used : Acts → ℕ
total_used done = 0
total_used (charges n rest) = n + total_used rest
total_used (refunds n rest) = total_used rest
total_used (sub c commits inner rest) = total_used inner + total_used rest

abbrev pub total_refunded : Acts → ℕ
total_refunded done = 0
total_refunded (charges n rest) = total_refunded rest
total_refunded (refunds n rest) = n + total_refunded rest
total_refunded (sub c commits inner rest) = total_refunded inner + total_refunded rest

-- Every call commits.
abbrev pub AllCommit : Acts → Type 0
AllCommit done = Unit
AllCommit (charges n rest) = AllCommit rest
AllCommit (refunds n rest) = AllCommit rest
AllCommit (sub c commits inner rest) = (commits ≡ true) × AllCommit inner × AllCommit rest

-- One charge for a contract: what it used and what it gave back itself.
pub record Charge : Type 0 where
  pub contract : EvmAddress
  pub used : ℕ
  pub refunded : ℕ

abbrev pub own_charge : EvmAddress → Acts → Charge
own_charge c acts = record { contract = c; used = self_used acts; refunded = self_refunded acts }

-- The charges of the calls, each after those of the calls below it.
abbrev pub sub_charges : Acts → List Charge
sub_charges done = []
sub_charges (charges n rest) = sub_charges rest
sub_charges (refunds n rest) = sub_charges rest
sub_charges (sub c commits inner rest) = sub_charges inner ++ own_charge c inner ∷ sub_charges rest

abbrev pub used_sum : List Charge → ℕ
used_sum [] = 0
used_sum (x ∷ xs) = x.used + used_sum xs

abbrev pub refunded_sum : List Charge → ℕ
refunded_sum [] = 0
refunded_sum (x ∷ xs) = x.refunded + refunded_sum xs

used_sum-append : (xs ys : List Charge) → used_sum (xs ++ ys) ≡ used_sum xs + used_sum ys
used_sum-append [] ys = omega arith
used_sum-append (x ∷ xs) ys = omega (arith, used_sum-append xs ys)

refunded_sum-append :
    (xs ys : List Charge) → refunded_sum (xs ++ ys) ≡ refunded_sum xs + refunded_sum ys
refunded_sum-append [] ys = omega arith
refunded_sum-append (x ∷ xs) ys = omega (arith, refunded_sum-append xs ys)

-- The charges of the calls and the level's own make up the totals.
pub sub_charges-sums :
    (acts : Acts)
    → (used_sum (sub_charges acts) + self_used acts ≡ total_used acts)
      × (refunded_sum (sub_charges acts) + self_refunded acts ≡ total_refunded acts)
sub_charges-sums done = omega arith
sub_charges-sums (charges n rest) = omega (arith, sub_charges-sums rest)
sub_charges-sums (refunds n rest) = omega (arith, sub_charges-sums rest)
sub_charges-sums (sub c commits inner rest) = omega (
  arith,
  sub_charges-sums inner,
  sub_charges-sums rest,
  used_sum-append (sub_charges inner) (own_charge c inner ∷ sub_charges rest),
  refunded_sum-append (sub_charges inner) (own_charge c inner ∷ sub_charges rest),
)
