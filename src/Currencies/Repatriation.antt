-- ===== src/Currencies/Repatriation.antt =====
-- What `repatriate_reserved` of modules/currencies/src/lib.rs moves between two accounts of an ERC20 currency.
use chain_upgrade.Base.{
  zero, suc, ◌+◌, ◌-◌, ◌≡◌, ◌≢◌, sym, ap, ◌∙◌, subst, Option, some, ok, err, ◌>>=◌, ok_or, ◌==◌,
  ==_ne, if_false, min, arith,
}
use chain_upgrade.Substrate.{AccountId, Balance, pallet, Dispatch}
use chain_upgrade.Evm.Meter.{EvmAddress}
use chain_upgrade.Currencies.Ids.{erc20}
use chain_upgrade.Currencies.Interfaces.{
  Error, evm_account_not_found, BalanceStatus, free, reserved, Host, reserve_address,
}
use chain_upgrade.Currencies.Dispatch.{after_transfer, erc20_balance, free_balance}
use chain_upgrade.Currencies.Reserves.{
  reserved_balance, destination, erc20_repatriate, erc20_repatriate_at, erc20_repatriate_other,
  erc20_repatriate_self, repatriate_reserved,
}
use chain_upgrade.Currencies.Moves.{
  Erc20Laws, call_at, after_transfer_ok, free_balance_at, reserved_balance_at,
}

-- The balance that a repatriated value arrives in.
abbrev pub arrived_balance :
    {World : Type 0} → Host World → EvmAddress → BalanceStatus → AccountId → World → Balance
arrived_balance h contract free who w = free_balance h (erc20 contract) who w
arrived_balance h contract reserved who w = reserved_balance h (erc20 contract) who w

moved_lem :
    {World : Type 0} (r : Dispatch Error World) (w' : World) (x rest : Balance)
    → (◌>>=◌ {B = Balance × World} r (λ w. ok (x, w))) ≡ ok (rest, w')
    → (r ≡ ok w') × (rest ≡ x)
moved_lem (ok w) w' x rest done = (ground arith, ground arith)
moved_lem (err e) w' x rest done = absurd (ground arith)

module _ {World : Type 0} {h : Host World} {contract : EvmAddress}
    (laws : Erc20Laws h contract) where
  open laws use {transfer_lem, transfer_mapping, mapped}

  arrived_balance_at :
      (status : BalanceStatus) (who : AccountId) (a : EvmAddress) (w : World)
      → h.get_evm_address who w ≡ some a
      → arrived_balance h contract status who w
        ≡ erc20_balance h contract (destination h status a) w
  arrived_balance_at free who a w p = free_balance_at laws who a w p
  arrived_balance_at reserved who a w p = reserved_balance_at laws who a w p

  abbrev repatriate_from :
      Option EvmAddress
      → EvmAddress × World
      → Balance
      → BalanceStatus
      → Dispatch Error (Balance × World)
  repatriate_from o x value status = ok_or o (pallet evm_account_not_found) >>= λ s.
      erc20_repatriate_at h contract s x.0 value status x.1

  erc20_repatriate_mapped :
      (slashed beneficiary : AccountId) (a b : EvmAddress) (value : Balance)
      (status : BalanceStatus) (w : World)
      → slashed ≢ beneficiary
      → value ≢ 0
      → h.get_evm_address slashed w ≡ some a
      → h.get_evm_address beneficiary w ≡ some b
      → erc20_repatriate h contract slashed beneficiary value status w
        ≡ erc20_repatriate_at h contract a b value status w
  erc20_repatriate_mapped slashed beneficiary a b value status w differ some_value p q =
      let other : erc20_repatriate h contract slashed beneficiary value status w
          ≡ erc20_repatriate_other h contract slashed beneficiary value status w =
        if_false (value == 0) (ok (value, w)) _ (==_ne value 0 some_value)
        ∙ if_false (slashed == beneficiary)
            (ok (erc20_repatriate_self h contract slashed value status w)) _
            (==_ne slashed beneficiary differ) in
      other
      ∙ ap (λ o. repatriate_from o (h.get_or_create_evm_address beneficiary w) value status) p
      ∙ ap (λ x. repatriate_from (some a) x value status) (mapped beneficiary b w q)

  repatriate_at_lem :
      (a b : EvmAddress) (value : Balance) (status : BalanceStatus) (w w' : World) (rest : Balance)
      → erc20_repatriate_at h contract a b value status w ≡ ok (rest, w')
      → (h.bridge.transfer
            (call_at contract (reserve_address h a) a)
            (destination h status b)
            (min (erc20_balance h contract (reserve_address h a) w) value)
            w
          ≡ (ok tt, w'))
        × (rest ≡ value - min (erc20_balance h contract (reserve_address h a) w) value)
  repatriate_at_lem a b value status w w' rest done =
      let answer =
        h.bridge.transfer (call_at contract (reserve_address h a) a) (destination h status b)
          (min (erc20_balance h contract (reserve_address h a) w) value) w in
      let (moved, is_rest) =
        moved_lem (after_transfer answer) w'
          (value - min (erc20_balance h contract (reserve_address h a) w) value) rest done in
      (after_transfer_ok answer w' moved, is_rest)

  -- A repatriation to another mapped account that succeeds takes as much of the value as is reserved from the
  -- reserved balance of the one, puts it to the free or the reserved balance of the other, and returns the
  -- rest of the value.
  pub repatriate_reserved_lem :
      (slashed beneficiary : AccountId) (a b : EvmAddress) (value : Balance)
      (status : BalanceStatus) (w w' : World) (rest : Balance)
      → slashed ≢ beneficiary
      → h.get_evm_address slashed w ≡ some a
      → h.get_evm_address beneficiary w ≡ some b
      → reserve_address h a ≢ destination h status b
      → repatriate_reserved h (erc20 contract) slashed beneficiary value status w ≡ ok (rest, w')
      → (rest ≡ value - min (reserved_balance h (erc20 contract) slashed w) value)
        × ((reserved_balance h (erc20 contract) slashed w' + (value - rest)
              ≡ reserved_balance h (erc20 contract) slashed w)
            × (arrived_balance h contract status beneficiary w'
                ≡ arrived_balance h contract status beneficiary w + (value - rest)))
  unfolding repatriate_reserved
  repatriate_reserved_lem slashed beneficiary a b zero status w w' rest differ p q apart done =
      let same : w ≡ w' = ground arith in
      let none_left : rest ≡ 0 = ground arith in
      subst
        (λ x.
          (rest ≡ 0 - min (reserved_balance h (erc20 contract) slashed w) 0)
          × ((reserved_balance h (erc20 contract) slashed x + (0 - rest)
                ≡ reserved_balance h (erc20 contract) slashed w)
              × (arrived_balance h contract status beneficiary x
                  ≡ arrived_balance h contract status beneficiary w + (0 - rest))))
        same (omega (arith, none_left), (omega (arith, none_left), omega (arith, none_left)))
  repatriate_reserved_lem slashed beneficiary a b (suc v) status w w' rest differ p q apart done =
      let s = reserve_address h a in
      let d = destination h status b in
      let actual = min (erc20_balance h contract s w) (suc v) in
      let (moved, is_rest) = repatriate_at_lem a b (suc v) status w w' rest (
        sym (
          erc20_repatriate_mapped slashed beneficiary a b (suc v) status w differ (omega arith) p q)
        ∙ done) in
      let p' = transfer_mapping (call_at contract s a) d actual w w' slashed moved ∙ p in
      let q' = transfer_mapping (call_at contract s a) d actual w w' beneficiary moved ∙ q in
      let balances = transfer_lem s a d actual w w' apart moved in
      (
        omega (arith, is_rest, reserved_balance_at laws slashed a w p),
        (
          omega (
            arith,
            is_rest,
            reserved_balance_at laws slashed a w p,
            reserved_balance_at laws slashed a w' p',
            balances.0,
          ),
          omega (
            arith,
            is_rest,
            arrived_balance_at status beneficiary b w q,
            arrived_balance_at status beneficiary b w' q',
            balances.1,
          ),
        ),
      )
