-- ===== src/Currencies/Moves.antt =====
-- What the reserves of modules/currencies/src/lib.rs move for ERC20 currencies, whose contracts are
-- only known to move what their transfers say.
use chain_upgrade.Base.{
  zero, suc, ◌+◌, ◌-◌, ◌≡◌, ◌≢◌, ◌⊎◌, refl, err, inl, inr, sym, ap, ◌∙◌, subst, some, ok, min,
  arith,
}
use chain_upgrade.Substrate.{AccountId, Balance, Dispatch, DispatchError}
use chain_upgrade.Evm.Meter.{EvmAddress}
use chain_upgrade.Evm.Execute.{InvokeContext}
use chain_upgrade.Currencies.Ids.{erc20}
use chain_upgrade.Currencies.Interfaces.{Error, Host, reserve_address}
use chain_upgrade.Currencies.Dispatch.{after_transfer, erc20_balance, balance_at, free_balance}
use chain_upgrade.Currencies.Reserves.{
  reserved_at, reserved_balance, rest_after, erc20_reserve, reserve, erc20_unreserve,
  erc20_unreserve_from, unreserve,
}

-- What is expected of a contract and of the address mapping: a transfer that succeeds moves its
-- value and changes no mapping, and the address of a mapped account is found and not created.
pub record Erc20Laws {World : Type 0} (h : Host World) (contract : EvmAddress) : Type 0 where
  pub transfer_lem :
      (sender origin to : EvmAddress) (v : Balance) (w w' : World)
      → sender ≢ to
      → h.bridge.transfer (record { contract = contract; sender = sender; origin = origin }) to v w
        ≡ (ok tt, w')
      → (erc20_balance h contract sender w' + v ≡ erc20_balance h contract sender w)
        × (erc20_balance h contract to w' ≡ erc20_balance h contract to w + v)
  pub transfer_mapping :
      (x : InvokeContext) (to : EvmAddress) (v : Balance) (w w' : World) (who : AccountId)
      → h.bridge.transfer x to v w ≡ (ok tt, w')
      → h.get_evm_address who w' ≡ h.get_evm_address who w
  pub mapped :
      (who : AccountId) (a : EvmAddress) (w : World)
      → h.get_evm_address who w ≡ some a
      → h.get_or_create_evm_address who w ≡ (a, w)

-- A call of a contract.
abbrev pub call_at : EvmAddress → EvmAddress → EvmAddress → InvokeContext
call_at contract sender origin = record { contract = contract; sender = sender; origin = origin }

-- The transfer with which an unreserve of a value gives back what is reserved of it.
abbrev pub give_back :
    {World : Type 0}
    → Host World
    → EvmAddress
    → AccountId
    → EvmAddress
    → Balance
    → World
    → Dispatch Error (Unit {0}) × World
give_back h contract who a value w =
    h.bridge.transfer (call_at contract (reserve_address h a) a) a
      (min (reserved_balance h (erc20 contract) who w) value) w

-- What an unreserve of a value answers and leaves: if the transfer succeeds, or there is nothing to move, as
-- much of the value as is reserved is free and the rest is returned; if the transfer fails, all of the
-- value is returned and the state is the one that the failed transfer left.
abbrev pub IsMoved :
    {World : Type 0}
    → Host World
    → EvmAddress
    → AccountId
    → EvmAddress
    → Balance
    → World
    → Balance × World
    → Type 0
IsMoved h contract who a value w r =
    (((value ≡ 0) ⊎ ((give_back h contract who a value w).0 ≡ ok tt))
      × ((r.0 ≡ value - min (reserved_balance h (erc20 contract) who w) value)
          × ((free_balance h (erc20 contract) who r.1
                ≡ free_balance h (erc20 contract) who w
                  + min (reserved_balance h (erc20 contract) who w) value)
              × (reserved_balance h (erc20 contract) who r.1
                    + min (reserved_balance h (erc20 contract) who w) value
                  ≡ reserved_balance h (erc20 contract) who w))))
    ⊎ ((e : DispatchError Error) × (give_back h contract who a value w ≡ (err e, r.1))
        × (r.0 ≡ value))

-- The two cases of a transfer.
transfer-cases :
    {World : Type 0} (r : Dispatch Error (Unit {0}) × World)
    → ((w : World) × (r ≡ (ok tt, w)))
      ⊎ ((e : DispatchError Error) × (w : World) × (r ≡ (err e, w)))
transfer-cases (ok u, w) = inl (w, refl)
transfer-cases (err e, w) = inr (e, w, refl)

pub after_transfer_ok :
    {World : Type 0} (r : Dispatch Error (Unit {0}) × World) (w : World)
    → after_transfer r ≡ ok w
    → r ≡ (ok tt, w)
after_transfer_ok (ok u, w') w done = ground arith
after_transfer_ok (err e, w') w done = absurd (ground arith)

module _ {World : Type 0} {h : Host World} {contract : EvmAddress}
    (laws : Erc20Laws h contract) where
  open laws use {transfer_lem, transfer_mapping, mapped}

  pub free_balance_at :
      (who : AccountId) (a : EvmAddress) (w : World)
      → h.get_evm_address who w ≡ some a
      → free_balance h (erc20 contract) who w ≡ erc20_balance h contract a w
  unfolding free_balance
  free_balance_at who a w p = ap (λ o. balance_at h contract o w) p

  pub reserved_balance_at :
      (who : AccountId) (a : EvmAddress) (w : World)
      → h.get_evm_address who w ≡ some a
      → reserved_balance h (erc20 contract) who w ≡ erc20_balance h contract (reserve_address h a) w
  unfolding reserved_balance
  reserved_balance_at who a w p = ap (λ o. reserved_at h contract o w) p

  erc20_reserve_mapped :
      (who : AccountId) (a : EvmAddress) (value : Balance) (w : World)
      → h.get_evm_address who w ≡ some a
      → value ≢ 0
      → erc20_reserve h contract who value w
        ≡ after_transfer (h.bridge.transfer (call_at contract a a) (reserve_address h a) value w)
  erc20_reserve_mapped who a value w p some_value = ground arith

  erc20_unreserve_mapped :
      (who : AccountId) (a : EvmAddress) (value : Balance) (w : World)
      → h.get_evm_address who w ≡ some a
      → value ≢ 0
      → erc20_unreserve h contract who value w ≡ erc20_unreserve_from h contract (some a) value w
  erc20_unreserve_mapped who a value w p some_value = ground arith

  -- A reserve that succeeds moves the value from the free to the reserved balance of the account.
  pub reserve_lem :
      (who : AccountId) (a : EvmAddress) (value : Balance) (w w' : World)
      → h.get_evm_address who w ≡ some a
      → reserve_address h a ≢ a
      → reserve h (erc20 contract) who value w ≡ ok w'
      → (free_balance h (erc20 contract) who w' + value ≡ free_balance h (erc20 contract) who w)
        × (reserved_balance h (erc20 contract) who w'
            ≡ reserved_balance h (erc20 contract) who w + value)
  unfolding reserve
  reserve_lem who a zero w w' p apart done =
      let same : w ≡ w' = ground arith in
      subst
        (λ x.
          (free_balance h (erc20 contract) who x + 0 ≡ free_balance h (erc20 contract) who w)
          × (reserved_balance h (erc20 contract) who x
              ≡ reserved_balance h (erc20 contract) who w + 0))
        same (omega arith, omega arith)
  reserve_lem who a (suc v) w w' p apart done =
      let moved =
        after_transfer_ok _ w'
          (sym (erc20_reserve_mapped who a (suc v) w p (omega arith)) ∙ done) in
      let q =
        transfer_mapping (call_at contract a a) (reserve_address h a) (suc v) w w' who moved ∙ p in
      let balances =
        transfer_lem a a (reserve_address h a) (suc v) w w' (λ e. apart (sym e)) moved in
      (
        omega (arith, free_balance_at who a w p, free_balance_at who a w' q, balances.0),
        omega (arith, reserved_balance_at who a w p, reserved_balance_at who a w' q, balances.1),
      )

  unreserve_from_moves :
      (who : AccountId) (a : EvmAddress) (value : Balance) (w : World)
      → h.get_evm_address who w ≡ some a
      → reserve_address h a ≢ a
      → IsMoved h contract who a value w (erc20_unreserve_from h contract (some a) value w)
  unreserve_from_moves who a value w p apart =
      let s = reserve_address h a in
      let actual = min (erc20_balance h contract s w) value in
      let at_contract : h.bridge.transfer (call_at contract s a) a actual w
          ≡ give_back h contract who a value w =
        ap (λ n. h.bridge.transfer (call_at contract s a) a (min n value) w)
          (sym (reserved_balance_at who a w p)) in
      elim (transfer-cases (h.bridge.transfer (call_at contract s a) a actual w)) [
        | inl (w', done) ↦
            let q = transfer_mapping (call_at contract s a) a actual w w' who done ∙ p in
            let (taken, given) = transfer_lem s a a actual w w' apart done in
            subst (IsMoved h contract who a value w) (sym (ap (rest_after h value actual) done)) (
              inl (
                inr (ap (λ r. r.0) (sym at_contract ∙ done)),
                (
                  omega (arith, reserved_balance_at who a w p),
                  (
                    omega (
                      arith,
                      reserved_balance_at who a w p,
                      free_balance_at who a w p,
                      free_balance_at who a w' q,
                      given,
                    ),
                    omega (
                      arith,
                      reserved_balance_at who a w p,
                      reserved_balance_at who a w' q,
                      taken,
                    ),
                  ),
                ),
              ))
        | inr (e, w', refused) ↦
            subst (IsMoved h contract who a value w) (sym (ap (rest_after h value actual) refused))
              (inr (e, sym at_contract ∙ refused, refl))
      ]

  -- An unreserve for a mapped account, whose reserve address is not its own, with a contract whose
  -- successful transfers move their value. If the transfer succeeds, or the value is 0, exactly as much of
  -- the value as is reserved moves to the free balance, and the rest of the value is returned. If the
  -- transfer fails, the whole value is returned as the rest, in the state that the failed transfer left,
  -- whatever that has moved.
  pub unreserve_lem :
      (who : AccountId) (a : EvmAddress) (value : Balance) (w : World)
      → h.get_evm_address who w ≡ some a
      → reserve_address h a ≢ a
      → IsMoved h contract who a value w (unreserve h (erc20 contract) who value w)
  unfolding unreserve
  unreserve_lem who a zero w p apart =
      let untouched : (0, w) ≡ erc20_unreserve h contract who 0 w = ground arith in
      subst (IsMoved h contract who a 0 w) untouched
        (inl (inl refl, (omega arith, (omega arith, omega arith))))
  unreserve_lem who a (suc v) w p apart =
      subst (IsMoved h contract who a (suc v) w)
        (sym (erc20_unreserve_mapped who a (suc v) w p (omega arith)))
        (unreserve_from_moves who a (suc v) w p apart)

  -- A reserve and an unreserve of the same value leave the balances as they were, with no rest, if both
  -- of their transfers succeed.
  pub unreserve-reserve :
      (who : AccountId) (a : EvmAddress) (value : Balance) (w w' : World)
      → h.get_evm_address who w ≡ some a
      → h.get_evm_address who w' ≡ some a
      → reserve_address h a ≢ a
      → reserve h (erc20 contract) who value w ≡ ok w'
      → (give_back h contract who a value w').0 ≡ ok tt
      → ((unreserve h (erc20 contract) who value w').0 ≡ 0)
        × ((free_balance h (erc20 contract) who (unreserve h (erc20 contract) who value w').1
              ≡ free_balance h (erc20 contract) who w)
            × (reserved_balance h (erc20 contract) who (unreserve h (erc20 contract) who value w').1
                ≡ reserved_balance h (erc20 contract) who w))
  unreserve-reserve who a value w w' p q apart done back =
      let (taken, given) = reserve_lem who a value w w' p apart done in
      elim (unreserve_lem who a value w' q apart) [
        | inl (why, (rest, (free, held))) ↦ (
          omega (arith, rest, given),
          (omega (arith, taken, given, free), omega (arith, given, held)),
        )
        | inr (e, refused, rest) ↦ absurd (ground arith)
      ]
