-- ===== src/Rpc/SearchFinds.antt =====
-- What the searches of modules/evm/rpc/src/lib.rs find.
use chain_upgrade.Base.{
  ℕ, zero, suc, ◌+◌, ◌-◌, ◌*◌, ◌/◌, ◌≡◌, ◌≢◌, ◌≤◌, ◌<◌, ◌⊎◌, inl, inr, refl, sym, ap, ◌∙◌, subst,
  Bool, true, false, String, Option, some, Result, ok, err, if◌then◌else◌, if_false, if_true, ltb,
  leb, ◌==◌, Bool-cases, arith,
}
use chain_upgrade.Base.Int.{ℤ}
use chain_upgrade.Rpc.Requests.{
  Fault, rpc_error, panic, server_error, internal_error, invalid_params, gas_limit_max, Machine,
  Api, CallRequest,
}
use chain_upgrade.Rpc.Search.{
  Bounds, start, Turn, stop, again, gas_turn, resources_turn, loop_step, finish_turn, loop, used_at,
  search_gas, search_resources,
}
use chain_upgrade.Rpc.SearchEnds.{IsReduced, IsRaised, Steps, loop_step-Steps}

module _ (used : ℕ → Result Fault (ℕ × ℤ)) where
  -- The best gas is what the request used under a limit that sufficed, or no limit has sufficed yet.
  abbrev pub IsFound : Bounds → Type 0
  IsFound s =
      (s.best ≡ gas_limit_max)
      ⊎ ((limit : ℕ) × ((limit ≤ gas_limit_max) × (used limit ≡ ok (s.best, s.storage))))

  -- The comment of the loop, `lower <= mid <= upper`, below the maximum.
  abbrev pub IsOrdered : Bounds → Type 0
  IsOrdered s = (s.lower ≤ s.mid) × ((s.mid ≤ s.upper) × (s.upper ≤ gas_limit_max))

  abbrev pub Invariant : Bounds → Type 0
  Invariant s = IsOrdered s × (IsFound s × (s.best ≤ gas_limit_max))

  kept : (s t : Bounds) → IsFound s → t.best ≡ s.best → t.storage ≡ s.storage → IsFound t
  kept s t (inl none_yet) p q = inl (p ∙ none_yet)
  kept s t (inr (limit, (below, h))) p q =
      inr
        (limit, (below, h ∙ ap (λ x. ok (x, s.storage)) (sym p) ∙ ap (λ x. ok (t.best, x)) (sym q)))

  step-Invariant :
      (s t : Bounds) → Invariant s → IsReduced used s t ⊎ IsRaised used s t → Invariant t
  step-Invariant s t (order, (found, small)) step = elim step [
    | inl down ↦ (
      (
        omega (arith, order.0, order.1.0, down.0, down.1.0, down.1.1.0),
        (
          omega (arith, order.0, order.1.0, down.0, down.1.0, down.1.1.0),
          omega (arith, order.0, order.1.0, order.1.1, down.1.0),
        ),
      ),
      (
        inr (s.mid, (omega (arith, order.1.0, order.1.1), down.1.1.1.0)),
        omega (arith, small, down.1.1.1.1.1),
      ),
    )
    | inr up ↦ (
      (
        omega (arith, order.1.0, up.0, up.1.1.0),
        (omega (arith, order.1.0, up.1.0, up.1.1.0), omega (arith, order.1.1, up.1.0)),
      ),
      (kept s t found up.1.1.1.1.0 up.1.1.1.1.1, omega (arith, small, up.1.1.1.1.0)),
    )
  ]

  finish-Invariant :
      (fuel : ℕ) (s t : Bounds) (turn : Turn)
      → Invariant s
      → Steps used s turn
      → ((s' : Bounds) → Invariant s' → loop gas_turn used fuel s' ≡ some (ok t) → Invariant t)
      → finish_turn gas_turn used turn (λ s'. loop gas_turn used fuel s') ≡ some (ok t)
      → Invariant t
  finish-Invariant fuel s t (stop (ok s')) i steps next h =
      let found : s' ≡ t = ground arith in subst Invariant (sym steps ∙ found) i
  finish-Invariant fuel s t (stop (err e)) i steps next h = absurd (ground arith)
  finish-Invariant fuel s t (again s') i steps next h = next s' (step-Invariant s s' i steps) h

  loop-Invariant :
      (fuel : ℕ) (s t : Bounds)
      → Invariant s
      → loop gas_turn used fuel s ≡ some (ok t)
      → Invariant t
  unfolding loop
  loop-Invariant zero s t i h = absurd (ground arith)
  loop-Invariant (suc fuel) s t i h =
      finish-Invariant fuel s t (loop_step gas_turn used s) i (loop_step-Steps used s)
        (λ s' i' h'. loop-Invariant fuel s' t i' h') h

-- The estimate of a search for gas is the gas that the request used under some limit of at most the
-- maximum, or the maximum itself; the bounds keep the order that the loop's comment states.
pub search_gas_lem :
    (m : Machine) (api : Api) (r : CallRequest) (fuel : ℕ) (s : Bounds)
    → search_gas m api r fuel ≡ some (ok s)
    → Invariant (used_at m api r) s
unfolding search_gas
search_gas_lem m api r fuel s h =
    loop-Invariant (used_at m api r) fuel start s
      ((ground arith, (ground arith, ground arith)), (inl refl, ground arith)) h

err≢ok : {e : Fault} {t : Bounds} → some (err e) ≢ some (ok t)
err≢ok h = ground arith

out_of_gas-raised :
    (b : Bool) (s : Bounds) (x : Turn) (e : Fault)
    → ((if b then stop (ok s) else stop (err e)) ≡ (if b then stop (ok s) else x))
      ⊎ ((e' : Fault) × ((if b then stop (ok s) else stop (err e)) ≡ stop (err e')))
out_of_gas-raised true s x e = inl refl
out_of_gas-raised false s x e = inr (e, refl)

-- Where `estimate_resources` goes on, it goes on as `estimate_gas`.
resources_turn-gas_turn :
    (r : Result Fault (ℕ × ℤ)) (s : Bounds)
    → (resources_turn r s ≡ gas_turn r s) ⊎ ((e : Fault) × (resources_turn r s ≡ stop (err e)))
resources_turn-gas_turn (ok (gas, storage)) s = inl refl
resources_turn-gas_turn (err panic) s = inl refl
resources_turn-gas_turn (err (rpc_error internal_error reason)) s =
    inr (rpc_error internal_error reason, refl)
resources_turn-gas_turn (err (rpc_error invalid_params reason)) s =
    inr (rpc_error invalid_params reason, refl)
resources_turn-gas_turn (err (rpc_error server_error reason)) s =
    out_of_gas-raised ((s.mid + s.upper + 1) / 2 == s.mid) s _ (rpc_error server_error reason)

module _ (used : ℕ → Result Fault (ℕ × ℤ)) where
  step-agrees :
      (s : Bounds)
      → (loop_step resources_turn used s ≡ loop_step gas_turn used s)
        ⊎ ((e : Fault) × (loop_step resources_turn used s ≡ stop (err e)))
  unfolding loop_step
  step-agrees s = elim (Bool-cases (ltb 10 s.change_pct)) [
    | inr off ↦ inl (
        if_false (ltb 10 s.change_pct) (resources_turn (used s.mid) s) (stop (ok s)) off
        ∙ sym (if_false (ltb 10 s.change_pct) (gas_turn (used s.mid) s) (stop (ok s)) off))
    | inl on ↦ elim (resources_turn-gas_turn (used s.mid) s) [
      | inl same ↦ inl (ap (λ t. if ltb 10 s.change_pct then t else stop (ok s)) same)
      | inr (e, stopped) ↦ inr (
        e,
        if_true (ltb 10 s.change_pct) (resources_turn (used s.mid) s) (stop (ok s)) on ∙ stopped,
      )
    ]
  ]

  finish-agrees :
      (fuel : ℕ) (s : Bounds) (turn : Turn)
      → ((t : Bounds)
          → loop resources_turn used fuel t ≡ some (ok s)
          → loop gas_turn used fuel t ≡ some (ok s))
      → finish_turn resources_turn used turn (λ t. loop resources_turn used fuel t) ≡ some (ok s)
      → finish_turn gas_turn used turn (λ t. loop gas_turn used fuel t) ≡ some (ok s)
  finish-agrees fuel s (stop r) next h = h
  finish-agrees fuel s (again t) next h = next t h

  loop-agrees :
      (fuel : ℕ) (s t : Bounds)
      → loop resources_turn used fuel s ≡ some (ok t)
      → loop gas_turn used fuel s ≡ some (ok t)
  unfolding loop
  loop-agrees zero s t h = absurd (ground arith)
  loop-agrees (suc fuel) s t h = elim (step-agrees s) [
    | inl same ↦
        finish-agrees fuel t (loop_step gas_turn used s) (λ u g. loop-agrees fuel u t g)
          (sym (
              ap (λ x. finish_turn resources_turn used x (λ u. loop resources_turn used fuel u))
                same)
            ∙ h)
    | inr (e, stopped) ↦ absurd (
        err≢ok (
          sym (
            ap (λ x. finish_turn resources_turn used x (λ u. loop resources_turn used fuel u))
              stopped)
          ∙ h))
  ]

-- When `estimate_resources` finds a gas and a storage, then `estimate_gas` finds the same.
pub search_resources-search_gas :
    (m : Machine) (api : Api) (r : CallRequest) (fuel : ℕ) (s : Bounds)
    → search_resources m api r fuel ≡ some (ok s)
    → search_gas m api r fuel ≡ some (ok s)
unfolding search_resources search_gas
search_resources-search_gas m api r fuel s h = loop-agrees (used_at m api r) fuel start s h

-- A request that suffices at the maximum and uses less than 89 percent of it, and that runs out of gas at
-- the next limit, gets no estimate of its resources: the answer is the error of that limit.
pub search_resources_out_of_gas :
    (m : Machine) (api : Api) (r : CallRequest) (gas fuel : ℕ) (storage : ℤ)
    (reason : Option String)
    → used_at m api r gas_limit_max ≡ ok (gas, storage)
    → gas < 89_000_000
    → used_at m api r 50_010_500 ≡ err (rpc_error server_error reason)
    → search_resources m api r (suc (suc fuel)) ≡ some (err (rpc_error server_error reason))
unfolding search_resources loop loop_step
search_resources_out_of_gas m api r gas fuel storage reason full less short =
    let used = used_at m api r in
    let finish = λ (t : Turn).
      finish_turn resources_turn used t (λ s. loop resources_turn used (suc fuel) s) in
    let last =
      λ (t : Turn). finish_turn resources_turn used t (λ s. loop resources_turn used fuel s) in
    let change = 100 * (gas_limit_max - gas) / gas_limit_max in
    let next : Bounds = record {
      lower = 21_000;
      upper = gas_limit_max;
      mid = 50_010_500;
      best = gas;
      change_pct = change;
      storage = storage;
    } in
    ap (λ u. finish (resources_turn u start)) full
    ∙ ap finish (if_true (leb gas gas_limit_max) (again next) (stop (err panic)) (ground arith))
    ∙ ap last (
        if_true (ltb 10 change) (resources_turn (used 50_010_500) next) (stop (ok next))
          (ground arith))
    ∙ ap (λ u. last (resources_turn u next)) short
