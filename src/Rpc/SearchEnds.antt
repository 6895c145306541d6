-- ===== src/Rpc/SearchEnds.antt =====
-- The loop of `estimate_gas` of modules/evm/rpc/src/lib.rs ends after a number of runs that the limits
-- fix, as each turn halves the distance between the bounds.
use chain_upgrade.Base.{
  ℕ, zero, suc, ◌+◌, ◌-◌, ◌*◌, ◌/◌, ◌≡◌, ◌≢◌, ◌≤◌, ◌<◌, ◌⊎◌, inl, inr, refl, sym, ap, ◌∙◌, subst,
  Bool, true, false, none, some, Result, ok, err, if◌then◌else◌, if_false, ltb, leb, leb→le, ◌==◌,
  arith,
}
use native.Mathlib.Nat.{zero-div}
use chain_upgrade.Base.Int.{ℤ}
use chain_upgrade.Rpc.Requests.{Fault, rpc_error, panic, Machine, Api, CallRequest}
use chain_upgrade.Rpc.Search.{
  Bounds, start, Turn, stop, again, percent_of, reduced, raised, gas_turn, loop_step, finish_turn,
  loop, used_at, search_gas,
}

abbrev pub power : ℕ → ℕ
power zero = 1
power (suc n) = power n + power n

==_false : (a b : ℕ) → (a == b) ≡ false → a ≢ b
==_false a b h = ground arith

abbrev gas_of : Result Fault (ℕ × ℤ) → ℕ
gas_of (ok (gas, storage)) = gas
gas_of (err e) = 0

percent_of_zero : (part n : ℕ) → part ≡ 0 → percent_of part n ≡ 0
percent_of_zero part zero h = refl
percent_of_zero part (suc n) h = ap (λ p. 100 * p / suc n) h ∙ zero-div (suc n)

module _ (used : ℕ → Result Fault (ℕ × ℤ)) where
  -- The bounds after a turn in which the limit sufficed, and after one in which it did not.
  abbrev pub IsReduced : Bounds → Bounds → Type 0
  IsReduced s t =
      (t.lower ≡ s.lower)
      × ((t.upper ≡ s.mid)
          × ((t.mid ≡ (s.lower + s.mid + 1) / 2)
              × ((used s.mid ≡ ok (t.best, t.storage))
                  × ((t.change_pct ≡ percent_of (s.best - t.best) s.best) × (t.best ≤ s.best)))))

  abbrev pub IsRaised : Bounds → Bounds → Type 0
  IsRaised s t =
      (t.lower ≡ s.mid)
      × ((t.upper ≡ s.upper)
          × ((t.mid ≡ (s.mid + s.upper + 1) / 2)
              × ((t.mid ≢ s.mid) × ((t.best ≡ s.best) × (t.storage ≡ s.storage)))))

  abbrev pub Steps : Bounds → Turn → Type 0
  Steps s (stop (ok t)) = t ≡ s
  Steps s (stop (err e)) = Unit
  Steps s (again t) = IsReduced s t ⊎ IsRaised s t

  Steps-if :
      (s : Bounds) (b : Bool) (x y : Turn)
      → (b ≡ true → Steps s x)
      → (b ≡ false → Steps s y)
      → Steps s (if b then x else y)
  Steps-if s true x y f g = f refl
  Steps-if s false x y f g = g refl

  reduced-Steps :
      (s : Bounds) (gas : ℕ) (storage : ℤ)
      → used s.mid ≡ ok (gas, storage)
      → Steps s (reduced gas storage s)
  reduced-Steps s gas storage h =
      Steps-if s (leb gas s.best) _ (stop (err panic))
        (λ less. inl (refl, (refl, (refl, (h, (refl, leb→le gas s.best less)))))) (λ more. tt)

  raised-Steps : (s : Bounds) → Steps s (raised s)
  raised-Steps s =
      Steps-if s ((s.mid + s.upper + 1) / 2 == s.mid) (stop (ok s)) _ (λ at. refl)
        (λ above.
          inr (
            refl,
            (refl, (refl, (==_false ((s.mid + s.upper + 1) / 2) s.mid above, (refl, refl)))),
          ))

  gas_turn-Steps : (s : Bounds) (r : Result Fault (ℕ × ℤ)) → used s.mid ≡ r → Steps s (gas_turn r s)
  gas_turn-Steps s (ok (gas, storage)) h = reduced-Steps s gas storage h
  gas_turn-Steps s (err (rpc_error code reason)) h = raised-Steps s
  gas_turn-Steps s (err panic) h = tt

  pub loop_step-Steps : (s : Bounds) → Steps s (loop_step gas_turn used s)
  unfolding loop_step
  loop_step-Steps s =
      Steps-if s (ltb 10 s.change_pct) (gas_turn (used s.mid) s) (stop (ok s))
        (λ on. gas_turn-Steps s (used s.mid) refl) (λ off. refl)

  -- The loop returns on some fuel.
  abbrev pub Returns : ℕ → Bounds → Type 0
  Returns fuel s = (r : Result Fault Bounds) × (loop gas_turn used fuel s ≡ some r)

  finish_turn-Returns :
      (fuel : ℕ) (s : Bounds) (t : Turn)
      → Steps s t
      → ((s' : Bounds) → IsReduced s s' ⊎ IsRaised s s' → Returns fuel s')
      → (r : Result Fault Bounds) × (finish_turn gas_turn used t (λ s'. loop gas_turn used fuel s')
          ≡ some r)
  finish_turn-Returns fuel s (stop r) steps next = (r, refl)
  finish_turn-Returns fuel s (again s') steps next = next s' steps

  loop-Returns :
      (fuel : ℕ) (s : Bounds)
      → ((s' : Bounds) → IsReduced s s' ⊎ IsRaised s s' → Returns fuel s')
      → Returns (suc fuel) s
  unfolding loop
  loop-Returns fuel s next =
      finish_turn-Returns fuel s (loop_step gas_turn used s) (loop_step-Steps s) next

  settled-Returns : (s : Bounds) → s.change_pct ≤ 10 → Returns 1 s
  unfolding loop loop_step
  settled-Returns s small = (
    ok s,
    ap (λ t. finish_turn gas_turn used t (λ s'. none))
        (if_false (ltb 10 s.change_pct) (gas_turn (used s.mid) s) (stop (ok s)) (ground arith)),
  )

  -- The distance of the bounds is at most a power of two, and the next limit is in the middle.
  abbrev pub IsWithin : ℕ → Bounds → Type 0
  IsWithin n s =
      (s.lower < s.upper) × ((s.upper ≤ s.lower + power n) × (s.mid ≡ (s.lower + s.upper + 1) / 2))

  reduced-IsWithin : (n : ℕ) (s t : Bounds) → IsWithin (suc n) s → IsReduced s t → IsWithin n t
  reduced-IsWithin n s t w r = (
    omega (arith, w.0, w.1.0, w.1.1, r.0, r.1.0),
    (omega (arith, w.0, w.1.0, w.1.1, r.0, r.1.0), omega (arith, r.0, r.1.0, r.1.1.0)),
  )

  raised-IsWithin : (n : ℕ) (s t : Bounds) → IsWithin (suc n) s → IsRaised s t → IsWithin n t
  raised-IsWithin n s t w r =
      let room : s.mid ≢ s.upper = λ e. r.1.1.1.0 (omega (arith, e, r.1.1.0)) in
      let below : s.mid < s.upper = omega (arith, room, w.0, w.1.1) in
      (
        omega (arith, below, r.0, r.1.0),
        (omega (arith, w.1.0, w.1.1, r.0, r.1.0), omega (arith, r.0, r.1.0, r.1.1.0)),
      )

  -- With no limit between the bounds the loop runs the upper one twice at most.
  closed-Returns : (s : Bounds) → IsWithin 0 s → Returns 3 s
  closed-Returns s w =
      let at : s.mid ≡ s.upper = omega (arith, w.0, w.1.0, w.1.1) in
      loop-Returns 2 s (λ t step. elim step [
        | inr up ↦ absurd (up.1.1.1.0 (omega (arith, at, up.1.1.0)))
        | inl down ↦
            let same : t.mid ≡ s.mid = omega (arith, w.0, w.1.0, w.1.1, at, down.1.1.0) in
            loop-Returns 1 t (λ u step'. elim step' [
              | inr up ↦ absurd (up.1.1.1.0 (omega (arith, same, down.1.0, up.1.1.0)))
              | inl down' ↦
                  let best : u.best ≡ t.best =
                    ap gas_of (sym down'.1.1.1.0 ∙ ap used same ∙ down.1.1.1.0) in
                  settled-Returns u (
                    omega (
                      arith,
                      down'.1.1.1.1.0,
                      percent_of_zero (t.best - u.best) t.best (omega (arith, best)),
                    ))
            ])
      ])

  within-Returns : (n : ℕ) (s : Bounds) → IsWithin n s → Returns (n + 3) s
  within-Returns zero s w = closed-Returns s w
  within-Returns (suc n) s w =
      subst (λ f. Returns f s) (omega arith)
        (loop-Returns (n + 3) s (λ t step. within-Returns n t (elim step [
          | inl down ↦ reduced-IsWithin n s t w down
          | inr up ↦ raised-IsWithin n s t w up
        ])))

  -- The first run is at the upper limit itself.
  start-IsWithin : (t : Bounds) → IsReduced start t ⊎ IsRaised start t → IsWithin 27 t
  start-IsWithin t step = elim step [
    | inl down ↦ (
      omega (arith, down.0, down.1.0),
      (omega (arith, down.0, down.1.0), omega (arith, down.0, down.1.0, down.1.1.0)),
    )
    | inr up ↦ absurd (up.1.1.1.0 (omega (arith, up.1.1.0)))
  ]

  start-Returns : Returns 31 start
  start-Returns = loop-Returns 30 start (λ t step. within-Returns 27 t (start-IsWithin t step))

-- The search for the gas of a request ends after at most 31 turns, whatever the runtime answers.
pub search_gas_ends :
    (m : Machine) (api : Api) (r : CallRequest)
    → (result : Result Fault Bounds) × (search_gas m api r 31 ≡ some result)
unfolding search_gas
search_gas_ends m api r = start-Returns (used_at m api r)
