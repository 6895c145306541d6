-- ===== src/Evm/Meter/Flow.antt =====
-- Nested metering is flat: while nothing rolls back and the limit is kept, the meters pass to the root
-- exactly one charge for each call, and the outermost meter accounts for all of it.
use chain_upgrade.Base.{
  ℕ, ◌+◌, ◌-◌, ◌≡◌, ◌≤◌, refl, ap, ◌∙◌, true, List, [], ◌∷◌, ◌++◌, ok, arith, u32_max,
}
use chain_upgrade.Evm.Meter.{
  EvmAddress, DispatchResult, StorageMeterHandler, StorageMeter, Chain, root, nested, fresh_meter,
  pass_on, charge, refund, available_storage, charge_storage, unreserve_storage, child_meter,
  finish,
}
use chain_upgrade.Evm.Meter.Charges.{
  self_used, self_refunded, total_used, total_refunded, AllCommit, Charge, own_charge, sub_charges,
  used_sum, refunded_sum, sub_charges-sums,
}
use chain_upgrade.Evm.Meter.Runs.{Acts, done, charges, refunds, sub, root_of, settle_sub, run}

-- No meter of the chain has failed.
abbrev pub Healthy : {E H : Type 0} → Chain E H → Type 0
Healthy (root h) = Unit
Healthy (nested m k) = (m.result ≡ ok tt) × Healthy k

-- A meter with more in its counters.
abbrev pub counted : {E : Type 0} → StorageMeter E → ℕ → ℕ → ℕ → ℕ → StorageMeter E
counted m used own_used refunded own_refunded = record m {
  total_used = m.total_used + used;
  self_used = m.self_used + own_used;
  total_refunded = m.total_refunded + refunded;
  self_refunded = m.self_refunded + own_refunded;
}

-- The meter after a run.
abbrev pub after : {E : Type 0} → Acts → StorageMeter E → StorageMeter E
after acts m =
    counted m (total_used acts) (self_used acts) (total_refunded acts) (self_refunded acts)

-- Charges up the chain, one after the other.
module _ {E H : Type 0} (ops : StorageMeterHandler E H) where
  abbrev pub pass : Charge → Chain E H → Chain E H
  pass x k = (charge_storage ops x.contract x.used x.refunded k).1

  abbrev pub pass_all : List Charge → Chain E H → Chain E H
  pass_all [] k = k
  pass_all (x ∷ xs) k = pass_all xs (pass x k)

  -- The charges at the root, one after the other.
  abbrev pub charge_root : Charge → H → DispatchResult E × H
  charge_root x h = ops.charge_storage x.contract x.used x.refunded h

  abbrev pub charge_all : List Charge → H → H
  charge_all [] h = h
  charge_all (x ∷ xs) h = charge_all xs (charge_root x h).1

  -- None of the charges fails at the root, in this order.
  abbrev pub PaysAll : List Charge → H → Type 0
  PaysAll [] h = Unit
  PaysAll (x ∷ xs) h = ((charge_root x h).0 ≡ ok tt) × PaysAll xs (charge_root x h).1

  pub charge_all-append :
      (xs ys : List Charge) (h : H) → charge_all (xs ++ ys) h ≡ charge_all ys (charge_all xs h)
  charge_all-append [] ys h = refl
  charge_all-append (x ∷ xs) ys h = charge_all-append xs ys (charge_root x h).1

  pub PaysAll-append :
      (xs ys : List Charge) (h : H)
      → PaysAll (xs ++ ys) h
      → PaysAll xs h × PaysAll ys (charge_all xs h)
  PaysAll-append [] ys h p = (tt, p)
  PaysAll-append (x ∷ xs) ys h p =
      let rest = PaysAll-append xs ys (charge_root x h).1 p.1 in ((p.0, rest.0), rest.1)

module _ {E H : Type 0} (ops : StorageMeterHandler E H) where
  pass_all-append :
      (xs ys : List Charge) (k : Chain E H)
      → pass_all ops (xs ++ ys) k ≡ pass_all ops ys (pass_all ops xs k)
  pass_all-append [] ys k = refl
  pass_all-append (x ∷ xs) ys k = pass_all-append xs ys (pass ops x k)

  charge_storage-ok :
      (x : Charge) (k : Chain E H)
      → Healthy k
      → (charge_root ops x (root_of k)).0 ≡ ok tt
      → (charge_storage ops x.contract x.used x.refunded k).0 ≡ ok tt
  unfolding charge_storage root_of
  charge_storage-ok x (root h) a paid = paid
  charge_storage-ok x (nested m k) a paid = ground (arith, charge_storage-ok x k a.1 paid)

  pass-nested :
      (x : Charge) (m : StorageMeter E) (k : Chain E H)
      → m.result ≡ ok tt
      → pass ops x (nested m k) ≡ nested (pass_on x.used x.refunded m) (pass ops x k)
  unfolding charge_storage
  pass-nested x m k a = ground arith

  pass-Healthy : (x : Charge) (k : Chain E H) → Healthy k → Healthy (pass ops x k)
  unfolding charge_storage
  pass-Healthy x (root h) a = tt
  pass-Healthy x (nested m k) a = rw (pass-nested x m k a.0) (a.0, pass-Healthy x k a.1)

  pass_all-Healthy : (xs : List Charge) (k : Chain E H) → Healthy k → Healthy (pass_all ops xs k)
  pass_all-Healthy [] k a = a
  pass_all-Healthy (x ∷ xs) k a = pass_all-Healthy xs (pass ops x k) (pass-Healthy x k a)

  root_of-pass :
      (x : Charge) (k : Chain E H)
      → Healthy k
      → root_of (pass ops x k) ≡ (charge_root ops x (root_of k)).1
  unfolding charge_storage root_of
  root_of-pass x (root h) a = refl
  root_of-pass x (nested m k) a = rw (pass-nested x m k a.0) (root_of-pass x k a.1)

  root_of-pass_all :
      (xs : List Charge) (k : Chain E H)
      → Healthy k
      → root_of (pass_all ops xs k) ≡ charge_all ops xs (root_of k)
  root_of-pass_all [] k a = refl
  root_of-pass_all (x ∷ xs) k a =
      root_of-pass_all xs (pass ops x k) (pass-Healthy x k a)
      ∙ ap (charge_all ops xs) (root_of-pass x k a)

  -- A meter below the sums adds them to its totals and passes the charges on.
  pass_all-nested :
      (xs : List Charge) (m : StorageMeter E) (k : Chain E H)
      → m.result ≡ ok tt
      → m.total_used + used_sum xs ≤ u32_max
      → m.total_refunded + refunded_sum xs ≤ u32_max
      → pass_all ops xs (nested m k)
        ≡ nested (counted m (used_sum xs) 0 (refunded_sum xs) 0) (pass_all ops xs k)
  unfolding charge_storage
  pass_all-nested [] m k a p q = ground arith
  pass_all-nested (x ∷ xs) m k a p q = rw (pass-nested x m k a) (
      pass_all-nested xs (pass_on x.used x.refunded m) (pass ops x k) a (ground arith)
        (ground arith)
      ∙ ap (λ m'. nested m' (pass_all ops xs (pass ops x k))) (ground arith))

  abbrev meter_charge : StorageMeter E → Charge
  meter_charge m = record { contract = m.contract; used = m.self_used; refunded = m.self_refunded }

  -- The end of a call that keeps the limit: its meter's own charge goes up the chain.
  finish-nested :
      (m n : StorageMeter E) (k : Chain E H)
      → m.result ≡ ok tt
      → Healthy (nested n k)
      → (charge_root ops (meter_charge m) (root_of k)).0 ≡ ok tt
      → m.total_used - m.total_refunded ≤ m.limit
      → finish ops m (nested n k) ≡ (ok tt, pass ops (meter_charge m) (nested n k))
  unfolding finish unreserve_storage root_of
  finish-nested m n k a b pays fits =
      let paid = charge_storage-ok (meter_charge m) (nested n k) b pays in
      rw (pass-nested (meter_charge m) n k b.0)
        (ground (arith, paid, pass-nested (meter_charge m) n k b.0))

  charge-counted :
      (n : ℕ) (m : StorageMeter E)
      → m.result ≡ ok tt
      → m.total_used + n ≤ u32_max
      → m.self_used + n ≤ u32_max
      → (charge n m).1 ≡ counted m n n 0 0
  unfolding charge
  charge-counted n m a p q = ground arith

  refund-counted :
      (n : ℕ) (m : StorageMeter E)
      → m.result ≡ ok tt
      → m.total_refunded + n ≤ u32_max
      → m.self_refunded + n ≤ u32_max
      → (refund n m).1 ≡ counted m 0 0 n n
  unfolding refund
  refund-counted n m a p q = ground arith

  child_meter-fresh :
      (x : EvmAddress) (m : StorageMeter E) (k : Chain E H)
      → m.result ≡ ok tt
      → m.limit + m.total_refunded ≤ u32_max
      → child_meter ops x m k ≡ ok (fresh_meter x (m.limit + m.total_refunded - m.total_used))
  unfolding child_meter available_storage
  child_meter-fresh x m k a p = ground arith

  -- What a call has to know of its caller for the run below it.
  pub record Fits (acts : Acts) (m : StorageMeter E) : Type 0 where
    pub fine : m.result ≡ ok tt
    pub used : m.total_used + total_used acts ≤ m.limit
    pub own_used : m.self_used ≤ m.total_used
    pub own_refunded : m.self_refunded ≤ m.total_refunded
    pub small : m.limit + m.total_refunded + total_refunded acts ≤ u32_max

  -- The caller's meter after a call.
  abbrev resumed : Acts → StorageMeter E → StorageMeter E
  resumed inner m = counted m (total_used inner) 0 (total_refunded inner) 0

  settle_sub-ok :
      (m : StorageMeter E) (h : H) (k k' : Chain E H)
      → finish ops m k ≡ (ok tt, k')
      → settle_sub ops true h (m, k) ≡ k'
  settle_sub-ok m h k k' e = ground arith

  -- The end of a call, given what its own run comes to.
  settle_sub-flat :
      (inner : Acts) (x : EvmAddress) (m : StorageMeter E) (k : Chain E H) (h : H)
      → Healthy k
      → Fits inner m
      → (charge_root ops (own_charge x inner) (charge_all ops (sub_charges inner) (root_of k))).0
        ≡ ok tt
      → let child = fresh_meter x (m.limit + m.total_refunded - m.total_used) in
        settle_sub ops true h (after inner child, pass_all ops (sub_charges inner) (nested m k))
        ≡ nested (resumed inner m) (pass_all ops (sub_charges inner ++ own_charge x inner ∷ []) k)
  settle_sub-flat inner x m k h b f p =
      let child : StorageMeter E = fresh_meter x (m.limit + m.total_refunded - m.total_used) in
      let log = sub_charges inner in
      let sums = sub_charges-sums inner in
      let m1 = counted m (used_sum log) 0 (refunded_sum log) 0 in
      let own : meter_charge (after inner child) ≡ own_charge x inner = ground arith in
      let more : pass_on (self_used inner) (self_refunded inner) m1 ≡ resumed inner m =
        ground arith in
      let paid : (charge_root ops (meter_charge (after inner child))
            (root_of (pass_all ops log k))).0
          ≡ ok tt =
        rw (own, root_of-pass_all log k b) p in
      let closed =
        finish-nested (after inner child) m1 (pass_all ops log k) refl
          (f.fine, pass_all-Healthy log k b) paid (omega arith) in
      rw (pass_all-nested log m k f.fine (omega arith) (omega arith)) (
        settle_sub-ok (after inner child) h _ _ closed
        ∙ rw (
          own,
          pass-nested (own_charge x inner) m1 (pass_all ops log k) f.fine,
          more,
          pass_all-append log (own_charge x inner ∷ []) k,
        ))

  -- A run in which every call commits and which stays in the limit adds its sums to the meter and passes
  -- one charge for each call up the chain.
  pub run-flat :
      (acts : Acts) (m : StorageMeter E) (k : Chain E H)
      → AllCommit acts
      → Healthy k
      → Fits acts m
      → PaysAll ops (sub_charges acts) (root_of k)
      → run ops acts (m, k) ≡ (after acts m, pass_all ops (sub_charges acts) k)
  unfolding run root_of
  run-flat done m k c b f p = ground arith
  run-flat (charges n rest) m k c b f p =
      rw (charge-counted n m f.fine (omega arith) (omega arith)) (
        run-flat rest (counted m n n 0 0) k c b (ground arith) p
        ∙ ap (λ m'. (m', pass_all ops (sub_charges rest) k)) (ground arith))
  run-flat (refunds n rest) m k c b f p =
      rw (refund-counted n m f.fine (omega arith) (omega arith)) (
        run-flat rest (counted m 0 0 n n) k c b (ground arith) p
        ∙ ap (λ m'. (m', pass_all ops (sub_charges rest) k)) (ground arith))
  run-flat (sub x commits inner rest) m k c b f p =
      let child : StorageMeter E = fresh_meter x (m.limit + m.total_refunded - m.total_used) in
      let split =
        PaysAll-append ops (sub_charges inner) (own_charge x inner ∷ sub_charges rest) (root_of k)
          p in
      let below = run-flat inner child (nested m k) c.1 (f.fine, b) (ground arith) split.0 in
      let log = sub_charges inner ++ own_charge x inner ∷ [] in
      let ended = settle_sub-flat inner x m k (root_of k) b (ground arith) split.1.0 in
      let later : PaysAll ops (sub_charges rest) (root_of (pass_all ops log k)) =
        rw
          (
            root_of-pass_all log k b,
            charge_all-append ops (sub_charges inner) (own_charge x inner ∷ []) (root_of k),
          )
          split.1.1 in
      rw (child_meter-fresh x m k f.fine (omega arith), c.0, below, ended)
        (run-flat rest (resumed inner m) (pass_all ops log k) c.2 (pass_all-Healthy log k b)
            (ground arith) later
          ∙ rw
              (
                pass_all-append (sub_charges inner) (own_charge x inner ∷ []) k,
                pass_all-append (sub_charges inner) (own_charge x inner ∷ sub_charges rest) k,
              )
              (ap
                (λ m'. (
                  m',
                  pass_all ops (sub_charges rest)
                      (pass ops (own_charge x inner) (pass_all ops (sub_charges inner) k)),
                ))
                (ground arith)))
