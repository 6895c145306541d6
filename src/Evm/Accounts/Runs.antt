-- ===== src/Evm/Accounts/Runs.antt =====
-- Histories of claims, created addresses and killed accounts of modules/evm-accounts/src/lib.rs.
use chain_upgrade.Base.{
  ℕ, ◌≡◌, ◌≢◌, inl, inr, refl, sym, List, [], ◌∷◌, Option, none, some, ok, Option-cases,
  Result-cases, All, settle, arith, subst,
}
use chain_upgrade.Base.Map.{lookup}
use chain_upgrade.Substrate.{AccountId, Dispatch}
use chain_upgrade.Evm.Meter.{EvmAddress}
use chain_upgrade.Evm.Accounts.Text.{Error}
use chain_upgrade.Evm.Accounts.Mapping.{
  claim_account_event, State, Externals, get_evm_address, get_account_id, link, or_create, Event,
  get_or_create_evm_address, on_killed_account, signer, merge, claim_account, claim_default_account,
}
use chain_upgrade.Evm.Accounts.Claims.{merge_ok, claim_account_ok, claim_default_account_ok}
use chain_upgrade.Evm.Accounts.Linked.{
  default_of, IsLinked, Absent, link-IsLinked, on_killed_account-IsLinked,
  on_killed_accounts-IsLinked,
}

-- A call of this module, or what other pallets have it do.
pub data Step : Type 0 where
  claim_account_step : Dispatch Error AccountId → EvmAddress → List ℕ → Step
  claim_default_account_step : Dispatch Error AccountId → Step
  create_step : AccountId → Step
  killed_step : AccountId → Step

abbrev pub empty : {World : Type 0} → World → State World
empty w = record { accounts = []; evm_addresses = []; world = w; events = [] }

module _ (World : Type 0) (externals : Externals World) where
  unfoldable pub step : State World → Step → State World
  step s (claim_account_step origin a signature) =
      settle s (claim_account World externals origin a signature s)
  step s (claim_default_account_step origin) =
      settle s (claim_default_account World externals origin s)
  step s (create_step who) = (get_or_create_evm_address World externals who s).1
  step s (killed_step who) = on_killed_account World externals who s

  unfoldable pub run : State World → List Step → State World
  run s [] = s
  run s (x ∷ xs) = run (step s x) xs

-- The accounts that a step acts for take part.
abbrev pub Knows : (AccountId → Type 0) → Step → Type 0
Knows Known (claim_account_step origin a signature) =
    (who : AccountId) → origin ≡ ok who → Known who
Knows Known (claim_default_account_step origin) = (who : AccountId) → origin ≡ ok who → Known who
Knows Known (create_step who) = Known who
Knows Known (killed_step who) = Known who

module _ (World : Type 0) (externals : Externals World) (Known : AccountId → Type 0)
    -- No two accounts that take part have the same hash,
    (inj : (w x : AccountId)
      → Known w
      → Known x
      → default_of World externals Known w ≡ default_of World externals Known x
      → w ≡ x)
    -- nobody has a key to an address that is such a hash,
    (no_key : (who w : AccountId) (signature : List ℕ) (a : EvmAddress)
      → Known w
      → signer World externals who signature ≡ ok a
      → default_of World externals Known w ≢ a)
    -- and transfers kill only such accounts.
    (kills : (from to : AccountId) (v w : World) (killed : List AccountId)
      → externals.transfer_all from to v ≡ ok (killed, w)
      → All Known killed) where
  default_Absent :
      (who : AccountId) (s : State World)
      → Known who
      → IsLinked World externals Known s
      → lookup who s.evm_addresses ≡ none
      → lookup (default_of World externals Known who) s.accounts ≡ none
  default_Absent who s k h n =
      elim (Option-cases (lookup (default_of World externals Known who) s.accounts)) [
        | inl m ↦ m
        | inr (x, e) ↦
            grind (arith, h.own who x k e, h.back x (default_of World externals Known who) e)
      ]

  or_create-IsLinked :
      (who : AccountId) (s : State World) (o : Option EvmAddress)
      → Known who
      → IsLinked World externals Known s
      → get_evm_address World externals who s ≡ o
      → IsLinked World externals Known (or_create World externals who s o).1
  unfolding get_evm_address
  or_create-IsLinked who s (some a) k h e = h
  or_create-IsLinked who s none k h e =
      let n : lookup who s.evm_addresses ≡ none = ground arith in
      link-IsLinked World externals Known who (default_of World externals Known who) s h n
        (default_Absent who s k h n) λ w l same. inj w who l k same

  create-IsLinked :
      (who : AccountId) (s : State World)
      → Known who
      → IsLinked World externals Known s
      → IsLinked World externals Known (get_or_create_evm_address World externals who s).1
  unfolding get_or_create_evm_address
  create-IsLinked who s k h =
      or_create-IsLinked who s (get_evm_address World externals who s) k h refl

  elsewhere-IsLinked :
      (s : State World) (w : World) (es : List Event)
      → IsLinked World externals Known s
      → IsLinked World externals Known (record s { world = w; events = es })
  elsewhere-IsLinked s w es h = record {
    accounts_Distinct = h.accounts_Distinct;
    addresses_Distinct = h.addresses_Distinct;
    forth = h.forth;
    back = h.back;
    own = h.own;
  }

  merge-IsLinked :
      (account_id who w : AccountId) (a : EvmAddress) (s t : State World)
      → IsLinked World externals Known s
      → Absent World externals Known w a s
      → merge World externals account_id who s ≡ ok t
      → IsLinked World externals Known t × Absent World externals Known w a t
  merge-IsLinked account_id who w a s t h n e =
      elim (merge_ok World externals account_id who s t e) [
        | inl same ↦
            subst (λ u. IsLinked World externals Known u × Absent World externals Known w a u)
              (sym same) (h, n)
        | inr (moved, p, same) ↦
            subst (λ u. IsLinked World externals Known u × Absent World externals Known w a u)
              (sym same)
              (on_killed_accounts-IsLinked World externals Known moved.0 w a
                (record s { world = moved.1 }) (kills account_id who s.world moved.1 moved.0 p)
                (elsewhere-IsLinked s moved.1 s.events h) n)
      ]

  claimed-IsLinked :
      (origin : Dispatch Error AccountId) (a : EvmAddress) (signature : List ℕ) (s t : State World)
      → Knows Known (claim_account_step origin a signature)
      → IsLinked World externals Known s
      → claim_account World externals origin a signature s ≡ ok t
      → IsLinked World externals Known t
  claimed-IsLinked origin a signature s t k h e =
      let (who, u, w, p, n, f, signed, merged, _, same) =
        claim_account_ok World externals origin a signature s t e in
      let (g, m) =
        merge-IsLinked (get_account_id World externals a s) who who a s u h (n, f) merged in
      subst (IsLinked World externals Known) (sym same) (
        elsewhere-IsLinked (link World externals who a u) w (claim_account_event who a ∷ u.events) (
          link-IsLinked World externals Known who a u g m.0 m.1
            λ x l clash. absurd (no_key who x signature a l signed clash)))

  claim_account-IsLinked :
      (origin : Dispatch Error AccountId) (a : EvmAddress) (signature : List ℕ) (s : State World)
      → Knows Known (claim_account_step origin a signature)
      → IsLinked World externals Known s
      → IsLinked World externals Known
          (settle s (claim_account World externals origin a signature s))
  claim_account-IsLinked origin a signature s k h =
      elim (Result-cases (claim_account World externals origin a signature s)) [
        | inl (t, e) ↦
            subst (λ r. IsLinked World externals Known (settle s r)) (sym e)
              (claimed-IsLinked origin a signature s t k h e)
        | inr (why, e) ↦ subst (λ r. IsLinked World externals Known (settle s r)) (sym e) h
      ]

  claim_default-IsLinked :
      (origin : Dispatch Error AccountId) (s : State World)
      → Knows Known (claim_default_account_step origin)
      → IsLinked World externals Known s
      → IsLinked World externals Known (settle s (claim_default_account World externals origin s))
  claim_default-IsLinked origin s k h =
      elim (Result-cases (claim_default_account World externals origin s)) [
        | inl (t, e) ↦
            let (who, w, es, p, same) = claim_default_account_ok World externals origin s t e in
            subst (λ r. IsLinked World externals Known (settle s r)) (sym e)
              (subst (IsLinked World externals Known) (sym same) (
                elsewhere-IsLinked (get_or_create_evm_address World externals who s).1 w es
                  (create-IsLinked who s (k who p) h)))
        | inr (why, e) ↦ subst (λ r. IsLinked World externals Known (settle s r)) (sym e) h
      ]

  step-IsLinked :
      (s : State World) (x : Step)
      → Knows Known x
      → IsLinked World externals Known s
      → IsLinked World externals Known (step World externals s x)
  unfolding step
  step-IsLinked s (claim_account_step origin a signature) k h =
      claim_account-IsLinked origin a signature s k h
  step-IsLinked s (claim_default_account_step origin) k h = claim_default-IsLinked origin s k h
  step-IsLinked s (create_step who) k h = create-IsLinked who s k h
  step-IsLinked s (killed_step who) k h = on_killed_account-IsLinked World externals Known who s k h

  run-IsLinked :
      (s : State World) (xs : List Step)
      → All (Knows Known) xs
      → IsLinked World externals Known s
      → IsLinked World externals Known (run World externals s xs)
  unfolding run
  run-IsLinked s [] ks h = h
  run-IsLinked s (x ∷ xs) ks h =
      run-IsLinked (step World externals s x) xs ks.1 (step-IsLinked s x ks.0 h)

  -- After every history of claims, created addresses and killed accounts from the empty storage, the
  -- two maps mirror each other, without repetition, and nobody else has the default address of an
  -- account that takes part; if no two such accounts have the same default address, no signature is
  -- recovered to one, and transfers kill only such accounts.
  pub empty-run-IsLinked :
      (w : World) (xs : List Step)
      → All (Knows Known) xs
      → IsLinked World externals Known (run World externals (empty w) xs)
  unfolding lookup
  empty-run-IsLinked w xs ks = run-IsLinked (empty w) xs ks (record {
    accounts_Distinct = tt;
    addresses_Distinct = tt;
    forth = λ x a e. ground arith;
    back = λ x a e. ground arith;
    own = λ x y l e. ground arith;
  })
