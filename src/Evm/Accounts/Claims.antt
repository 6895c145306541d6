-- ===== src/Evm/Accounts/Claims.antt =====
-- What a successful claim of modules/evm-accounts/src/lib.rs has done.
use chain_upgrade.Base.{
  ℕ, ◌≡◌, ◌⊎◌, inl, inr, true, List, ◌∷◌, none, some, ok, Bool-cases, Result-cases, arith,
}
use chain_upgrade.Base.Map.{lookup, lookup-insert}
use chain_upgrade.Substrate.{AccountId, Dispatch}
use chain_upgrade.Evm.Meter.{EvmAddress}
use chain_upgrade.Evm.Accounts.Text.{Error}
use chain_upgrade.Evm.Accounts.Mapping.{
  is_linked, lookup_source, address20, claim_account_event, State, Externals, get_evm_address,
  get_account_id, link, Event, get_or_create_evm_address, on_killed_accounts, signer, merge,
  claim_account, claim_default_account,
}

module _ (World : Type 0) (externals : Externals World) where
  pub merge_ok :
      (account_id who : AccountId) (s t : State World)
      → merge World externals account_id who s ≡ ok t
      → (t ≡ s)
        ⊎ ((moved : List AccountId × World) × (externals.transfer_all account_id who s.world
              ≡ ok moved)
            × (t ≡ on_killed_accounts World externals moved.0 (record s { world = moved.1 })))
  unfolding merge
  merge_ok account_id who s t e = elim (Bool-cases (externals.account_exists account_id s.world)) [
    | inl b ↦ elim (Result-cases (externals.transfer_all account_id who s.world)) [
      | inl (moved, p) ↦ inr (moved, p, ground arith)
      | inr (why, p) ↦ ground arith
    ]
    | inr b ↦ inl (ground arith)
  ]

  -- A claim that succeeds is of an account and an address that had no mapping, signed for the account
  -- with the key of the address. It moves the balance of the account that the address stood for, links
  -- both ways, and reports the claim.
  pub claim_account_ok :
      (origin : Dispatch Error AccountId) (a : EvmAddress) (signature : List ℕ) (s t : State World)
      → claim_account World externals origin a signature s ≡ ok t
      → (who : AccountId) × (u : State World) × (w : World) × (origin ≡ ok who)
        × (lookup who s.evm_addresses ≡ none)
        × (lookup a s.accounts ≡ none)
        × (signer World externals who signature ≡ ok a)
        × (merge World externals (get_account_id World externals a s) who s ≡ ok u)
        × (externals.on_claim who u.world ≡ ok w)
        × (t ≡ record (link World externals who a u) {
          world = w;
          events = claim_account_event who a ∷ u.events;
        })
  unfolding claim_account
  claim_account_ok origin a signature s t e = elim (Result-cases origin) [
    | inr (why, p) ↦ ground arith
    | inl (who, p) ↦ elim (Result-cases (signer World externals who signature)) [
      | inr (why, q) ↦ ground arith
      | inl (b, q) ↦
          elim (Result-cases (merge World externals (get_account_id World externals a s) who s)) [
            | inr (why, r) ↦ ground arith
            | inl (u, r) ↦ elim (Result-cases (externals.on_claim who u.world)) [
              | inr (why, v) ↦ ground arith
              | inl (w, v) ↦
                  (who, u, w, p, ground arith, ground arith, ground arith, r, v, ground arith)
            ]
          ]
    ]
  ]

  -- A default claim that succeeds.
  pub claim_default_account_ok :
      (origin : Dispatch Error AccountId) (s t : State World)
      → claim_default_account World externals origin s ≡ ok t
      → (who : AccountId) × (w : World) × (es : List Event) × (origin ≡ ok who)
        × (t ≡ record ((get_or_create_evm_address World externals who s).1) {
          world = w;
          events = es;
        })
  unfolding claim_default_account
  claim_default_account_ok origin s t e = elim (Result-cases origin) [
    | inr (why, p) ↦ ground arith
    | inl (who, p) ↦
        let (a, created) = get_or_create_evm_address World externals who s in
        elim (Result-cases (externals.on_claim who created.world)) [
          | inr (why, v) ↦ ground arith
          | inl (w, v) ↦ (who, w, claim_account_event who a ∷ created.events, p, ground arith)
        ]
  ]

  -- After a claim the address stands for the account and the account has the address.
  pub claim_account_lookup :
      (origin : Dispatch Error AccountId) (a : EvmAddress) (signature : List ℕ) (s t : State World)
      → claim_account World externals origin a signature s ≡ ok t
      → (who : AccountId) × (origin ≡ ok who)
        × (signer World externals who signature ≡ ok a)
        × (get_account_id World externals a t ≡ who)
        × (get_evm_address World externals who t ≡ some a)
        × (is_linked World externals who a t ≡ true)
        × (lookup_source World externals (address20 a) t ≡ some who)
  unfolding get_account_id get_evm_address is_linked lookup_source
  claim_account_lookup origin a signature s t e =
      let (who, u, w, p, n, f, signed, merged, claimed, same) =
        claim_account_ok origin a signature s t e in
      let there : lookup a t.accounts ≡ some who =
        grind (arith, same, lookup-insert a a who u.accounts) in
      let back : lookup who t.evm_addresses ≡ some a =
        grind (arith, same, lookup-insert who who a u.evm_addresses) in
      (who, p, signed, ground arith, ground arith, ground arith, ground arith)
