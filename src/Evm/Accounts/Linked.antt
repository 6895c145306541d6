-- ===== src/Evm/Accounts/Linked.antt =====
-- The two maps of modules/evm-accounts/src/lib.rs mirror each other, whatever is claimed, created and killed.
use chain_upgrade.Base.{
  ℕ, ◌≡◌, refl, List, [], ◌∷◌, Option, none, some, if◌then◌else◌, ◌==◌, All, arith,
}
use chain_upgrade.Base.Map.{
  lookup, remove, Distinct, lookup-insert, lookup-remove, insert-Distinct, remove-Distinct,
}
use chain_upgrade.Substrate.{AccountId}
use chain_upgrade.Evm.Meter.{EvmAddress}
use chain_upgrade.Evm.Accounts.Mapping.{
  State, Externals, account_to_default_evm_address, link, forget, on_killed_account,
  on_killed_accounts,
}

module _ (World : Type 0) (externals : Externals World) (Known : AccountId → Type 0) where
  abbrev pub default_of : AccountId → EvmAddress
  default_of = account_to_default_evm_address World externals

  -- An account has an address just when the address has the account, and the default address of an
  -- account that takes part is nobody else's.
  pub record IsLinked (s : State World) : Type 0 where
    pub accounts_Distinct : Distinct s.accounts
    pub addresses_Distinct : Distinct s.evm_addresses
    pub forth :
        (w : AccountId) (a : EvmAddress)
        → lookup w s.evm_addresses ≡ some a
        → lookup a s.accounts ≡ some w
    pub back :
        (w : AccountId) (a : EvmAddress)
        → lookup a s.accounts ≡ some w
        → lookup w s.evm_addresses ≡ some a
    pub own : (w x : AccountId) → Known w → lookup (default_of w) s.accounts ≡ some x → x ≡ w

  pub link-IsLinked :
      (who : AccountId) (a : EvmAddress) (s : State World)
      → IsLinked s
      → lookup who s.evm_addresses ≡ none
      → lookup a s.accounts ≡ none
      → ((w : AccountId) → Known w → default_of w ≡ a → w ≡ who)
      → IsLinked (link World externals who a s)
  link-IsLinked who a s h p q mine = record {
    accounts_Distinct = insert-Distinct a who s.accounts h.accounts_Distinct;
    addresses_Distinct = insert-Distinct who a s.evm_addresses h.addresses_Distinct;
    forth = λ w b e. ground (
      arith,
      lookup-insert w who a s.evm_addresses,
      lookup-insert b a who s.accounts,
      h.forth w b,
    );
    back = λ w b e. ground (
      arith,
      lookup-insert w who a s.evm_addresses,
      lookup-insert b a who s.accounts,
      h.back w b,
    );
    own = λ w x k e.
        ground (arith, lookup-insert (default_of w) a who s.accounts, h.own w x k, mine w k);
  }

  removed :
      (who b : ℕ) (s : State World)
      → IsLinked s
      → lookup b (remove (default_of who) s.accounts)
        ≡ (if b == default_of who then none else lookup b s.accounts)
  removed who b s h = lookup-remove b (default_of who) s.accounts h.accounts_Distinct

  forget-IsLinked :
      (who : AccountId) (o : Option EvmAddress) (s : State World)
      → Known who
      → IsLinked s
      → lookup who s.evm_addresses ≡ o
      → IsLinked (forget World externals who o s)
  forget-IsLinked who none s k h n = record {
    accounts_Distinct = remove-Distinct (default_of who) s.accounts h.accounts_Distinct;
    addresses_Distinct = h.addresses_Distinct;
    forth = λ w b e. ground (arith, removed who b s h, h.forth w b e, h.own who w k);
    back = λ w b e. ground (arith, removed who b s h, h.back w b);
    own = λ w x l e. ground (arith, removed who (default_of w) s h, h.own w x l);
  }
  forget-IsLinked who (some a) s k h n =
      let rest = remove (default_of who) s.accounts in
      let d = remove-Distinct (default_of who) s.accounts h.accounts_Distinct in
      record {
        accounts_Distinct = remove-Distinct a rest d;
        addresses_Distinct = remove-Distinct who s.evm_addresses h.addresses_Distinct;
        forth = λ w b e. ground (
          arith,
          lookup-remove b a rest d,
          removed who b s h,
          lookup-remove w who s.evm_addresses h.addresses_Distinct,
          h.forth w b,
          h.forth who a,
          h.own who w k,
        );
        back = λ w b e. ground (
          arith,
          lookup-remove b a rest d,
          removed who b s h,
          lookup-remove w who s.evm_addresses h.addresses_Distinct,
          h.back w b,
        );
        own = λ w x l e. ground (
          arith,
          lookup-remove (default_of w) a rest d,
          removed who (default_of w) s h,
          h.own w x l,
        );
      }

  pub on_killed_account-IsLinked :
      (who : AccountId) (s : State World)
      → Known who
      → IsLinked s
      → IsLinked (on_killed_account World externals who s)
  unfolding on_killed_account
  on_killed_account-IsLinked who s k h = forget-IsLinked who (lookup who s.evm_addresses) s k h refl

  -- What is not there is not there after a killed account either.
  abbrev pub Absent : AccountId → EvmAddress → State World → Type 0
  Absent w a s = (lookup w s.evm_addresses ≡ none) × (lookup a s.accounts ≡ none)

  forget-Absent :
      (who w : AccountId) (a : EvmAddress) (o : Option EvmAddress) (s : State World)
      → IsLinked s
      → Absent w a s
      → Absent w a (forget World externals who o s)
  forget-Absent who w a none s h n = ground (arith, removed who a s h)
  forget-Absent who w a (some b) s h n = ground (
    arith,
    removed who a s h,
    lookup-remove a b (remove (default_of who) s.accounts)
        (remove-Distinct (default_of who) s.accounts h.accounts_Distinct),
    lookup-remove w who s.evm_addresses h.addresses_Distinct,
  )

  pub on_killed_accounts-IsLinked :
      (killed : List AccountId) (w : AccountId) (a : EvmAddress) (s : State World)
      → All Known killed
      → IsLinked s
      → Absent w a s
      → IsLinked (on_killed_accounts World externals killed s)
        × Absent w a (on_killed_accounts World externals killed s)
  unfolding on_killed_accounts on_killed_account
  on_killed_accounts-IsLinked [] w a s ks h n = (h, n)
  on_killed_accounts-IsLinked (who ∷ killed) w a s ks h n =
      on_killed_accounts-IsLinked killed w a (on_killed_account World externals who s) ks.1
        (on_killed_account-IsLinked who s ks.0 h)
        (forget-Absent who w a (lookup who s.evm_addresses) s h n)
