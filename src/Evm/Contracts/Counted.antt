-- ===== src/Evm/Contracts/Counted.antt =====
-- The invariant of shared code: what `ref_code`, `deref_code`, `on_contract_initialization` and
-- `remove_account` of modules/evm/src/lib.rs keep.
use chain_upgrade.Base.{
  ℕ, ◌+◌, ◌-◌, ◌≡◌, ◌≤◌, refl, sym, ap, subst, inl, inr, ◌∙◌, true, List, [], Option, none, some,
  Option-cases, Bool-cases, if◌then◌else◌, ◌==◌, length, u32_max, sat_add, arith,
}
use chain_upgrade.Base.Map.{
  Map, lookup, insert, remove, is_some, Distinct, lookup-insert, lookup-remove, insert-Distinct,
  remove-Distinct,
}
use chain_upgrade.Evm.Meter.{EvmAddress}
use chain_upgrade.Evm.Contracts.Storage.{
  Hash, ContractInfo, EvmAccountInfo, CodeInfo, State, Config,
}
use chain_upgrade.Evm.Contracts.Code.{
  contract_of, size_of, deref_info, deref_code, ref_info, deref_contract, code_hash_at_address,
  code_at_address,
}
use chain_upgrade.Evm.Contracts.Counts.{refs, count_at, refs-le-length, refs-lookup}

module _ {Ledger : Type 0} where
  pub ref_info-accounts :
      (h : Hash) (code : List ℕ) (o : Option CodeInfo) (s : State Ledger)
      → (ref_info h code o s).accounts ≡ s.accounts
  ref_info-accounts h code none s = refl
  ref_info-accounts h code (some info) s = refl

  pub deref_info-accounts :
      (h : Hash) (o : Option CodeInfo) (s : State Ledger) → (deref_info h o s).accounts ≡ s.accounts
  deref_info-accounts h none s = refl
  deref_info-accounts h (some info) s = ground arith

  pub deref_info-ledger :
      (h : Hash) (o : Option CodeInfo) (s : State Ledger) → (deref_info h o s).ledger ≡ s.ledger
  deref_info-ledger h none s = refl
  deref_info-ledger h (some info) s = ground arith

  deref_code-accounts : (h : Hash) (s : State Ledger) → (deref_code h s).accounts ≡ s.accounts
  unfolding deref_code
  deref_code-accounts h s = deref_info-accounts h (lookup h s.code_infos) s

  pub deref_contract-accounts :
      (o : Option ContractInfo) (s : State Ledger) → (deref_contract o s).accounts ≡ s.accounts
  deref_contract-accounts none s = refl
  deref_contract-accounts (some c) s = deref_code-accounts c.code_hash s

module _ {Ledger : Type 0} (config : Config) where
  -- At most `n` accounts; no key twice; code stands under its hash, and under every hash that is
  -- counted; and no hash has more contracts than its count.
  pub record IsCounted (n : ℕ) (s : State Ledger) : Type 0 where
    pub few : length s.accounts ≤ n
    pub accounts_Distinct : Distinct s.accounts
    pub infos_Distinct : Distinct s.code_infos
    pub codes_Distinct : Distinct s.codes
    pub hashed : (h : Hash) (code : List ℕ) → lookup h s.codes ≡ some code → config.keccak code ≡ h
    pub present :
        (h : Hash) (info : CodeInfo)
        → lookup h s.code_infos ≡ some info
        → is_some (lookup h s.codes) ≡ true
    pub counted : (h : Hash) → refs h s.accounts ≤ count_at (lookup h s.code_infos)

  -- A contract's code is stored.
  contract_stored :
      (n : ℕ) (j : EvmAddress) (c : ContractInfo) (s : State Ledger)
      → IsCounted n s
      → contract_of (lookup j s.accounts) ≡ some c
      → is_some (lookup c.code_hash s.codes) ≡ true
  contract_stored n j c s v e = elim (Option-cases (lookup c.code_hash s.code_infos)) [
    | inl m ↦ ground (arith, refs-lookup j c s.accounts e, v.counted c.code_hash)
    | inr (info, m) ↦ v.present c.code_hash info m
  ]

  -- What an account shows is code with the hash that it shows, contract or not.
  pub IsCounted-hash :
      (n : ℕ) (j : EvmAddress) (s : State Ledger)
      → IsCounted n s
      → config.keccak (code_at_address config j s) ≡ code_hash_at_address config j s
  unfolding code_at_address code_hash_at_address
  IsCounted-hash n j s v = elim (Option-cases (contract_of (lookup j s.accounts))) [
    | inl none_at ↦ elim (Option-cases (lookup (config.keccak []) s.codes)) [
      | inl m ↦ ground arith
      | inr (code, m) ↦ ground (arith, v.hashed (config.keccak []) code m)
    ]
    | inr (c, e) ↦ elim (Option-cases (lookup c.code_hash s.codes)) [
      | inl m ↦ ground (arith, contract_stored n j c s v e)
      | inr (code, m) ↦ ground (arith, v.hashed c.code_hash code m)
    ]
  ]

  pub ref_info-IsCounted :
      (n : ℕ) (h : Hash) (code : List ℕ) (o : Option CodeInfo) (s : State Ledger)
      → n + 1 ≤ u32_max
      → config.keccak code ≡ h
      → IsCounted n s
      → lookup h s.code_infos ≡ o
      → IsCounted n (ref_info h code o s)
        × (refs h s.accounts + 1 ≤ count_at (lookup h (ref_info h code o s).code_infos))
  ref_info-IsCounted n h code none s small e v p =
      let new : CodeInfo = record { code_size = size_of code; ref_count = 1 } in
      (
        record {
          few = v.few;
          accounts_Distinct = v.accounts_Distinct;
          infos_Distinct = insert-Distinct h new s.code_infos v.infos_Distinct;
          codes_Distinct = insert-Distinct h code s.codes v.codes_Distinct;
          hashed = λ j other q. ground (arith, lookup-insert j h code s.codes, v.hashed j other);
          present = λ j info q. ground (
            arith,
            lookup-insert j h code s.codes,
            lookup-insert j h new s.code_infos,
            v.present j info,
          );
          counted = λ j. ground (arith, lookup-insert j h new s.code_infos, v.counted j);
        },
        ground (arith, lookup-insert h h new s.code_infos, v.counted h),
      )
  ref_info-IsCounted n h code (some info) s small e v p =
      let new : CodeInfo = record info { ref_count = sat_add u32_max info.ref_count 1 } in
      let bound = λ (j : Hash). refs-le-length j s.accounts in
      (
        record {
          few = v.few;
          accounts_Distinct = v.accounts_Distinct;
          infos_Distinct = insert-Distinct h new s.code_infos v.infos_Distinct;
          codes_Distinct = v.codes_Distinct;
          hashed = v.hashed;
          present = λ j other q.
              ground
                (arith, lookup-insert j h new s.code_infos, v.present j other, v.present h info p);
          counted =
              λ j. ground (arith, lookup-insert j h new s.code_infos, v.counted j, bound j, v.few);
        },
        ground (arith, lookup-insert h h new s.code_infos, v.counted h, bound h, v.few),
      )

  -- The invariant reads three maps of the storage.
  pub same_maps :
      (n : ℕ) (s t : State Ledger)
      → t.accounts ≡ s.accounts
      → t.code_infos ≡ s.code_infos
      → t.codes ≡ s.codes
      → IsCounted n s
      → IsCounted n t
  same_maps n s t a i c v = record {
    few = subst (λ m. length m ≤ n) (sym a) v.few;
    accounts_Distinct = subst Distinct (sym a) v.accounts_Distinct;
    infos_Distinct = subst Distinct (sym i) v.infos_Distinct;
    codes_Distinct = subst Distinct (sym c) v.codes_Distinct;
    hashed = λ h code q. v.hashed h code (ap (lookup h) (sym c) ∙ q);
    present =
        λ h info q. ap (λ m. is_some (lookup h m)) c ∙ v.present h info (ap (lookup h) (sym i) ∙ q);
    counted = λ h.
        subst (λ m. refs h m ≤ count_at (lookup h t.code_infos)) (sym a)
          (subst (λ m. refs h s.accounts ≤ count_at (lookup h m)) (sym i) (v.counted h));
  }

  -- Other accounts with the same counts or fewer.
  pub fewer :
      (n : ℕ) (s : State Ledger) (m : Map EvmAccountInfo)
      → IsCounted n s
      → length m ≤ n
      → Distinct m
      → ((h : Hash) → refs h m ≤ refs h s.accounts)
      → IsCounted n (record s { accounts = m })
  fewer n s m v l d le = record {
    few = l;
    accounts_Distinct = d;
    infos_Distinct = v.infos_Distinct;
    codes_Distinct = v.codes_Distinct;
    hashed = v.hashed;
    present = v.present;
    counted = λ h. omega (arith, le h, v.counted h);
  }

  -- A reference is dropped, and the accounts are now `m`, with one contract less of that hash.
  pub deref_info-IsCounted :
      (n : ℕ) (h : Hash) (o : Option CodeInfo) (m : Map EvmAccountInfo) (s : State Ledger)
      → IsCounted n s
      → lookup h s.code_infos ≡ o
      → length m ≤ n
      → Distinct m
      → ((j : Hash) → refs j m + (if h == j then 1 else 0) ≡ refs j s.accounts)
      → IsCounted n (record (deref_info h o s) { accounts = m })
  deref_info-IsCounted n h none m s v p l d less = fewer n s m v l d (λ j. ground (arith, less j))
  deref_info-IsCounted n h (some info) m s v p l d less =
      elim (Bool-cases (info.ref_count - 1 == 0)) [
        | inl b ↦
            let t : State Ledger = record s {
              codes = remove h s.codes;
              code_infos = remove h s.code_infos;
            } in
            let same : deref_info h (some info) s ≡ t = ground arith in
            subst (λ u. IsCounted n (record u { accounts = m })) (sym same)
              (record {
                few = l;
                accounts_Distinct = d;
                infos_Distinct = remove-Distinct h s.code_infos v.infos_Distinct;
                codes_Distinct = remove-Distinct h s.codes v.codes_Distinct;
                hashed = λ j code q.
                    ground (arith, lookup-remove j h s.codes v.codes_Distinct, v.hashed j code);
                present = λ j other q. ground (
                  arith,
                  lookup-remove j h s.codes v.codes_Distinct,
                  lookup-remove j h s.code_infos v.infos_Distinct,
                  v.present j other,
                );
                counted = λ j.
                    ground
                      (arith, lookup-remove j h s.code_infos v.infos_Distinct, v.counted j, less j);
              })
        | inr b ↦
            let new : CodeInfo = record info { ref_count = info.ref_count - 1 } in
            let t : State Ledger = record s { code_infos = insert h new s.code_infos } in
            let same : deref_info h (some info) s ≡ t = ground arith in
            subst (λ u. IsCounted n (record u { accounts = m })) (sym same)
              (record {
                few = l;
                accounts_Distinct = d;
                infos_Distinct = insert-Distinct h new s.code_infos v.infos_Distinct;
                codes_Distinct = v.codes_Distinct;
                hashed = v.hashed;
                present = λ j other q. ground (
                  arith,
                  lookup-insert j h new s.code_infos,
                  v.present j other,
                  v.present h info p,
                );
                counted =
                    λ j. ground (arith, lookup-insert j h new s.code_infos, v.counted j, less j);
              })
      ]
