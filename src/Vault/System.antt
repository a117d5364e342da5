-- ===== src/Vault/System.antt =====
-- internal/app/vault.go: the laws of `osAccountVault`, over a credential store that keeps what it is
-- given.
use mathlib.Core.Bool.{false≢true}
use agy_swap.Prelude.{
  if-cases, Bool, none, String, ◌≡◌, ◌≢◌, ◌⊎◌, ap, sym, ◌∙◌, true, false, some, eq_iff, refl, arith,
  ◌==◌, ◌&&◌, Bool-cases, inl, inr,
}
use agy_swap.Prelude.Text.{trim_space, trim_space_idem}
use agy_swap.Vault.{AccountVault, IsLawful, IsForgetting, read, Platform, os_account_vault}
use agy_swap.Vault.Hybrid.Laws.{IsTrimming}

-- What the program relies on of the credential store: a trimmed token that was stored is found under the very same
-- reference; a store that reports a failure, for instance one that ran out of time, has left the old value or the
-- new one; a reference that was cleared is not found; and other references are left alone.
pub record IsKeeping {S : Type 0} (p : Platform S) : Type 0 where
  pub lookup-store :
      (s : S) (ref token : String)
      → trim_space token ≡ token
      → (p.store s ref token).0 ≡ true
      → (p.lookup (p.store s ref token).1 ref).0 ≡ token
  pub store_failed :
      (s : S) (ref token : String)
      → trim_space token ≡ token
      → (p.store s ref token).0 ≡ false
      → ((p.lookup (p.store s ref token).1 ref).0 ≡ (p.lookup s ref).0)
        ⊎ ((p.lookup (p.store s ref token).1 ref).0 ≡ token)
  pub lookup-clear :
      (s : S) (ref : String) → (p.clear s ref).0 ≡ true → (p.lookup (p.clear s ref).1 ref).0 ≡ ""
  pub lookup-store_ne :
      (s : S) (ref token other : String)
      → ref ≢ other
      → (p.lookup (p.store s ref token).1 other).0 ≡ (p.lookup s other).0
  pub lookup-clear_ne :
      (s : S) (ref other : String)
      → ref ≢ other
      → (p.lookup (p.clear s ref).1 other).0 ≡ (p.lookup s other).0
  pub lookup-lookup :
      (s : S) (ref other : String) → (p.lookup (p.lookup s ref).1 other).0 ≡ (p.lookup s other).0

-- What is found is trimmed.
pub record IsTrimmingPlatform {S : Type 0} (p : Platform S) : Type 0 where
  pub lookup_trimmed : (s : S) (ref : String) → trim_space (p.lookup s ref).0 ≡ (p.lookup s ref).0

module _ {S : Type 0} (p : Platform S) (k : IsKeeping p) where
  abbrev os : AccountVault S
  os = os_account_vault p

  untrimmed : (ref other : String) → trim_space ref ≢ trim_space other → ref ≢ trim_space other
  untrimmed ref other ne e = ne (ap trim_space e ∙ trim_space_idem other)

  unstored :
      (s : S) (ref token : String)
      → trim_space token ≡ token
      → (os.set s ref token).0 ≡ false
      → (read os (os.set s ref token).1 ref ≡ read os s ref)
        ⊎ (read os (os.set s ref token).1 ref ≡ some token)
  unfolding os_account_vault
  unstored s ref token t failed = elim (Bool-cases (ref == trim_space ref)) [
    | inl same ↦
        let e : ref ≡ trim_space ref = (eq_iff ref (trim_space ref)).0 same in
        rw (sym e) (ground (arith, k.store_failed s ref token t, eq_iff token ""))
    | inr padded ↦ ground (
      arith,
      k.lookup-store_ne s ref token (trim_space ref)
          (λ e. false≢true (sym padded ∙ (eq_iff ref (trim_space ref)).1 e)),
    )
  ]

  -- Over a credential store that keeps what it is given, the vault of the operating system keeps the promises of
  -- `IsLawful`.
  pub os_account_vault-IsLawful : IsLawful (os_account_vault p)
  unfolding os_account_vault
  os_account_vault-IsLawful = record {
    get-set = λ s ref token r h ok.
        rw r (
          ground
            (arith, k.lookup-store s ref token h, eq_iff token "", eq_iff (trim_space ref) ""));
    get-set_failed = unstored;
    get-set_ne = λ s ref token other ne.
        ground (arith, k.lookup-store_ne s ref token (trim_space other) (untrimmed ref other ne));
    get-delete_ne = λ s ref other ne.
        ground (arith, k.lookup-clear_ne s ref (trim_space other) (untrimmed ref other ne));
    set_blank = λ s ref token h. rw h refl;
    get-trim_space = λ s ref. ground (arith, trim_space_idem ref);
    not_empty = λ s ref h. ground (arith, eq_iff (p.lookup s (trim_space ref)).0 "");
    get-get = λ s ref other. ground (arith, k.lookup-lookup s (trim_space ref) (trim_space other));
  }

  -- A Delete that reports success removes the token of a reference that is not padded.
  pub os_account_vault-IsForgetting :
      IsForgetting
        (os_account_vault p)
        (λ s ref. ((os_account_vault p).delete s ref).0 && ref == trim_space ref)
  unfolding os_account_vault
  os_account_vault-IsForgetting = record {
    get-delete = λ s ref sure.
        let e : ref ≡ trim_space ref = (eq_iff ref (trim_space ref)).0 (ground (arith, sure)) in
        if-cases (λ (r : Bool × S). read os r.1 ref ≡ none) (trim_space ref == "") (true, s)
          (p.clear s ref) (λ blank. ground (arith, blank))
          (λ full.
            let done : (p.clear s ref).0 ≡ true = ground (arith, sure, full) in
            let gone : (p.lookup (p.clear s ref).1 (trim_space ref)).0 ≡ "" =
              ap (λ r. (p.lookup (p.clear s ref).1 r).0) (sym e) ∙ k.lookup-clear s ref done in
            let missing = (eq_iff (p.lookup (p.clear s ref).1 (trim_space ref)).0 "").1 gone in
            ground (arith, missing, full));
  }

  pub os_account_vault-IsTrimming : IsTrimmingPlatform p → IsTrimming (os_account_vault p)
  unfolding os_account_vault
  os_account_vault-IsTrimming t = record {
    trimmed = λ s ref token h. ground (arith, t.lookup_trimmed s (trim_space ref));
  }
