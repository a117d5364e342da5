-- ===== src/Vault/Hybrid/Laws.antt =====
-- internal/app/vault.go: the laws of `hybridVault`.
use agy_swap.Prelude.{
  String, Bool, ◌&&◌, ◌≡◌, ◌≢◌, ◌⊎◌, inl, inr, refl, sym, ◌∙◌, true, false, Option, none, some,
  ◌==◌, eq_iff, arith, Bool-cases, Option-cases,
}
use mathlib.Core.Bool.{false≢true}
use agy_swap.Prelude.Text.{trim_space}
use agy_swap.Vault.{AccountVault, IsLawful, IsForgetting, IsTolerant, read}
use agy_swap.Vault.Hybrid.{
  hybrid_vault, hybrid_get, hybrid_set, hybrid_delete, present, first_of_vaults, get_fallback,
  promote, drop_fallback, delete_fallback,
}

-- What a Get of the fallback reports is trimmed, as platformVaultGet of vault_unix.go trims it. That of
-- vault_windows.go does not, and is trimmed where the tokens that were stored are.
pub record IsTrimming {S : Type 0} (v : AccountVault S) : Type 0 where
  pub trimmed : (s : S) (ref token : String) → read v s ref ≡ some token → trim_space token ≡ token

present-eq : (o : Option String) → o ≢ some "" → present o ≡ o
unfolding present
present-eq none h = refl
present-eq (some value) h = elim (Bool-cases (value == "")) [
  | inl blank ↦ absurd (h (ground (arith, eq_iff value "")))
  | inr kept ↦ rw kept
]

or_else : Option String → Option String → Option String
or_else none y = y
or_else (some x) y = some x

module _ {S T : Type 0} (primary : AccountVault S) (fallback : AccountVault T)
    (p : IsLawful primary) (tolerant : IsTolerant primary) (f : IsLawful fallback)
    (trims : IsTrimming fallback) where
  abbrev both : AccountVault (S × T)
  both = hybrid_vault primary (some fallback)

  -- What the hybrid vault reads: the primary's token, or else the fallback's.
  read-hybrid :
      (st : S × T) (ref : String)
      → read both st ref ≡ or_else (read primary st.0 ref) (read fallback st.1 ref)
  unfolding hybrid_get or_else
  read-hybrid st ref = ground (
    arith,
    present-eq (read primary st.0 ref) (p.not_empty st.0 ref),
    present-eq (read fallback st.1 ref) (f.not_empty st.1 ref),
  )

  hybrid-get-set :
      (st : S × T) (ref token : String)
      → trim_space ref ≡ ref
      → trim_space token ≡ token
      → (hybrid_set primary (some fallback) st ref token).0 ≡ true
      → read both (hybrid_set primary (some fallback) st ref token).1 ref ≡ some token
  unfolding hybrid_set or_else
  hybrid-get-set st ref token r h ok = rw (read-hybrid _ ref, p.get-set st.0 ref token r h ok)

  hybrid-get-set_failed :
      (st : S × T) (ref token : String)
      → trim_space token ≡ token
      → (hybrid_set primary (some fallback) st ref token).0 ≡ false
      → (read both (hybrid_set primary (some fallback) st ref token).1 ref ≡ read both st ref)
        ⊎ (read both (hybrid_set primary (some fallback) st ref token).1 ref ≡ some token)
  unfolding hybrid_set or_else
  hybrid-get-set_failed st ref token h failed =
      rw (read-hybrid _ ref)
        (rw (read-hybrid st ref) (ground (arith, p.get-set_failed st.0 ref token h failed)))

  hybrid-get-set_ne :
      (st : S × T) (ref token other : String)
      → trim_space ref ≢ trim_space other
      → read both (hybrid_set primary (some fallback) st ref token).1 other ≡ read both st other
  unfolding hybrid_set drop_fallback
  hybrid-get-set_ne st ref token other ne =
      read-hybrid _ other
      ∙ ground (arith, p.get-set_ne st.0 ref token other ne, f.get-delete_ne st.1 ref other ne)
      ∙ sym (read-hybrid st other)

  hybrid-get-delete_ne :
      (st : S × T) (ref other : String)
      → trim_space ref ≢ trim_space other
      → read both (hybrid_delete primary (some fallback) st ref).1 other ≡ read both st other
  unfolding hybrid_delete delete_fallback
  hybrid-get-delete_ne st ref other ne =
      read-hybrid _ other
      ∙ ground (arith, p.get-delete_ne st.0 ref other ne, f.get-delete_ne st.1 ref other ne)
      ∙ sym (read-hybrid st other)

  hybrid-not_empty : (st : S × T) (ref : String) → read both st ref ≢ some ""
  unfolding or_else
  hybrid-not_empty st ref h =
      let both_read = read-hybrid st ref in
      ground (arith, both_read, p.not_empty st.0 ref, f.not_empty st.1 ref)

  hybrid-set_blank :
      (st : S × T) (ref token : String)
      → trim_space ref ≡ ""
      → (hybrid_set primary (some fallback) st ref token).0 ≡ false
  unfolding hybrid_set
  hybrid-set_blank st ref token h = p.set_blank st.0 ref token h

  hybrid-get-trim_space :
      (st : S × T) (ref : String) → read both st (trim_space ref) ≡ read both st ref
  hybrid-get-trim_space st ref =
      read-hybrid st (trim_space ref)
      ∙ rw (p.get-trim_space st.0 ref, f.get-trim_space st.1 ref) (sym (read-hybrid st ref))

  -- The primary vault after a token of the fallback was copied to it.
  promoted :
      (s : S) (ref token : String)
      → trim_space token ≡ token
      → let s' = (primary.set s ref token).1 in
        (read primary s' ref ≡ read primary s ref) ⊎ (read primary s' ref ≡ some token)
  promoted s ref token h = elim (Bool-cases (primary.set s ref token).0) [
    | inl done ↦ inr (tolerant.get-set_any s ref token h done)
    | inr failed ↦ p.get-set_failed s ref token h failed
  ]

  hybrid-get-get_self :
      (st : S × T) (ref : String)
      → read both (hybrid_get primary (some fallback) st ref).1 ref ≡ read both st ref
  unfolding or_else
  hybrid-get-get_self st ref =
      rw (read-hybrid (hybrid_get primary (some fallback) st ref).1 ref, read-hybrid st ref)
        (unfold hybrid_get first_of_vaults get_fallback promote in
          elim (Option-cases (read fallback st.1 ref)) [
            | inl absent ↦ ground (
              arith,
              p.get-get st.0 ref ref,
              f.get-get st.1 ref ref,
              present-eq (read primary st.0 ref) (p.not_empty st.0 ref),
              present-eq (read fallback st.1 ref) (f.not_empty st.1 ref),
            )
            | inr (b, here) ↦ ground (
              arith,
              p.get-get st.0 ref ref,
              f.get-get st.1 ref ref,
              present-eq (read primary st.0 ref) (p.not_empty st.0 ref),
              present-eq (read fallback st.1 ref) (f.not_empty st.1 ref),
              promoted (primary.get st.0 ref).1 ref b (trims.trimmed st.1 ref b here),
            )
          ])

  hybrid-get-get_ne :
      (st : S × T) (ref other : String)
      → trim_space ref ≢ trim_space other
      → read both (hybrid_get primary (some fallback) st ref).1 other ≡ read both st other
  unfolding or_else
  hybrid-get-get_ne st ref other ne =
      rw (read-hybrid (hybrid_get primary (some fallback) st ref).1 other, read-hybrid st other)
        (unfold hybrid_get first_of_vaults get_fallback promote in
          elim (Option-cases (read fallback st.1 ref)) [
            | inl absent ↦ ground (
              arith,
              p.get-get st.0 ref other,
              f.get-get st.1 ref other,
              present-eq (read fallback st.1 ref) (f.not_empty st.1 ref),
            )
            | inr (b, here) ↦ ground (
              arith,
              p.get-get st.0 ref other,
              f.get-get st.1 ref other,
              present-eq (read fallback st.1 ref) (f.not_empty st.1 ref),
              p.get-set_ne (primary.get st.0 ref).1 ref b other ne,
            )
          ])

  hybrid-get-get :
      (st : S × T) (ref other : String)
      → read both (hybrid_get primary (some fallback) st ref).1 other ≡ read both st other
  hybrid-get-get st ref other =
      let after = (hybrid_get primary (some fallback) st ref).1 in
      elim (Bool-cases (trim_space ref == trim_space other)) [
        | inl same ↦
            let e = (eq_iff (trim_space ref) (trim_space other)).0 same in
            cc (
              e,
              hybrid-get-trim_space after other,
              hybrid-get-trim_space after ref,
              hybrid-get-get_self st ref,
              hybrid-get-trim_space st ref,
              hybrid-get-trim_space st other,
            )
        | inr other_ref ↦
            hybrid-get-get_ne st ref other
              (λ e. false≢true (sym other_ref ∙ (eq_iff (trim_space ref) (trim_space other)).1 e))
      ]

  hybrid-get-delete :
      (sure_p : S → String → Bool) (sure_f : T → String → Bool)
      → IsForgetting primary sure_p
      → IsForgetting fallback sure_f
      → (st : S × T) (ref : String) → (sure_p st.0 ref && sure_f st.1 ref) ≡ true
      → read both (hybrid_delete primary (some fallback) st ref).1 ref ≡ none
  unfolding hybrid_delete delete_fallback or_else
  hybrid-get-delete sure_p sure_f g h st ref sure =
      read-hybrid _ ref
      ∙ ground (
        arith,
        g.get-delete st.0 ref (ground (arith, sure)),
        h.get-delete st.1 ref (ground (arith, sure)),
      )

  -- A lawful vault that tolerates padded references, in front of a lawful one whose tokens are trimmed, keeps the
  -- promises of `IsLawful` too; and a Delete of the two removes the token where both Deletes are sure to remove it.
  pub hybrid_vault-IsLawful :
      (sure_p : S → String → Bool) (sure_f : T → String → Bool)
      → IsForgetting primary sure_p
      → IsForgetting fallback sure_f
      → IsLawful both × IsForgetting both (λ st ref. sure_p st.0 ref && sure_f st.1 ref)
  hybrid_vault-IsLawful sure_p sure_f g h = (
    record {
      get-set = hybrid-get-set;
      get-set_failed = hybrid-get-set_failed;
      get-set_ne = hybrid-get-set_ne;
      get-delete_ne = hybrid-get-delete_ne;
      set_blank = hybrid-set_blank;
      get-trim_space = hybrid-get-trim_space;
      not_empty = hybrid-not_empty;
      get-get = hybrid-get-get;
    },
    record { get-delete = hybrid-get-delete sure_p sure_f g h },
  )
