-- ===== src/Vault/Hybrid.antt =====
-- internal/app/vault.go: `hybridVault`, the file vault in front of the operating system's store that
-- older versions used.
pub mod Laws
use agy_swap.Prelude.{String, Bool, true, false, Option, none, some, if◌then◌else◌, ◌==◌, ◌||◌}
use agy_swap.Vault.{AccountVault}

-- `ok && val != ""`
present : Option String → Option String
present none = none
present (some value) = if value == "" then none else some value

module _ {S T : Type 0} (primary : AccountVault S) (fallback : Option (AccountVault T)) where
  -- A token that only the fallback has is copied to the primary vault.
  promote : Option String → S → String → T → Option String × (S × T)
  promote none s ref t = (none, (s, t))
  promote (some value) s ref t = (some value, ((primary.set s ref value).1, t))

  get_fallback : Option (AccountVault T) → S → T → String → Option String × (S × T)
  unfolding present promote
  get_fallback none s t ref = (none, (s, t))
  get_fallback (some f) s t ref = let (value, t') = f.get t ref in promote (present value) s ref t'

  first_of_vaults : Option String → S → T → String → Option String × (S × T)
  unfolding get_fallback
  first_of_vaults (some value) s t ref = (some value, (s, t))
  first_of_vaults none s t ref = get_fallback fallback s t ref

  unfoldable pub hybrid_get : S × T → String → Option String × (S × T)
  unfolding first_of_vaults present
  hybrid_get st ref =
      let (value, s) = primary.get st.0 ref in first_of_vaults (present value) s st.1 ref

  drop_fallback : Option (AccountVault T) → T → String → T
  drop_fallback none t ref = t
  drop_fallback (some f) t ref = (f.delete t ref).1

  unfoldable pub hybrid_set : S × T → String → String → Bool × (S × T)
  unfolding drop_fallback
  hybrid_set st ref token =
      let (ok, s) = primary.set st.0 ref token in
      (ok, (s, if ok then drop_fallback fallback st.1 ref else st.1))

  delete_fallback : Option (AccountVault T) → T → String → Bool × T
  delete_fallback none t ref = (true, t)
  delete_fallback (some f) t ref = f.delete t ref

  unfoldable pub hybrid_delete : S × T → String → Bool × (S × T)
  unfolding delete_fallback
  hybrid_delete st ref =
      let (p_ok, s) = primary.delete st.0 ref in
      let (f_ok, t) = delete_fallback fallback st.1 ref in (p_ok || f_ok, (s, t))

  abbrev pub hybrid_vault : AccountVault (S × T)
  hybrid_vault = record { get = hybrid_get; set = hybrid_set; delete = hybrid_delete }
