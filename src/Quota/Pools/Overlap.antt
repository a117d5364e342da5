-- ===== src/Quota/Pools/Overlap.antt =====
-- internal/app/pools.go: which families hold one another back.
use agy_swap.Prelude.{
  String, ◌≡◌, refl, sym, ◌∙◌, Bool, true, false, not, List, [], ◌∷◌, ◌||◌, arith, eq_iff, eq_refl,
  member,
}
use agy_swap.Value.{Account}
use agy_swap.Quota.Pools.{
  family_pools, pool_in_family, families_overlap, overlap_any, has_quota_group, quota_groups,
  pool_argon,
}

-- Do two lists share a text?
abbrev meets : List String → List String → Bool
meets [] ys = false
meets (x ∷ xs) ys = member x ys || meets xs ys

meets-nil : (xs : List String) → meets xs [] ≡ false
meets-nil [] = refl
meets-nil (x ∷ xs) = meets-nil xs

meets-cons :
    (xs : List String) (y : String) (ys : List String)
    → meets xs (y ∷ ys) ≡ (member y xs || meets xs ys)
meets-cons [] y ys = refl
meets-cons (x ∷ xs) y ys = ground (arith, meets-cons xs y ys, eq_iff x y, eq_iff y x)

meets_comm : (xs ys : List String) → meets xs ys ≡ meets ys xs
meets_comm [] ys = sym (meets-nil ys)
meets_comm (x ∷ xs) ys = ground (arith, meets_comm xs ys, meets-cons ys x xs)

overlap_any-eq-meets :
    (account : Account) (pools : List String) (family : String)
    → overlap_any account pools family ≡ meets pools (family_pools account family)
unfolding overlap_any pool_in_family
overlap_any-eq-meets account [] family = refl
overlap_any-eq-meets account (pool ∷ pools) family =
    ground (arith, overlap_any-eq-meets account pools family)

-- On every account, a limit of one family holds back another exactly when a limit of the other
-- holds back the one.
pub families_overlap_comm :
    (account : Account) (a b : String) → families_overlap account a b ≡ families_overlap account b a
unfolding families_overlap
families_overlap_comm account a b =
    overlap_any-eq-meets account (family_pools account a) b
    ∙ meets_comm (family_pools account a) (family_pools account b)
    ∙ sym (overlap_any-eq-meets account (family_pools account b) a)

-- A limit holds back its own family, on every account and for every name of a family.
pub families_overlap_refl : (account : Account) (a : String) → families_overlap account a a ≡ true
unfolding families_overlap overlap_any pool_in_family family_pools
families_overlap_refl account a = ground (arith, eq_refl a)

-- An Argon limit holds back Gemini, and a request for any model, exactly when the account has no
-- Argon pool of its own, and it never holds back Claude or GPT.
pub argon-overlap :
    (account : Account)
    → let shared = not (has_quota_group (quota_groups account) pool_argon) in
      (families_overlap account "argon" "gemini" ≡ shared)
      × (families_overlap account "argon" "" ≡ shared)
      × (families_overlap account "argon" "claude" ≡ false)
      × (families_overlap account "argon" "gpt" ≡ false)
unfolding families_overlap overlap_any pool_in_family family_pools
argon-overlap account = ground arith
