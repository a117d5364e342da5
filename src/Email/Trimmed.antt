-- ===== src/Email/Trimmed.antt =====
-- internal/app/model.go, internal/app/vault.go: white space at the ends of an e-mail address, and of
-- the vault reference made of it.
use Prim.Native.Char.{code}
use Prim.Native.String.{◌++◌, [], ◌∷◌}
use agy_swap.Prelude.{
  Bool, true, false, not, ◌&&◌, String, ◌≡◌, refl, sym, ◌∙◌, ap, Bool-cases, inl, inr, ◌==◌, arith,
}
use agy_swap.Prelude.Text.{
  trim_space, trim_left, trim_right, is_space, trim_space_idem, trim_right-trim_space,
}
use text.Mathlib.TextLemmas.{nil-append, cons-append}
use agy_swap.GoLib.{GoLib}
use agy_swap.Email.{normalize_email, clean_text, visible, is_email}

-- strings.ToLower maps a text letter by letter, and makes neither white space nor anything else out of
-- white space.
pub record IsLowering (go : GoLib) : Type 0 where
  pub lower_trimmed : (s : String) → trim_space s ≡ s → trim_space (go.to_lower s) ≡ go.to_lower s

pub normalize_email-trimmed :
    (go : GoLib) (value : String)
    → IsLowering go
    → trim_space (normalize_email go value) ≡ normalize_email go value
unfolding normalize_email clean_text trim_space
normalize_email-trimmed go value lowering =
    let email = go.to_lower (clean_text go value) in
    let t : trim_space email ≡ email =
      lowering.lower_trimmed (clean_text go value) (trim_space_idem (visible go value)) in
    elim (Bool-cases (is_email email)) [ inl good ↦ rw good t | inr bad ↦ rw bad refl ]

unfoldable no_space : String → Bool
no_space [] = true
no_space (c ∷ s) = not (is_space (code c)) && no_space s

trim_right-append : (s t : String) → no_space s ≡ true → trim_right (s ++ t) ≡ s ++ trim_right t
unfolding trim_right no_space
trim_right-append [] t h = rw (nil-append t, nil-append (trim_right t)) refl
trim_right-append (c ∷ s) t h = elim (Bool-cases (is_space (code c))) [
  | inl space ↦ ground arith
  | inr letter ↦
      rw (cons-append c s t, cons-append c s (trim_right t), letter)
        (ap (λ rest. c ∷ rest) (trim_right-append s t (ground arith)))
]

trim_left-append :
    (s t : String) → no_space s ≡ true → s == "" ≡ false → trim_left (s ++ t) ≡ s ++ t
unfolding trim_left no_space
trim_left-append [] t h ne = ground arith
trim_left-append (c ∷ s) t h ne = rw (cons-append c s t) (ground arith)

pub account-trimmed :
    (e : String) → trim_space e ≡ e → trim_space ("account:" ++ e) ≡ "account:" ++ e
unfolding trim_space trim_left is_space no_space
account-trimmed e h =
    let r : trim_right e ≡ e = ap trim_right (sym h) ∙ trim_right-trim_space e ∙ h in
    rw (trim_right-append "account:" e refl, r) (trim_left-append "account:" e refl refl)
