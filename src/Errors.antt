-- ===== src/Errors.antt =====
-- The errors that the program looks into by `errors.As`: `cloudError` of internal/app/oauth.go,
-- `eligibilityError` and `eligibilityPassedError` of internal/app/eligibility.go.
pub mod Clearing
pub mod Eligibility
use Prim.Native.String.{◌++◌}
use agy_swap.Prelude.{
  ◌≡◌, ◌⊎◌, inl, inr, refl, ℕ, String, Bool, true, false, Option, none, some, ◌||◌, if◌then◌else◌,
  nat_eq, leb, ◌==◌, is_some,
}
use agy_swap.Prelude.Text.{contains}
use agy_swap.GoLib.{GoLib}

pub record Ineligible : Type 0 where
  pub reason : String
  pub message : String
  pub url : String  -- a checked Google page, or empty

pub data GoError : Type 0 where
  cloud : String → ℕ → String → GoError  -- method, status, body
  ineligible : Ineligible → GoError
  passed : GoError → GoError
  plain : String → GoError  -- errors.New, or fmt.Errorf with no %w
  wrapped : String → GoError → GoError  -- fmt.Errorf("…: %w", err)

-- The two results of a Go function that can fail.
pub data Result {ℓ} (A : Type ℓ) : Type ℓ where
  ok : A → Result A
  err : GoError → Result A

-- if err != nil { return err }
abbrev pub and_then {ℓ κ} : {A : Type ℓ} {B : Type κ} → Result A → (A → Result B) → Result B
and_then (ok a) f = f a
and_then (err e) f = err e

pub and_then-ok {ℓ κ} :
    {A : Type ℓ} {B : Type κ} (r : Result A) (f : A → Result B) (b : B)
    → and_then r f ≡ ok b
    → (a : A) × (r ≡ ok a) × (f a ≡ ok b)
and_then-ok (ok a) f b h = (a, refl, h)
and_then-ok (err e) f b h = cc

pub ok-inj {ℓ} : {A : Type ℓ} (a b : A) → ok a ≡ ok b → a ≡ b
ok-inj a b h = cc

pub Result-cases {ℓ} :
    {A : Type ℓ} (r : Result A) → ((e : GoError) × (r ≡ err e)) ⊎ ((a : A) × (r ≡ ok a))
Result-cases (ok a) = inr (a, refl)
Result-cases (err e) = inl (e, refl)

abbrev pub eligibility_error_prefix : String
eligibility_error_prefix = "Google needs this account verified"

-- err.Error()
unfoldable pub error_text : GoLib → GoError → String
error_text go (cloud method status body) = method ++ " failed (HTTP " ++ go.itoa status ++ ")"
error_text go (ineligible e) =
    if e.message == ""
    then eligibility_error_prefix ++ " before Antigravity can use it"
    else eligibility_error_prefix ++ ": " ++ e.message
error_text go (passed e) = error_text go e
error_text go (plain message) = message
error_text go (wrapped prefix e) = prefix ++ ": " ++ error_text go e

-- errors.As(err, &cloud), with the status that the callers read
abbrev pub as_cloud : GoError → Option ℕ
as_cloud (cloud method status body) = some status
as_cloud (ineligible reason) = none
as_cloud (passed e) = as_cloud e
as_cloud (plain message) = none
as_cloud (wrapped prefix e) = as_cloud e

-- errors.As(err, &ineligible)
abbrev pub as_ineligible : GoError → Option Ineligible
as_ineligible (cloud method status body) = none
as_ineligible (ineligible reason) = some reason
as_ineligible (passed e) = as_ineligible e
as_ineligible (plain message) = none
as_ineligible (wrapped prefix e) = as_ineligible e

-- errors.As(err, &passed)
abbrev pub as_passed : GoError → Bool
as_passed (passed e) = true
as_passed (wrapped prefix e) = as_passed e
as_passed _ = false

-- Google refused for load or failed.
unfoldable pub backs_off : GoError → Bool
backs_off e = elim (as_cloud e) [ none ↦ false | some status ↦ nat_eq status 429 || leb 500 status ]

-- `none` is the nil error.
unfoldable pub mark_eligibility_passed : Option GoError → Option GoError
mark_eligibility_passed none = none
mark_eligibility_passed (some e) = if is_some (as_ineligible e) then some e else some (passed e)

abbrev is_unauthorized : Option ℕ → Bool
is_unauthorized none = false
is_unauthorized (some status) = nat_eq status 401

unfoldable pub auth_invalidation_error : GoLib → GoError → Bool
unfolding error_text
auth_invalidation_error go e =
    if is_unauthorized (as_cloud e)
    then true
    else let msg = error_text go e in
      contains msg "refresh token is unavailable"
      || contains msg "OAuth refresh failed (HTTP 400)"
      || contains msg "OAuth refresh failed (HTTP 401)"
      || contains msg "refreshed token identity does not match"
      || contains msg "account has no saved token"
      || contains msg "secret vault entry is unavailable"

unfoldable pub should_clear_eligibility : GoLib → Option GoError → Bool
should_clear_eligibility go none = true
should_clear_eligibility go (some e) = if as_passed e then true else auth_invalidation_error go e
