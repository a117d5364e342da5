-- ===== src/Errors/Clearing.antt =====
-- internal/app/eligibility.go: when a stored `verify_required` record goes.
use agy_swap.Prelude.{◌≡◌, true, some, if◌then◌else◌, is_some, arith}
use agy_swap.GoLib.{GoLib}
use agy_swap.Errors.{
  GoError, as_ineligible, backs_off, mark_eligibility_passed, should_clear_eligibility,
}

-- An error marked as one after Google confirmed the account clears the stored record, except an
-- error that itself says that the account must be verified: that one is judged as if it had not been
-- marked. The mark changes neither whether the account backs off nor whether it must be verified.
pub mark-clears :
    (go : GoLib) (err m : GoError)
    → mark_eligibility_passed (some err) ≡ some m
    → (should_clear_eligibility go (some m)
        ≡ (if is_some (as_ineligible err) then should_clear_eligibility go (some err) else true))
      × (backs_off m ≡ backs_off err)
      × (as_ineligible m ≡ as_ineligible err)
unfolding mark_eligibility_passed should_clear_eligibility backs_off
mark-clears go err m h = ground arith
