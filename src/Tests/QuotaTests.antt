-- ===== src/Tests/QuotaTests.antt =====
-- Pools, the schedule and the back-off.
use agy_swap.Prelude.{
  ◌+◌, ◌*◌, ◌≤◌, ◌≡◌, refl, String, true, false, some, none, if◌then◌else◌, inl, inr, arith, eq_iff,
}
use mathlib.Core.Bool.{false≢true}
use agy_swap.Prelude.Int.{pos}
use agy_swap.Prelude.Map
use agy_swap.Prelude.Map.{get-empty}
use agy_swap.Value.{Value, Account, field, text, number, array, object, end, cons, nil, get_field}
use agy_swap.Clock.{second, minute, parse_utc}
use agy_swap.Prelude.Text.{strip_suffix}
use agy_swap.Errors.{GoError, cloud, passed, backs_off, mark_eligibility_passed}
use agy_swap.Quota.Pools.{quota_groups}
use agy_swap.Quota.Schedule.{next_quota_reset, quota_due_at, observed_at, quota_reset_slack}
use agy_swap.Quota.Schedule.Resets.{IsReset, next_quota_reset_min}
use agy_swap.Quota.Schedule.Due.{quota_due_at-reset}
use agy_swap.Quota.Service.{QuotaService, QuotaBackoffState, note_read, backoff_until}
use agy_swap.Quota.Service.Backoff.{
  wait_after, wait_after_lem, IsBounded, note_read-IsBounded, note_read-backoff_until,
}
use agy_swap.Tests.Library.{go}

-- A Gemini pool with two buckets, read at second 1; they reset at seconds 9 and 5.
abbrev bucket : String → Value
bucket reset =
    object (field "remaining_fraction" (number (pos 1)) (field "reset_at" (text reset) end))

abbrev gemini : Value
gemini = object (
    field "id" (text "gemini")
      (field "buckets" (array (cons (bucket "@--------") (cons (bucket "@----") nil))) end))

abbrev pro : Account
pro =
    field "quota_snapshot"
      (object (field "observed_at" (text "@") (field "groups" (array (cons gemini nil)) end))) end

pro-IsReset : IsReset go (5 * second) (quota_groups pro)
unfolding quota_groups get_field parse_utc strip_suffix
pro-IsReset = inl (inr (inl refl))

pro-observed : observed_at go pro ≡ some second
unfolding observed_at get_field parse_utc strip_suffix
pro-observed = refl

next_quota_reset_min_example :
    let (reset, ok) = next_quota_reset go pro second in (ok ≡ true) × (reset ≤ 5 * second)
next_quota_reset_min_example =
    next_quota_reset_min go pro second (5 * second) (omega arith) pro-IsReset

quota_due_at-reset_example : quota_due_at go pro false 0 0 ≤ 5 * second + quota_reset_slack
quota_due_at-reset_example =
    quota_due_at-reset go pro false second (5 * second) pro-observed (omega arith) pro-IsReset

wait_after_lem_example : wait_after 7 ≡ 10 * minute
wait_after_lem_example = wait_after_lem 6

abbrev quiet : QuotaService
quiet = record { projects = Map.empty; backoffs = Map.empty }

quiet-IsBounded : IsBounded 0 quiet
quiet-IsBounded = record { at_email = λ e. ground (arith, get-empty {V = QuotaBackoffState} e) }

note_read-IsBounded_example :
    IsBounded second (note_read (λ d. d) quiet second "ann@x.io" (some (cloud "get" 429 "")))
note_read-IsBounded_example =
    note_read-IsBounded (λ d. d) quiet 0 second "ann@x.io" (some (cloud "get" 429 ""))
      (λ d. omega arith) (omega arith) quiet-IsBounded

note_read-backoff_until_example :
    (backoff_until (note_read (λ d. d) quiet second "a" none) "a" ≡ 0)
    × (if backs_off (cloud "get" 429 "")
        then (second + 15 * second
            ≤ backoff_until (note_read (λ d. d) quiet second "a" (some (cloud "get" 429 ""))) "a")
          × (backoff_until (note_read (λ d. d) quiet second "a" (some (cloud "get" 429 ""))) "a"
              ≤ second + 10 * minute)
        else backoff_until (note_read (λ d. d) quiet second "a" (some (cloud "get" 429 ""))) "a"
          ≡ backoff_until quiet "a")
    × (backoff_until (note_read (λ d. d) quiet second "a" (some (cloud "get" 429 ""))) "b"
        ≡ backoff_until quiet "b")
    × (backoff_until (note_read (λ d. d) quiet second "a" none) "b" ≡ backoff_until quiet "b")
note_read-backoff_until_example =
    note_read-backoff_until (λ d. d) quiet 0 second "a" "b" (cloud "get" 429 "") (λ d. omega arith)
      quiet-IsBounded (λ e. false≢true ((eq_iff "a" "b").1 e))

-- What an error says about verification.
abbrev refused : GoError
refused = cloud "get" 503 ""

refused-passed : mark_eligibility_passed (some refused) ≡ some (passed refused)
unfolding mark_eligibility_passed
refused-passed = refl
