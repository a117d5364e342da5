-- ===== src/Tests/SummaryTests.antt =====
-- Groups of quotas that are read out of answers.
use agy_swap.Prelude.Text.{has_prefix, contains, strip_suffix}
use agy_swap.Prelude.{String, ◌+◌, false, some, ◌≡◌, refl, All}
use agy_swap.Prelude.Int.{pos, ltb_ℤ}
use agy_swap.Value.{Value, Fields, field, end, text, array, object, number, cons, nil, get_field}
use agy_swap.Value.Numbers.{unit}
use agy_swap.Clock.{second, parse_utc}
use agy_swap.Quota.Summary.{
  quota_groups_from_summary, gemini_group_from_models, model_reading, ModelReading, PoolGroup,
}
use agy_swap.Quota.Summary.Groups.{ArePoolGroups, quota_groups_from_summary-ArePoolGroups}
use agy_swap.Quota.Summary.Tightest.{gemini_group_from_models-tightest}
use agy_swap.Tests.Library.{go}

abbrev model : String → Value
model reset = object (field "quotaInfo" (object (field "resetTime" (text reset) end)) end)

abbrev gemini_models : Fields
gemini_models = field "gemini-flash" (model "@@@") (field "gemini-pro" (model "@") end)

abbrev models : Fields
models = field "models" (object gemini_models) end

abbrev flash : ModelReading
flash = record { fraction = pos 0; reset_at = second + second + second; reset_raw = "@@@" }

gemini_group_from_models-tightest_example :
    (g : PoolGroup) × (gemini_group_from_models go models second ≡ some g)
    × All (λ b. ltb_ℤ (pos 0) b.remaining_fraction ≡ false) g.buckets
unfolding get_field model_reading has_prefix contains parse_utc strip_suffix unit
gemini_group_from_models-tightest_example =
    gemini_group_from_models-tightest go models second "gemini-flash" (model "@@@") flash refl refl

abbrev bucket : Fields
bucket = field "bucketId" (text "gemini-weekly") (
    field "window" (text "weekly")
      (field "remainingFraction" (number (pos 2)) (field "resetTime" (text "@") end)))

abbrev group : Fields
group = field "buckets" (array (cons (object bucket) nil)) end

abbrev summary : Fields
summary = field "groups" (array (cons (object group) (cons (object group) nil))) end

quota_groups_from_summary-ArePoolGroups_example :
    ArePoolGroups (quota_groups_from_summary go summary)
quota_groups_from_summary-ArePoolGroups_example = quota_groups_from_summary-ArePoolGroups go summary
