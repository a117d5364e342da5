-- ===== src/Quota/Summary.antt =====
-- internal/app/quota.go: `quotaGroupsFromSummary` and `geminiGroupFromModels`, which turn Google's answers
-- into the groups of a snapshot. The notes for diagnostics are not modelled. `byID` of the code is a search
-- in the groups that were kept; they are shared by reference there, and stand once here.
pub mod Groups
pub mod Tightest
use Prim.Native.String.{◌++◌}
use agy_swap.Prelude.{
  ℕ, ◌+◌, ◌*◌, ◌-◌, String, Bool, true, false, not, ◌&&◌, ◌||◌, List, [], ◌∷◌, Option, none, some,
  if◌then◌else◌, ◌==◌, leb, nat_eq,
}
use mathlib.Core.List.{◌++◌ as append}
use agy_swap.Prelude.Int.{ℤ, pos, ltb_ℤ, min_ℤ, max_ℤ}
use agy_swap.Prelude.Text.{has_prefix, contains}
use agy_swap.Value.{
  Value, Fields, boolean, field, end, get_field, get_map, get_string, get_slice, first_string,
  fields_or_end,
}
use agy_swap.Value.Numbers.{get_float, unit}
use agy_swap.GoLib.{GoLib}
use agy_swap.Clock.{Time, parse_utc, minute, before}
use agy_swap.Email.{clean_text}
use agy_swap.Quota.Pools.{valid_quota_window, quota_pool_for_bucket, as_map}

pub record PoolBucket : Type 0 where
  pub id : String
  pub name : String
  pub window : String
  pub remaining_fraction : ℤ
  pub reset_at : String

pub record PoolGroup : Type 0 where
  pub id : String
  pub name : String
  pub buckets : List PoolBucket

-- max(0, min(1, fraction))
unfoldable pub clamp : ℤ → ℤ
clamp fraction = max_ℤ (pos 0) (min_ℤ (pos unit) fraction)

abbrev is_disabled : Option Value → Bool
is_disabled (some (boolean b)) = b
is_disabled _ = false

usable_bucket : GoLib → Fields → Option ℤ → Option PoolBucket
unfolding clamp
usable_bucket go bucket none = none
usable_bucket go bucket (some fraction) =
    let window = get_string bucket "window" in
    if not (valid_quota_window window)
      || is_disabled (get_field "disabled" bucket)
      || get_string bucket "resetTime" == ""
    then none
    else some (record {
      id = clean_text go (get_string bucket "bucketId");
      name = clean_text go (first_string (get_field "displayName" bucket) window);
      window = window;
      remaining_fraction = clamp fraction;
      reset_at = get_string bucket "resetTime";
    })

-- A bucket that is not skipped.
unfoldable pub read_bucket : GoLib → Value → Option PoolBucket
unfolding usable_bucket
read_bucket go raw =
    let bucket = as_map raw in
    usable_bucket go bucket (get_float go (get_field "remainingFraction" bucket))

abbrev keep_some {ℓ} : {A : Type ℓ} → Option A → List A → List A
keep_some none rest = rest
keep_some (some a) rest = a ∷ rest

unfoldable pub read_buckets : GoLib → List Value → List PoolBucket
unfolding read_bucket
read_buckets go [] = []
read_buckets go (raw ∷ buckets) =
    let rest = read_buckets go buckets in keep_some (read_bucket go raw) rest

-- The first pool that a bucket of the group names, used or skipped.
unfoldable pub pool_of_buckets : GoLib → List Value → String
pool_of_buckets go [] = ""
pool_of_buckets go (raw ∷ buckets) =
    let bucket = as_map raw in
    let rest = pool_of_buckets go buckets in
    let pool =
      quota_pool_for_bucket go.to_lower (clean_text go (get_string bucket "bucketId"))
        (get_string bucket "window") in
    if pool == "" then rest else pool

-- A group of a pool that is there already is merged into it.
unfoldable pub add_group : PoolGroup → List PoolGroup → List PoolGroup
add_group new [] = new ∷ []
add_group new (g ∷ groups) =
    let rest = add_group new groups in
    if g.id == new.id
    then record g { buckets = append g.buckets new.buckets } ∷ groups
    else g ∷ rest

keep_group : GoLib → Fields → String → List PoolBucket → List PoolGroup → List PoolGroup
unfolding add_group
keep_group go group id [] groups = groups
keep_group go group id (b ∷ buckets) groups =
    if id == ""
    then groups
    else add_group
        (record {
          id = id;
          name = clean_text go (first_string (get_field "displayName" group) "Model group");
          buckets = b ∷ buckets;
        })
        groups

-- One turn of the loop over the groups.
unfoldable pub visit_group : GoLib → Value → List PoolGroup → List PoolGroup
unfolding keep_group read_buckets pool_of_buckets
visit_group go raw groups =
    let group = as_map raw in
    let buckets = get_slice (get_field "buckets" group) in
    keep_group go group (pool_of_buckets go buckets) (read_buckets go buckets) groups

unfoldable pub visit_groups : GoLib → List Value → List PoolGroup → List PoolGroup
unfolding visit_group
visit_groups go [] groups = groups
visit_groups go (raw ∷ raws) groups = visit_groups go raws (visit_group go raw groups)

unfoldable pub quota_groups_from_summary : GoLib → Fields → List PoolGroup
unfolding visit_groups
quota_groups_from_summary go summary = visit_groups go (get_slice (get_field "groups" summary)) []

-- What one model of the list says of its quota.
pub record ModelReading : Type 0 where
  pub fraction : ℤ
  pub reset_at : Time
  pub reset_raw : String

abbrev zero_fraction : Option ℤ → ℤ
zero_fraction none = pos 0
zero_fraction (some f) = f

-- none: not a Gemini model, or without a reset time
unfoldable pub model_reading : GoLib → String → Value → Option ModelReading
unfolding clamp
model_reading go id entry =
    let info = fields_or_end (get_map (get_field "quotaInfo" (as_map entry))) in
    let raw = get_string info "resetTime" in
    if not (has_prefix id "gemini-") || contains id "-argon"
    then none
    else elim (parse_utc go raw) [
      | none ↦ none
      | some at ↦ some (record {
        fraction = clamp (zero_fraction (get_float go (get_field "remainingFraction" info)));
        reset_at = at;
        reset_raw = raw;
      })
    ]

-- The new reading is the tighter one: less is left, or it comes back sooner.
abbrev pub is_tighter : ModelReading → ModelReading → Bool
is_tighter new old =
    ltb_ℤ new.fraction old.fraction
    || not (ltb_ℤ old.fraction new.fraction) && before new.reset_at old.reset_at

abbrev tighter : Option ModelReading → ModelReading → ModelReading
tighter none new = new
tighter (some old) new = if is_tighter new old then new else old

abbrev with_reading : Option ModelReading → Option ModelReading → Option ModelReading
with_reading best none = best
with_reading best (some new) = some (tighter best new)

-- The loop over the models, in the order of one `range`.
unfoldable pub tightest_model : GoLib → Fields → Option ModelReading → Option ModelReading
unfolding model_reading
tightest_model go end best = best
tightest_model go (field id entry models) best =
    tightest_model go models (with_reading best (model_reading go id entry))

group_of_reading : Time → ModelReading → PoolGroup
group_of_reading now r =
    let soon = leb (r.reset_at - now) (310 * minute) in
    let window = if soon then "5h" else "weekly" in
    record {
      id = "gemini";
      name = "Gemini models";
      buckets =
          record {
            id = "gemini-" ++ window;
            name = if soon then "5-Hour" else "Weekly";
            window = window;
            remaining_fraction = r.fraction;
            reset_at = r.reset_raw;
          }
          ∷ [];
    }

unfoldable pub gemini_group_from_models : GoLib → Fields → Time → Option PoolGroup
unfolding tightest_model group_of_reading
gemini_group_from_models go models now =
    elim (tightest_model go (fields_or_end (get_map (get_field "models" models))) none) [
      | none ↦ none
      | some r ↦ some (group_of_reading now r)
    ]
