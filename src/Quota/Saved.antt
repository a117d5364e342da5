-- ===== src/Quota/Saved.antt =====
-- internal/app/quota.go: the groups of an answer as saved values, and `shiftQuotaResets`.
use agy_swap.Prelude.{◌-◌, ◌+◌, Bool, List, [], ◌∷◌, none, some, if◌then◌else◌, map, suc, nat_eq}
use agy_swap.Prelude.Int.{ℤ, pos, negsuc}
use agy_swap.Value.{Value, Items, nil, cons, text, number, object, array, end, field}
use agy_swap.GoLib.{GoLib}
use agy_swap.Clock.{Time, parse_utc, iso_time}
use agy_swap.Quota.Summary.{PoolBucket, PoolGroup}

-- t.Add(-skew); a time of a quota is far from the zero time, where `-` stops
abbrev unskewed : ℤ → Time → Time
unskewed (pos n) t = t - n
unskewed (negsuc n) t = t + suc n

abbrev is_zero_skew : ℤ → Bool
is_zero_skew (pos n) = nat_eq n 0
is_zero_skew (negsuc n) = Bool.false

shift_bucket : GoLib → ℤ → PoolBucket → PoolBucket
shift_bucket go skew b = elim (parse_utc go b.reset_at) [
  | none ↦ b
  | some reset ↦ record b { reset_at = iso_time go (unskewed skew reset) }
]

shift_group : GoLib → ℤ → PoolGroup → PoolGroup
unfolding shift_bucket
shift_group go skew g = record g { buckets = map (shift_bucket go skew) g.buckets }

unfoldable pub shift_quota_resets : GoLib → ℤ → List PoolGroup → List PoolGroup
unfolding shift_group
shift_quota_resets go skew groups =
    if is_zero_skew skew then groups else map (shift_group go skew) groups

-- The groups as the saved values.
bucket_value : PoolBucket → Value
bucket_value b = object (
    field "id" (text b.id) (
      field "name" (text b.name) (
        field "window" (text b.window) (
          field "remaining_fraction" (number b.remaining_fraction)
            (field "reset_at" (text b.reset_at) end)))))

bucket_items : List PoolBucket → Items
unfolding bucket_value
bucket_items [] = nil
bucket_items (b ∷ buckets) = cons (bucket_value b) (bucket_items buckets)

group_item : PoolGroup → Value
unfolding bucket_items
group_item g = object (
    field "id" (text g.id)
      (field "name" (text g.name) (field "buckets" (array (bucket_items g.buckets)) end)))

unfoldable pub group_items : List PoolGroup → Items
unfolding group_item
group_items [] = nil
group_items (g ∷ groups) = cons (group_item g) (group_items groups)
