-- ===== src/Store/Snapshot.antt =====
-- internal/app/store.go: `normalizeQuotaSnapshot`.
pub mod Shape
use Prim.Native.String.{◌++◌}
use agy_swap.Prelude.{
  ℕ, String, Bool, true, false, not, ◌&&◌, ◌||◌, List, [], ◌∷◌, Option, none, some, if◌then◌else◌,
  take, ◌==◌,
}
use agy_swap.Prelude.Int.{ℤ, pos, ltb_ℤ}
use agy_swap.Value.{
  Value, Fields, Items, text, number, array, object, end, field, nil, cons, get_field, get_map,
  get_string, get_slice, fields_or_end,
}
use agy_swap.Value.Numbers.{get_float, unit}
use agy_swap.GoLib.{GoLib}
use agy_swap.Clock.{Time, parse_utc, iso_time}
use agy_swap.Email.{clean_text}
use agy_swap.Errors.{Result, ok, err, plain}
use agy_swap.Quota.Pools.{valid_quota_id, valid_quota_window, as_map}

-- A remaining share is between 0 and 1.
abbrev pub is_fraction : ℤ → Bool
is_fraction f = not (ltb_ℤ f (pos 0)) && not (ltb_ℤ (pos unit) f)

bucket_of : GoLib → String → Fields → String → String → Option ℤ → Option Time → Result Value
bucket_of go email bucket id name (some fraction) (some reset) =
    let window = get_string bucket "window" in
    if not (valid_quota_window window) || id == "" || name == "" || not (is_fraction fraction)
    then err (plain ("invalid quota bucket for " ++ email))
    else ok (
        object (
          field "id" (text id) (
            field "name" (text name) (
              field "window" (text window) (
                field "remaining_fraction" (number fraction)
                  (field "reset_at" (text (iso_time go reset)) end))))))
bucket_of go email bucket id name _ _ = err (plain ("invalid quota bucket for " ++ email))

unfoldable pub normal_bucket : GoLib → String → Value → Result Value
unfolding bucket_of
normal_bucket go email raw =
    let bucket = as_map raw in
    bucket_of go email bucket (clean_text go (get_string bucket "id"))
      (clean_text go (get_string bucket "name"))
      (get_float go (get_field "remaining_fraction" bucket))
      (parse_utc go (get_string bucket "reset_at"))

abbrev add_item : Result Value → Result Items → Result Items
add_item (err e) rest = err e
add_item (ok v) (err e) = err e
add_item (ok v) (ok rest) = ok (cons v rest)

unfoldable pub normal_buckets : GoLib → String → List Value → Result Items
normal_buckets go email [] = ok nil
normal_buckets go email (raw ∷ buckets) =
    add_item (normal_bucket go email raw) (normal_buckets go email buckets)

-- A list with no element is refused, and of a longer one the first eight are kept.
first_eight : {A : Type 0} → List Value → A → (List Value → A) → A
first_eight [] none_left f = none_left
first_eight (raw ∷ rest) none_left f = f (take 8 (raw ∷ rest))

group_of : String → String → Result Items → Result Value
group_of id name (err e) = err e
group_of id name (ok buckets) =
    ok (
      object
        (field "id" (text id) (field "name" (text name) (field "buckets" (array buckets) end))))

unfoldable pub normal_group : GoLib → String → Value → Result Value
unfolding first_eight group_of
normal_group go email raw =
    let group = as_map raw in
    let id = get_string group "id" in
    let name = clean_text go (get_string group "name") in
    let refused : Result Value = err (plain ("invalid quota group for " ++ email)) in
    if not (valid_quota_id id) || name == ""
    then refused
    else first_eight (get_slice (get_field "buckets" group)) refused
        (λ buckets. group_of id name (normal_buckets go email buckets))

unfoldable pub normal_groups : GoLib → String → List Value → Result Items
normal_groups go email [] = ok nil
normal_groups go email (raw ∷ groups) =
    add_item (normal_group go email raw) (normal_groups go email groups)

snapshot_of : GoLib → Time → String → String → Result Items → Result Fields
snapshot_of go observed tier_id tier_name (err e) = err e
snapshot_of go observed tier_id tier_name (ok groups) = ok (
    field "observed_at" (text (iso_time go observed)) (
      field "tier" (object (field "id" (text tier_id) (field "name" (text tier_name) end)))
        (field "groups" (array groups) end)))

timed_snapshot : GoLib → String → Fields → Option Time → Result Fields
unfolding first_eight snapshot_of
timed_snapshot go email snapshot none =
    err (plain ("invalid quota snapshot timestamp for " ++ email))
timed_snapshot go email snapshot (some observed) =
    let tier = fields_or_end (get_map (get_field "tier" snapshot)) in
    let tier_id = clean_text go (get_string tier "id") in
    let tier_name = clean_text go (get_string tier "name") in
    if tier_id == "" || tier_name == ""
    then err (plain ("invalid quota tier for " ++ email))
    else first_eight (get_slice (get_field "groups" snapshot))
        (err (plain ("invalid quota groups for " ++ email)))
        (λ groups. snapshot_of go observed tier_id tier_name (normal_groups go email groups))

map_snapshot : GoLib → String → Option Fields → Result Fields
unfolding timed_snapshot
map_snapshot go email none = err (plain ("invalid quota snapshot for " ++ email))
map_snapshot go email (some snapshot) =
    timed_snapshot go email snapshot (parse_utc go (get_string snapshot "observed_at"))

unfoldable pub normalize_quota_snapshot : GoLib → String → Value → Result Fields
unfolding map_snapshot
normalize_quota_snapshot go email raw = map_snapshot go email (get_map (some raw))
