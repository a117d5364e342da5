-- ===== src/Store/Snapshot/Shape.antt =====
-- internal/app/store.go: what `normalize_quota_snapshot` lets through.
use agy_swap.Prelude.{
  ◌≤◌, ◌<◌, String, ◌≡◌, refl, Bool, true, false, not, ◌||◌, List, [], ◌∷◌, Option, none, some,
  length, take, length-take, Bool-cases, inl, inr, All, ◌==◌, arith,
}
use agy_swap.Prelude.Int.{ℤ}
use agy_swap.Value.{
  Value, Fields, Items, field, array, text, get_map, fields_or_end, object, end, nil, cons,
  get_field, get_string, get_slice, items_list,
}
use agy_swap.Value.Numbers.{get_float}
use agy_swap.GoLib.{GoLib}
use mathlib.Core.Path.{subst}
use Prim.Native.String.{◌++◌}
use agy_swap.Email.{clean_text}
use agy_swap.Clock.{Time, parse_utc, iso_time}
use agy_swap.Errors.{ok, err, plain, Result-cases}
use agy_swap.Quota.Pools.{valid_quota_id, valid_quota_window, as_map}
use agy_swap.Store.Snapshot.{
  is_fraction, normal_bucket, bucket_of, normal_buckets, normal_group, group_of, first_eight,
  normal_groups, snapshot_of, timed_snapshot, map_snapshot, normalize_quota_snapshot,
}

abbrev holds_fraction : Option ℤ → Bool
holds_fraction none = false
holds_fraction (some f) = is_fraction f

-- A bucket has a name, a window and a share between 0 and 1.
pub record IsBucket (go : GoLib) (v : Value) : Type 0 where
  pub named : get_string (as_map v) "name" == "" ≡ false
  pub has_window : valid_quota_window (get_string (as_map v) "window") ≡ true
  pub has_share : holds_fraction (get_float go (get_field "remaining_fraction" (as_map v))) ≡ true

-- A group has an id that is safe as a name, and one to eight buckets.
pub record IsGroup (go : GoLib) (v : Value) : Type 0 where
  pub has_id : valid_quota_id (get_string (as_map v) "id") ≡ true
  pub has_buckets : 0 < length (get_slice (get_field "buckets" (as_map v)))
  pub few_buckets : length (get_slice (get_field "buckets" (as_map v))) ≤ 8
  pub buckets : All (IsBucket go) (get_slice (get_field "buckets" (as_map v)))

-- A snapshot has one to eight groups.
pub record IsSnapshot (go : GoLib) (s : Fields) : Type 0 where
  pub has_groups : 0 < length (get_slice (get_field "groups" s))
  pub few_groups : length (get_slice (get_field "groups" s)) ≤ 8
  pub groups : All (IsGroup go) (get_slice (get_field "groups" s))

normal_bucket-IsBucket :
    (go : GoLib) (email : String) (raw v : Value)
    → normal_bucket go email raw ≡ ok v
    → IsBucket go v
unfolding normal_bucket bucket_of get_field
normal_bucket-IsBucket go email raw v h = record {
  named = ground arith;
  has_window = ground arith;
  has_share = ground arith;
}

-- The list that comes out of a successful loop.
normal_buckets-All :
    (go : GoLib) (email : String) (raws : List Value) (vs : Items)
    → normal_buckets go email raws ≡ ok vs
    → All (IsBucket go) (items_list vs) × (length (items_list vs) ≡ length raws)
unfolding normal_buckets
normal_buckets-All go email [] nil h = (tt, refl)
normal_buckets-All go email [] (cons v vs) h = ground arith
normal_buckets-All go email (raw ∷ raws) nil h = ground arith
normal_buckets-All go email (raw ∷ raws) (cons v vs) h =
    let rest = normal_buckets-All go email raws vs (ground arith) in
    ((normal_bucket-IsBucket go email raw v (ground arith), rest.0), omega (arith, rest.1))

abbrev group_value : String → String → Items → Value
group_value id name buckets =
    object (field "id" (text id) (field "name" (text name) (field "buckets" (array buckets) end)))

group_value-IsGroup :
    (go : GoLib) (email id name : String) (raw : Value) (rest : List Value) (vs : Items)
    → valid_quota_id id ≡ true
    → normal_buckets go email (take 8 (raw ∷ rest)) ≡ ok vs
    → IsGroup go (group_value id name vs)
unfolding get_field
group_value-IsGroup go email id name raw rest vs valid h =
    let all = normal_buckets-All go email (take 8 (raw ∷ rest)) vs h in
    record {
      has_id = valid;
      has_buckets = omega (arith, all.1);
      few_buckets = omega (arith, all.1, length-take 8 (raw ∷ rest));
      buckets = all.0;
    }

group_of-IsGroup :
    (go : GoLib) (email id name : String) (raw : Value) (rest : List Value) (v : Value)
    → valid_quota_id id ≡ true
    → group_of id name (normal_buckets go email (take 8 (raw ∷ rest))) ≡ ok v
    → IsGroup go v
unfolding group_of
group_of-IsGroup go email id name raw rest v valid h =
    elim (Result-cases (normal_buckets go email (take 8 (raw ∷ rest)))) [
      | inl (e, failed) ↦ absurd (ground arith)
      | inr (vs, done) ↦
          subst (IsGroup go) (ground arith)
            (group_value-IsGroup go email id name raw rest vs valid done)
    ]

-- The check of the group's name, and then of its list of buckets.
normal_group-IsGroup :
    (go : GoLib) (email : String) (raw v : Value) → normal_group go email raw ≡ ok v → IsGroup go v
unfolding normal_group first_eight
normal_group-IsGroup go email raw v h =
    let id = get_string (as_map raw) "id" in
    let name = clean_text go (get_string (as_map raw) "name") in
    elim (Bool-cases (not (valid_quota_id id) || name == "")) [
      | inl refused ↦ absurd (ground arith)
      | inr named ↦
          listed (get_slice (get_field "buckets" (as_map raw))) (ground arith) (ground arith)
    ]
  where
    listed :
        (raws : List Value)
        → valid_quota_id (get_string (as_map raw) "id") ≡ true
        → first_eight raws (err (plain ("invalid quota group for " ++ email))) (λ buckets.
          group_of
            (get_string (as_map raw) "id")
            (clean_text go (get_string (as_map raw) "name"))
            (normal_buckets go email buckets))
          ≡ ok v
        → IsGroup go v
    listed [] valid e = absurd (ground arith)
    listed (b ∷ bs) valid e = group_of-IsGroup go email _ _ b bs v valid e

normal_groups-All :
    (go : GoLib) (email : String) (raws : List Value) (vs : Items)
    → normal_groups go email raws ≡ ok vs
    → All (IsGroup go) (items_list vs) × (length (items_list vs) ≡ length raws)
unfolding normal_groups
normal_groups-All go email [] nil h = (tt, refl)
normal_groups-All go email [] (cons v vs) h = ground arith
normal_groups-All go email (raw ∷ raws) nil h = ground arith
normal_groups-All go email (raw ∷ raws) (cons v vs) h =
    let rest = normal_groups-All go email raws vs (ground arith) in
    ((normal_group-IsGroup go email raw v (ground arith), rest.0), omega (arith, rest.1))

abbrev snapshot_value : GoLib → Time → String → String → Items → Fields
snapshot_value go observed tier_id tier_name groups =
    field "observed_at" (text (iso_time go observed)) (
      field "tier" (object (field "id" (text tier_id) (field "name" (text tier_name) end)))
        (field "groups" (array groups) end))

snapshot_value-IsSnapshot :
    (go : GoLib) (email : String) (observed : Time) (id name : String) (raw : Value)
    (rest : List Value) (vs : Items)
    → normal_groups go email (take 8 (raw ∷ rest)) ≡ ok vs
    → IsSnapshot go (snapshot_value go observed id name vs)
unfolding get_field
snapshot_value-IsSnapshot go email observed id name raw rest vs h =
    let all = normal_groups-All go email (take 8 (raw ∷ rest)) vs h in
    record {
      has_groups = omega (arith, all.1);
      few_groups = omega (arith, all.1, length-take 8 (raw ∷ rest));
      groups = all.0;
    }

listed-IsSnapshot :
    (go : GoLib) (email : String) (observed : Time) (id name : String) (raws : List Value)
    (s : Fields)
    → first_eight raws
        (err (plain ("invalid quota groups for " ++ email)))
        (λ groups. snapshot_of go observed id name (normal_groups go email groups))
      ≡ ok s
    → IsSnapshot go s
unfolding first_eight snapshot_of
listed-IsSnapshot go email observed id name [] s h = absurd (ground arith)
listed-IsSnapshot go email observed id name (raw ∷ rest) s h =
    elim (Result-cases (normal_groups go email (take 8 (raw ∷ rest)))) [
      | inl (e, failed) ↦ absurd (ground arith)
      | inr (vs, done) ↦
          subst (IsSnapshot go) (ground arith)
            (snapshot_value-IsSnapshot go email observed id name raw rest vs done)
    ]

timed-IsSnapshot :
    (go : GoLib) (email : String) (snapshot : Fields) (observed : Option Time) (s : Fields)
    → timed_snapshot go email snapshot observed ≡ ok s
    → IsSnapshot go s
unfolding timed_snapshot
timed-IsSnapshot go email snapshot none s h = absurd (ground arith)
timed-IsSnapshot go email snapshot (some observed) s h =
    let tier = fields_or_end (get_map (get_field "tier" snapshot)) in
    let id = clean_text go (get_string tier "id") in
    let name = clean_text go (get_string tier "name") in
    elim (Bool-cases (id == "" || name == "")) [
      | inl refused ↦ absurd (ground arith)
      | inr named ↦
          listed-IsSnapshot go email observed id name (get_slice (get_field "groups" snapshot)) s
            (ground arith)
    ]

map-IsSnapshot :
    (go : GoLib) (email : String) (raw : Option Fields) (s : Fields)
    → map_snapshot go email raw ≡ ok s
    → IsSnapshot go s
unfolding map_snapshot
map-IsSnapshot go email none s h = absurd (ground arith)
map-IsSnapshot go email (some snapshot) s h =
    timed-IsSnapshot go email snapshot (parse_utc go (get_string snapshot "observed_at")) s h

-- A quota snapshot that is accepted, from the file or from the network, has one to eight groups with a
-- safe id, each with one to eight buckets, each with a name, a safe window and a remaining share between
-- 0 and 1.
pub normalize_quota_snapshot-IsSnapshot :
    (go : GoLib) (email : String) (raw : Value) (s : Fields)
    → normalize_quota_snapshot go email raw ≡ ok s
    → IsSnapshot go s
unfolding normalize_quota_snapshot
normalize_quota_snapshot-IsSnapshot go email raw s h =
    map-IsSnapshot go email (get_map (some raw)) s h
