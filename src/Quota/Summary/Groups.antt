-- ===== src/Quota/Summary/Groups.antt =====
-- internal/app/quota.go: the groups that are read out of Google's summary.
use Prim.Native.String.{String}
use mathlib.Core.List.{◌++◌ as append}
use agy_swap.Prelude.{
  Bool, true, false, ◌||◌, List, [], ◌∷◌, Option, none, some, ◌≡◌, refl, ◌==◌, All, member,
  is_nodup, map, arith, eq_iff, Bool-cases, inl, inr, Option-cases,
}
use agy_swap.Prelude.Int.{ℤ}
use agy_swap.Value.{Value, Fields, get_field, get_slice}
use agy_swap.GoLib.{GoLib}
use agy_swap.Quota.Pools.{valid_quota_window, as_map}
use agy_swap.Store.Snapshot.{is_fraction}
use agy_swap.Quota.Summary.{
  PoolBucket, PoolGroup, clamp, usable_bucket, read_bucket, read_buckets, add_group, keep_group,
  visit_group, visit_groups, quota_groups_from_summary, pool_of_buckets,
}

pub record IsPoolBucket (b : PoolBucket) : Type 0 where
  pub window : valid_quota_window b.window ≡ true
  pub fraction : is_fraction b.remaining_fraction ≡ true
  pub reset : b.reset_at == "" ≡ false

abbrev is_filled : List PoolBucket → Bool
is_filled [] = false
is_filled (_ ∷ _) = true

pub record IsPoolGroup (g : PoolGroup) : Type 0 where
  pub named : g.id == "" ≡ false
  pub filled : is_filled g.buckets ≡ true
  pub buckets : All IsPoolBucket g.buckets

-- The pools are different ones, and each group is one of a pool.
pub record ArePoolGroups (groups : List PoolGroup) : Type 0 where
  pub nodup : is_nodup (map (λ g. g.id) groups) ≡ true
  pub each : All IsPoolGroup groups

clamp-is_fraction : (fraction : ℤ) → is_fraction (clamp fraction) ≡ true
unfolding clamp
clamp-is_fraction fraction = ground arith

usable_bucket-IsPoolBucket :
    (go : GoLib) (bucket : Fields) (o : Option ℤ) (b : PoolBucket)
    → usable_bucket go bucket o ≡ some b
    → IsPoolBucket b
unfolding usable_bucket
usable_bucket-IsPoolBucket go bucket none b h = absurd (ground arith)
usable_bucket-IsPoolBucket go bucket (some fraction) b h =
    let c = clamp-is_fraction fraction in
    record { window = ground arith; fraction = ground (arith, c); reset = ground arith }

read_buckets-All : (go : GoLib) (raws : List Value) → All IsPoolBucket (read_buckets go raws)
unfolding read_buckets
read_buckets-All go [] = tt
read_buckets-All go (raw ∷ raws) = elim (Option-cases (read_bucket go raw)) [
  | inl skipped ↦ rw skipped (read_buckets-All go raws)
  | inr (b, e) ↦ rw e (
    unfold read_bucket in usable_bucket-IsPoolBucket go (as_map raw) _ b e,
    read_buckets-All go raws,
  )
]

All-append-buckets :
    (a b : List PoolBucket)
    → All IsPoolBucket a
    → All IsPoolBucket b
    → All IsPoolBucket (append a b)
All-append-buckets [] b p q = q
All-append-buckets (x ∷ a) b (p, ps) q = (p, All-append-buckets a b ps q)

filled-append : (a b : List PoolBucket) → is_filled a ≡ true → is_filled (append a b) ≡ true
filled-append [] b h = absurd (ground arith)
filled-append (x ∷ a) b h = refl

add_group-member :
    (new : PoolGroup) (groups : List PoolGroup) (k : String)
    → member k (map (λ g. g.id) (add_group new groups))
      ≡ (member k (map (λ g. g.id) groups) || k == new.id)
unfolding add_group
add_group-member new [] k = ground arith
add_group-member new (g ∷ groups) k = elim (Bool-cases (g.id == new.id)) [
  | inl same ↦ rw same (ground (arith, eq_iff g.id new.id))
  | inr other ↦ rw other (ground (arith, add_group-member new groups k))
]

add_group-ArePoolGroups :
    (new : PoolGroup) (groups : List PoolGroup)
    → IsPoolGroup new
    → ArePoolGroups groups
    → ArePoolGroups (add_group new groups)
unfolding add_group
add_group-ArePoolGroups new [] n a = record { nodup = refl; each = (n, tt) }
add_group-ArePoolGroups new (g ∷ groups) n a = elim (Bool-cases (g.id == new.id)) [
  | inl same ↦ rw same (record {
    nodup = a.nodup;
    each = (
      record {
        named = a.each.0.named;
        filled = filled-append g.buckets new.buckets a.each.0.filled;
        buckets = All-append-buckets g.buckets new.buckets a.each.0.buckets n.buckets;
      },
      a.each.1,
    );
  })
  | inr other ↦
      let rest =
        add_group-ArePoolGroups new groups n
          (record { nodup = ground (arith, a.nodup); each = a.each.1 }) in
      rw other (record {
        nodup = ground (arith, a.nodup, rest.nodup, add_group-member new groups g.id);
        each = (a.each.0, rest.each);
      })
]

keep_group-ArePoolGroups :
    (go : GoLib) (group : Fields) (id : String) (buckets : List PoolBucket)
    (groups : List PoolGroup)
    → All IsPoolBucket buckets
    → ArePoolGroups groups
    → ArePoolGroups (keep_group go group id buckets groups)
unfolding keep_group
keep_group-ArePoolGroups go group id [] groups b a = a
keep_group-ArePoolGroups go group id (x ∷ buckets) groups b a = elim (Bool-cases (id == "")) [
  | inl nameless ↦ rw nameless a
  | inr named ↦
      rw named
        (add_group-ArePoolGroups _ groups (record { named = named; filled = refl; buckets = b }) a)
]

visit_groups-ArePoolGroups :
    (go : GoLib) (raws : List Value) (groups : List PoolGroup)
    → ArePoolGroups groups
    → ArePoolGroups (visit_groups go raws groups)
unfolding visit_groups visit_group
visit_groups-ArePoolGroups go [] groups a = a
visit_groups-ArePoolGroups go (raw ∷ raws) groups a =
    let buckets = get_slice (get_field "buckets" (as_map raw)) in
    visit_groups-ArePoolGroups go raws (visit_group go raw groups) (
      keep_group-ArePoolGroups go (as_map raw) (pool_of_buckets go buckets)
        (read_buckets go buckets) groups (read_buckets-All go buckets) a)

-- The groups that are read out of a summary are of different pools, which have names; each has a bucket, and every
-- bucket of it has a well-formed window, a reset time, and a remaining share between 0 and 1, whatever Google
-- answers.
pub quota_groups_from_summary-ArePoolGroups :
    (go : GoLib) (summary : Fields) → ArePoolGroups (quota_groups_from_summary go summary)
unfolding quota_groups_from_summary
quota_groups_from_summary-ArePoolGroups go summary =
    visit_groups-ArePoolGroups go (get_slice (get_field "groups" summary)) []
      (record { nodup = refl; each = tt })
