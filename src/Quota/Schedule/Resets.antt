-- ===== src/Quota/Schedule/Resets.antt =====
-- internal/app/quota_schedule.go: which reset `next_quota_reset` finds.
use mathlib.Core.Path.{subst}
use agy_swap.Prelude.{
  ap, sym, ◌∙◌, ◌≤◌, ◌<◌, ◌≡◌, refl, true, List, [], ◌∷◌, Option, none, some, ◌⊎◌, inl, inr, arith,
}
use agy_swap.Clock.{Time, parse_utc}
use agy_swap.GoLib.{GoLib}
use agy_swap.Value.{Value, Account, get_field, get_slice, get_string}
use agy_swap.Quota.Pools.{as_map, quota_groups}
use agy_swap.Quota.Schedule.{earlier_reset, next_in_buckets, next_in_groups, next_quota_reset}

-- `t` is the reset of one of these buckets.
abbrev pub IsBucketReset : GoLib → Time → List Value → Type 0
IsBucketReset go t [] = ⊥
IsBucketReset go t (raw ∷ buckets) =
    (parse_utc go (get_string (as_map raw) "reset_at") ≡ some t) ⊎ IsBucketReset go t buckets

-- `t` is the reset of a bucket of one of these groups.
abbrev pub IsReset : GoLib → Time → List Value → Type 0
IsReset go t [] = ⊥
IsReset go t (raw ∷ groups) =
    IsBucketReset go t (get_slice (get_field "buckets" (as_map raw))) ⊎ IsReset go t groups

-- An accumulator covers `t`: it is set and not later.
abbrev Covers : Time → Time → Type 0
Covers earliest t = (0 < earliest) × (earliest ≤ t)

earlier_reset-Covers :
    (o e t : Time) (r : Option Time) → Covers e t → Covers (earlier_reset o r e) t
unfolding earlier_reset
earlier_reset-Covers o e t none h = h
earlier_reset-Covers o e t (some r) h = ground arith

earlier_reset_self : (o e t : Time) → o < t → Covers (earlier_reset o (some t) e) t
unfolding earlier_reset
earlier_reset_self o e t h = ground arith

next_in_buckets-Covers :
    (go : GoLib) (o e t : Time) (buckets : List Value)
    → Covers e t
    → Covers (next_in_buckets go o buckets e) t
unfolding next_in_buckets
next_in_buckets-Covers go o e t [] h = h
next_in_buckets-Covers go o e t (raw ∷ buckets) h =
    let at = parse_utc go (get_string (as_map raw) "reset_at") in
    next_in_buckets-Covers go o (earlier_reset o at e) t buckets (earlier_reset-Covers o e t at h)

next_in_buckets_min :
    (go : GoLib) (o e t : Time) (buckets : List Value)
    → o < t
    → IsBucketReset go t buckets
    → Covers (next_in_buckets go o buckets e) t
unfolding next_in_buckets
next_in_buckets_min go o e t [] h m = absurd m
next_in_buckets_min go o e t (raw ∷ buckets) h (inl here) =
    next_in_buckets-Covers go o _ t buckets (rw here (earlier_reset_self o e t h))
next_in_buckets_min go o e t (raw ∷ buckets) h (inr there) =
    next_in_buckets_min go o (earlier_reset o (parse_utc go (get_string (as_map raw) "reset_at")) e)
      t buckets h there

next_in_groups-Covers :
    (go : GoLib) (o e t : Time) (groups : List Value)
    → Covers e t
    → Covers (next_in_groups go o groups e) t
unfolding next_in_groups
next_in_groups-Covers go o e t [] h = h
next_in_groups-Covers go o e t (raw ∷ groups) h =
    let buckets = get_slice (get_field "buckets" (as_map raw)) in
    next_in_groups-Covers go o (next_in_buckets go o buckets e) t groups
      (next_in_buckets-Covers go o e t buckets h)

next_in_groups_min :
    (go : GoLib) (o e t : Time) (groups : List Value)
    → o < t
    → IsReset go t groups
    → Covers (next_in_groups go o groups e) t
unfolding next_in_groups
next_in_groups_min go o e t [] h m = absurd m
next_in_groups_min go o e t (raw ∷ groups) h (inl here) =
    next_in_groups-Covers go o _ t groups
      (next_in_buckets_min go o e t (get_slice (get_field "buckets" (as_map raw))) h here)
next_in_groups_min go o e t (raw ∷ groups) h (inr there) =
    next_in_groups_min go o (next_in_buckets go o (get_slice (get_field "buckets" (as_map raw))) e)
      t groups h there

-- The accumulator is the one it started from, or a reset after the snapshot.
abbrev IsFound : Time → Time → Time → Type 0 → Type 0
IsFound o e result R = (result ≡ e) ⊎ ((o < result) × R)

earlier_reset_found :
    (o e : Time) (r : Option Time)
    → let result = earlier_reset o r e in IsFound o e result (r ≡ some result)
unfolding earlier_reset
earlier_reset_found o e none = inl refl
earlier_reset_found o e (some r) = ground arith

-- One more bucket or group in front of those that were gone through.
found_before :
    (o e mid result : Time) {Q R : Type 0}
    → IsFound o e mid Q
    → (mid ≡ result → Q → R)
    → IsFound o mid result R
    → IsFound o e result R
found_before o e mid result (inl start) conv (inl same) = inl (same ∙ start)
found_before o e mid result (inr (later, here)) conv (inl same) =
    inr (rw same later, conv (sym same) here)
found_before o e mid result first conv (inr found) = inr found

widen : (o e result : Time) {Q R : Type 0} → (Q → R) → IsFound o e result Q → IsFound o e result R
widen o e result f (inl same) = inl same
widen o e result f (inr (later, q)) = inr (later, f q)

next_in_buckets_found :
    (go : GoLib) (o e : Time) (buckets : List Value)
    → let result = next_in_buckets go o buckets e in
      IsFound o e result (IsBucketReset go result buckets)
unfolding next_in_buckets
next_in_buckets_found go o e [] = inl refl
next_in_buckets_found go o e (raw ∷ buckets) =
    let at = parse_utc go (get_string (as_map raw) "reset_at") in
    let mid = earlier_reset o at e in
    found_before o e mid (next_in_buckets go o buckets mid) (earlier_reset_found o e at)
      (λ same here. inl (here ∙ ap some same))
      (widen o mid _ inr (next_in_buckets_found go o mid buckets))

next_in_groups_found :
    (go : GoLib) (o e : Time) (groups : List Value)
    → let result = next_in_groups go o groups e in IsFound o e result (IsReset go result groups)
unfolding next_in_groups
next_in_groups_found go o e [] = inl refl
next_in_groups_found go o e (raw ∷ groups) =
    let buckets = get_slice (get_field "buckets" (as_map raw)) in
    let mid = next_in_buckets go o buckets e in
    found_before o e mid (next_in_groups go o groups mid) (next_in_buckets_found go o e buckets)
      (λ same here. inl (subst (λ t. IsBucketReset go t buckets) same here))
      (widen o mid _ inr (next_in_groups_found go o mid groups))

-- If some bucket resets after the snapshot, a reset is found that is no later than that one.
pub next_quota_reset_min :
    (go : GoLib) (account : Account) (o t : Time)
    → o < t
    → IsReset go t (quota_groups account)
    → let (reset, ok) = next_quota_reset go account o in (ok ≡ true) × (reset ≤ t)
unfolding next_quota_reset
next_quota_reset_min go account o t h m =
    ground (arith, next_in_groups_min go o 0 t (quota_groups account) h m)

-- A reset that is found is later than the snapshot, and is the reset of one of the buckets.
pub next_quota_reset_found :
    (go : GoLib) (account : Account) (o : Time)
    → (next_quota_reset go account o).1 ≡ true
    → let reset = (next_quota_reset go account o).0 in
      (o < reset) × IsReset go reset (quota_groups account)
unfolding next_quota_reset
next_quota_reset_found go account o ok = elim (next_in_groups_found go o 0 (quota_groups account)) [
  | inl zero_time ↦ absurd (ground arith)
  | inr found ↦ found
]
