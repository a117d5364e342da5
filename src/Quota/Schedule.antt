-- ===== src/Quota/Schedule.antt =====
-- internal/app/quota_schedule.go: when an account's quota should next be read.
pub mod Resets
pub mod Due
use agy_swap.Prelude.{
  ℕ, ◌+◌, ◌*◌, ◌-◌, String, Bool, true, false, not, List, [], ◌∷◌, Option, none, some, ◌&&◌, ◌||◌,
  if◌then◌else◌, ltb, nat_eq,
}
use agy_swap.Clock.{Time, parse_utc, is_zero, after, before, second, minute}
use agy_swap.GoLib.{GoLib}
use agy_swap.Value.{Value, Account, get_field, get_map, get_slice, get_string, fields_or_end}
use agy_swap.Quota.Pools.{as_map, quota_groups, quota_wait}

abbrev pub quota_active_every : ℕ
quota_active_every = 20 * second

abbrev pub quota_other_every : ℕ
quota_other_every = 2 * minute

abbrev pub quota_reset_slack : ℕ
quota_reset_slack = 3 * second

abbrev pub quota_backoff_max : ℕ
quota_backoff_max = 10 * minute

-- One bucket of the loop: a reset after the snapshot that is the first one or an earlier one.
unfoldable pub earlier_reset : Time → Option Time → Time → Time
earlier_reset observed none earliest = earliest
earlier_reset observed (some reset) earliest =
    if not (after reset observed)
    then earliest
    else if is_zero earliest || before reset earliest
    then reset
    else earliest

unfoldable pub next_in_buckets : GoLib → Time → List Value → Time → Time
unfolding earlier_reset
next_in_buckets go observed [] earliest = earliest
next_in_buckets go observed (raw ∷ buckets) earliest =
    next_in_buckets go observed buckets
      (earlier_reset observed (parse_utc go (get_string (as_map raw) "reset_at")) earliest)

unfoldable pub next_in_groups : GoLib → Time → List Value → Time → Time
unfolding next_in_buckets
next_in_groups go observed [] earliest = earliest
next_in_groups go observed (raw ∷ groups) earliest =
    next_in_groups go observed groups
      (next_in_buckets go observed (get_slice (get_field "buckets" (as_map raw))) earliest)

unfoldable pub next_quota_reset : GoLib → Account → Time → Time × Bool
unfolding next_in_groups quota_groups
next_quota_reset go account observed =
    let earliest = next_in_groups go observed (quota_groups account) 0 in
    (earliest, not (is_zero earliest))

unfoldable pub observed_at : GoLib → Account → Option Time
observed_at go account =
    parse_utc go
      (get_string (fields_or_end (get_map (get_field "quota_snapshot" account))) "observed_at")

-- The part of `quotaDueAt` under `if err == nil`.
unfoldable pub due_after : GoLib → Account → ℕ → Time → Time
due_after go account every observed =
    let wait = (quota_wait go account observed "").0 in
    let due = if ltb 0 wait then observed + (wait + quota_reset_slack) else observed + every in
    let (reset, ok) = next_quota_reset go account observed in
    if ok && before (reset + quota_reset_slack) due then reset + quota_reset_slack else due

unfoldable pub quota_due_at : GoLib → Account → Bool → Time → Time → Time
unfolding due_after observed_at
quota_due_at go account active tried backoff_until =
    let every = if active then quota_active_every else quota_other_every in
    let due : Time = elim (observed_at go account) [
      | none ↦ 0
      | some observed ↦ due_after go account every observed
    ] in
    let due = if not (is_zero tried) && after (tried + every) due then tried + every else due in
    if after backoff_until due then backoff_until else due
