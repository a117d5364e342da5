-- ===== src/Quota/Schedule/Due.antt =====
-- internal/app/quota_schedule.go: when `quota_due_at` lets an account be read.
use agy_swap.Prelude.{ℕ, ◌+◌, ◌≤◌, ◌<◌, ◌≡◌, Bool, some, if◌then◌else◌, arith}
use agy_swap.Clock.{Time}
use agy_swap.GoLib.{GoLib}
use agy_swap.Value.{Account}
use agy_swap.Quota.Pools.{quota_groups, quota_wait}
use agy_swap.Quota.Schedule.{
  quota_active_every, quota_other_every, quota_reset_slack, observed_at, due_after, quota_due_at,
}
use agy_swap.Quota.Schedule.Resets.{IsReset, next_quota_reset_min}

abbrev pub every : Bool → ℕ
every active = if active then quota_active_every else quota_other_every

-- With no failed read and no back-off, an account with a snapshot is due at the latest 3 seconds
-- after any of its pools resets.
pub quota_due_at-reset :
    (go : GoLib) (account : Account) (active : Bool) (observed reset : Time)
    → observed_at go account ≡ some observed
    → observed < reset
    → IsReset go reset (quota_groups account)
    → quota_due_at go account active 0 0 ≤ reset + quota_reset_slack
unfolding quota_due_at due_after
quota_due_at-reset go account active observed reset at later r =
    rw at (ground (arith, next_quota_reset_min go account observed reset later r))

-- With no failed read, no back-off and a shared pool left, the account is due at the latest one
-- interval after its snapshot.
pub quota_due_at-interval :
    (go : GoLib) (account : Account) (active : Bool) (observed : Time)
    → observed_at go account ≡ some observed
    → (quota_wait go account observed "").0 ≡ 0
    → quota_due_at go account active 0 0 ≤ observed + every active
unfolding quota_due_at due_after
quota_due_at-interval go account active observed at left = rw at (ground arith)
