-- ===== src/Quota/Service.antt =====
-- internal/app/quota.go and quota_schedule.go: what the quota service remembers between reads, the
-- Code Assist project of an account and its back-off. The mutex makes each of these operations one
-- step; the clock's reading is an argument.
pub mod Backoff
use agy_swap.Prelude.{
  ℕ, ◌+◌, ◌*◌, ◌-◌, ◌/◌, String, Bool, Option, none, some, if◌then◌else◌, nat_eq, ltb, leb, min,
}
use agy_swap.Prelude.Map
use agy_swap.Prelude.Map.{Map}
use agy_swap.Clock.{Time, minute}
use agy_swap.Value.{Fields}
use agy_swap.Errors.{GoError, backs_off}
use agy_swap.Quota.Schedule.{quota_active_every, quota_backoff_max}

-- type quotaBackoff struct: the wait
abbrev pub QuotaBackoff : Type 0
QuotaBackoff = ℕ

-- `jitter d` is time.Duration(float64(d) * random()).
unfoldable pub next_wait : QuotaBackoff → QuotaBackoff
next_wait wait =
    if nat_eq wait 0
    then quota_active_every
    else if ltb wait quota_backoff_max
    then min (2 * wait) quota_backoff_max
    else wait

unfoldable pub fail : (ℕ → ℕ) → QuotaBackoff → Time → QuotaBackoff × Time
unfolding next_wait
fail jitter b now =
    let wait = next_wait b in
    let less = if nat_eq wait quota_backoff_max then 0 else jitter (wait / 4) in
    (wait, now + (wait - less))

pub record QuotaProject : Type 0 where
  pub project : String
  pub tier : Option Fields
  pub at : Time

pub record QuotaBackoffState : Type 0 where
  pub backoff : QuotaBackoff
  pub until : Time

pub record QuotaService : Type 0 where
  pub projects : Map QuotaProject
  pub backoffs : Map QuotaBackoffState

abbrev pub quota_project_memo : ℕ
quota_project_memo = 15 * minute

-- `q.clock().Sub(memo.at) >= quotaProjectMemo`, for a memo from the past
unfoldable pub remembered_project : QuotaService → Time → String → Option QuotaProject
remembered_project q now email = elim (Map.get email q.projects) [
  | none ↦ none
  | some memo ↦ (if leb (memo.at + quota_project_memo) now then none else some memo)
]

unfoldable pub remember_project : QuotaService → Time → String → QuotaProject → QuotaService
remember_project q now email memo = record q {
  projects = Map.insert email (record memo { at = now }) q.projects;
}

unfoldable pub forget_project : QuotaService → String → QuotaService
forget_project q email = record q { projects = Map.erase email q.projects }

-- 0 is the zero time: not backing off.
unfoldable pub backoff_until : QuotaService → String → Time
backoff_until q email = elim (Map.get email q.backoffs) [ none ↦ 0 | some state ↦ state.until ]

-- A new back-off state is the zero value of the struct.
unfoldable pub backoff_state : QuotaService → String → QuotaBackoffState
backoff_state q email = elim (Map.get email q.backoffs) [
  | none ↦ record { backoff = 0; until = 0 }
  | some state ↦ state
]

unfoldable pub note_read : (ℕ → ℕ) → QuotaService → Time → String → Option GoError → QuotaService
note_read jitter q now email none = record q { backoffs = Map.erase email q.backoffs }
note_read jitter q now email (some err) =
    if backs_off err
    then (let (wait, until) = fail jitter (backoff_state q email).backoff now in
        record q {
          backoffs = Map.insert email (record { backoff = wait; until = until }) q.backoffs;
        })
    else q
