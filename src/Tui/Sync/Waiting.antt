-- ===== src/Tui/Sync/Waiting.antt =====
-- internal/app/tui_sync.go: which accounts `dueEmails` chooses.
use agy_swap.Prelude.{
  ◌≤◌, String, ◌≡◌, refl, Bool, true, ◌&&◌, List, [], ◌∷◌, member, eq_iff, arith,
}
use agy_swap.Prelude.Map
use agy_swap.Prelude.Map.{Map}
use agy_swap.GoLib.{GoLib}
use agy_swap.Clock.{Time}
use agy_swap.Value.{Account}
use agy_swap.Accounts.{Accounts}
use agy_swap.Quota.Schedule.{quota_due_at}
use agy_swap.Tui.Sync.{account_of, time_of, is_due, filter_due, due_emails}

member-filter_due :
    (due : String → Bool) (emails : List String) (e : String)
    → member e (filter_due due emails) ≡ (member e emails && due e)
unfolding filter_due
member-filter_due due [] e = refl
member-filter_due due (x ∷ xs) e = ground (arith, member-filter_due due xs e, eq_iff e x)

backoff-due :
    (go : GoLib) (account : Account) (active : Bool) (tried backoff_until : Time)
    → backoff_until ≤ quota_due_at go account active tried backoff_until
unfolding quota_due_at
backoff-due go account active tried backoff_until = ground arith

is_due-waits :
    (go : GoLib) (equal_fold : String → String → Bool) (accounts : Accounts) (selected : String)
    (now : Time) (tried : Map Time) (backoff : String → Time) (activity : Bool) (email : String)
    → is_due go equal_fold accounts selected now tried backoff activity email ≡ true
    → backoff email ≤ now
unfolding is_due
is_due-waits go equal_fold accounts selected now tried backoff activity email h =
    let account = account_of (Map.get email accounts.by_email) in
    ground (
      arith,
      backoff-due go account (equal_fold email selected) (time_of (Map.get email tried))
          (backoff email),
    )

-- An account whose quota is read is one of the saved ones and its back-off is over, whether its turn has
-- come or Antigravity was just used with it.
pub due_emails-waits :
    (go : GoLib) (equal_fold : String → String → Bool) (accounts : Accounts) (selected : String)
    (now : Time) (tried : Map Time) (backoff : String → Time) (activity : Bool) (email : String)
    → member email (due_emails go equal_fold accounts selected now tried backoff activity) ≡ true
    → (member email accounts.order ≡ true) × (backoff email ≤ now)
unfolding due_emails
due_emails-waits go equal_fold accounts selected now tried backoff activity email h =
    let due = is_due go equal_fold accounts selected now tried backoff activity in
    let m = member-filter_due due accounts.order email in
    (
      ground (arith, m),
      is_due-waits go equal_fold accounts selected now tried backoff activity email
          (ground (arith, m)),
    )
