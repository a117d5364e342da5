-- ===== src/Tui/Sync.antt =====
-- internal/app/tui_sync.go: noticing changes of files, and choosing the accounts whose quota is read.
-- os.Stat is a parameter: the stamp of a file, or none.
pub mod Waiting
use agy_swap.Prelude.{
  ℕ, ◌+◌, ◌-◌, ◌*◌, String, Bool, true, false, not, ◌&&◌, ◌||◌, List, [], ◌∷◌, Option, none, some,
  if◌then◌else◌, nat_eq, leb, ltb, ◌==◌,
}
use agy_swap.Prelude.Map
use agy_swap.Prelude.Map.{Map}
use agy_swap.GoLib.{GoLib}
use agy_swap.Clock.{Time, after, second, minute}
use agy_swap.Value.{Account, Fields, end, get_string}
use agy_swap.Accounts.{Accounts}
use agy_swap.Quota.Schedule.{quota_due_at}

-- type fileStamp
pub record FileStamp : Type 0 where
  pub mod_time : Time
  pub size : ℕ

abbrev pub same_stamp : FileStamp → FileStamp → Bool
same_stamp a b = nat_eq a.mod_time b.mod_time && nat_eq a.size b.size

-- type fileWatch: `none` until the file was seen
abbrev pub FileWatch : Type 0
FileWatch = Option FileStamp

-- `changed`, given what stampOf finds
unfoldable pub changed : FileWatch → Option FileStamp → Bool × FileWatch
changed last none = (false, last)
changed none (some stamp) = (false, some stamp)
changed (some before) (some stamp) = (not (same_stamp stamp before), some stamp)

abbrev pub tui_activity_list : ℕ
tui_activity_list = minute

abbrev pub tui_activity_quiet : ℕ
tui_activity_quiet = 3 * second

abbrev pub tui_activity_gap : ℕ
tui_activity_gap = 10 * second

-- type tuiActivity; `files` is none before the first look.
pub record TuiActivity : Type 0 where
  pub files : Option (Map FileStamp)
  pub listed_at : Time
  pub at : Time
  pub read : Time

-- A file of a new list is news if it was not known, or looked different.
abbrev is_news : Option (Map FileStamp) → String → FileStamp → Bool
is_news none path stamp = false
is_news (some known) path stamp = elim (Map.get path known) [
  | none ↦ true
  | some old ↦ not (same_stamp old stamp)
]

-- The files of a new list, and whether one of them is news.
unfoldable pub list_files :
    (String → Option FileStamp)
    → Option (Map FileStamp)
    → List String
    → Map FileStamp
    → Bool
    → Map FileStamp × Bool
list_files stamp_of old [] files news = (files, news)
list_files stamp_of old (path ∷ paths) files news = elim (stamp_of path) [
  | none ↦ list_files stamp_of old paths files news
  | some stamp ↦
      list_files stamp_of old paths (Map.insert path stamp files) (news || is_news old path stamp)
]

-- A look at the files that are known; `paths` are the keys of the map.
unfoldable pub look_again :
    (String → Option FileStamp) → List String → Map FileStamp → Bool → Map FileStamp × Bool
look_again stamp_of [] files news = (files, news)
look_again stamp_of (path ∷ paths) files news =
    let differs : Option FileStamp → Bool × Map FileStamp = λ now. elim now [
      | none ↦ (false, files)
      | some stamp ↦ elim (Map.get path files) [
        | none ↦ (false, files)
        | some old ↦
            (if same_stamp stamp old then (false, files) else (true, Map.insert path stamp files))
      ]
    ] in
    let (new, files') = differs (stamp_of path) in look_again stamp_of paths files' (news || new)

-- `due`: now.Sub(t) >= d for a time t that has passed
unfoldable pub activity_due : TuiActivity → Time → Bool
activity_due w now =
    after w.at w.read && leb (w.at + tui_activity_quiet) now && leb (w.read + tui_activity_gap) now

abbrev account_of : Option Account → Account
account_of none = end
account_of (some account) = account

abbrev time_of : Option Time → Time
time_of none = 0
time_of (some t) = t

-- One turn of the loop of `dueEmails`. `equal_fold` is strings.EqualFold.
unfoldable pub is_due :
    GoLib
    → (String → String → Bool)
    → Accounts
    → String
    → Time
    → Map Time
    → (String → Time)
    → Bool
    → String
    → Bool
is_due go equal_fold accounts selected now tried backoff activity email =
    let account = account_of (Map.get email accounts.by_email) in
    let active = equal_fold email selected in
    if get_string account "token_data" == "" && get_string account "secret_ref" == ""
    then false
    else if active && activity && not (after (backoff email) now)
    then true
    else not
        (after (quota_due_at go account active (time_of (Map.get email tried)) (backoff email)) now)

unfoldable pub filter_due : (String → Bool) → List String → List String
filter_due due [] = []
filter_due due (email ∷ emails) =
    let rest = filter_due due emails in if due email then email ∷ rest else rest

unfoldable pub due_emails :
    GoLib
    → (String → String → Bool)
    → Accounts
    → String
    → Time
    → Map Time
    → (String → Time)
    → Bool
    → List String
unfolding filter_due is_due
due_emails go equal_fold accounts selected now tried backoff activity =
    filter_due (is_due go equal_fold accounts selected now tried backoff activity) accounts.order

poll_files :
    (String → Option FileStamp)
    → List String
    → List String
    → Option (Map FileStamp)
    → Bool
    → Map FileStamp × Bool
unfolding list_files look_again
poll_files stamp_of listed known none again = list_files stamp_of none listed Map.empty false
poll_files stamp_of listed known (some files) false = look_again stamp_of known files false
poll_files stamp_of listed known (some files) true =
    list_files stamp_of (some files) listed Map.empty false

-- `poll`: `listed` is what w.list() gives, and `known` are the keys of the map.
unfoldable pub poll :
    (String → Option FileStamp) → List String → List String → TuiActivity → Time → TuiActivity
unfolding poll_files
poll stamp_of listed known w now =
    let again : Bool = leb (w.listed_at + tui_activity_list) now in
    let first : Bool = elim w.files [ none ↦ true | some files ↦ false ] in
    let (files, news) = poll_files stamp_of listed known w.files again in
    record w {
      files = some files;
      listed_at = if first || again then now else w.listed_at;
      at = if news then now else w.at;
    }
