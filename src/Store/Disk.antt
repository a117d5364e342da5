-- ===== src/Store/Disk.antt =====
-- internal/app/store.go: `saveUnlocked`, with accounts.json and its backup as the state. What the file
-- system answers is an argument, `Fate`; the JSON encoder is a parameter.
pub mod Saving
use agy_swap.Prelude.{
  ℕ, String, Bool, true, false, not, ◌&&◌, ◌||◌, Option, none, some, if◌then◌else◌, nat_eq, ◌==◌,
}
use agy_swap.GoLib.{GoLib}
use agy_swap.Accounts.{Accounts}
use agy_swap.Errors.{GoError, plain}
use agy_swap.Files.{WriteOutcome, written, not_replaced, replaced_then_failed}
use agy_swap.Store.Validate.{validate_accounts}

-- A file: what it holds, and its modification time.
pub record File : Type 0 where
  pub content : String
  pub modified : ℕ

pub record Disk : Type 0 where
  pub accounts : Option File
  pub backup : Option String

-- What the file system does during one call.
pub record Fate : Type 0 where
  pub can_stat : Bool
  pub can_read : Bool
  pub backup_write : WriteOutcome
  pub accounts_write : WriteOutcome
  pub modified : ℕ  -- of a file that is written now
  pub can_stat_again : Bool

abbrev pub store_conflict : GoError
store_conflict = plain "accounts.json changed in another process; retry the command"

abbrev pub file_error : GoError
file_error = plain "file system"

-- stat.ModTime(), 0 for a missing file
abbrev pub modified_at : Option File → ℕ
modified_at none = 0
modified_at (some file) = file.modified

abbrev pub content_of : Option File → String
content_of none = ""
content_of (some file) = file.content

abbrev put_text : WriteOutcome → String → Option String → Bool × Option String
put_text written new old = (true, some new)
put_text not_replaced new old = (false, old)
put_text replaced_then_failed new old = (false, some new)

abbrev put_file : WriteOutcome → File → Option File → Bool × Option File
put_file written new old = (true, some new)
put_file not_replaced new old = (false, old)
put_file replaced_then_failed new old = (false, some new)

-- The new text goes into accounts.json, and its revision into the accounts.
write_accounts : GoLib → Fate → Accounts → String → Disk → Option GoError × (Accounts × Disk)
write_accounts go fate a payload d =
    let (done, file) =
      put_file fate.accounts_write (record { content = payload; modified = fate.modified })
        d.accounts in
    let d' : Disk = record d { accounts = file } in
    if not done
    then (some file_error, (a, d'))
    else if not fate.can_stat_again
    then (some file_error, (a, d'))
    else (none, (record a { revision = fate.modified; revision_hash = go.sha256_hex payload }, d'))

-- The file that is about to be replaced is compared and copied first.
back_up : GoLib → Fate → Accounts → String → Disk → Option GoError × (Accounts × Disk)
unfolding write_accounts
back_up go fate a payload d =
    let previous = content_of d.accounts in
    if not fate.can_read
    then (some file_error, (a, d))
    else if not (a.revision_hash == "") && not (a.revision_hash == go.sha256_hex previous)
    then (some store_conflict, (a, d))
    else let (done, backup) = put_text fate.backup_write previous d.backup in
      let d' : Disk = record d { backup = backup } in
      if done then write_accounts go fate a payload d' else (some file_error, (a, d'))

save_payload : GoLib → Fate → Accounts → Option String → Disk → Option GoError × (Accounts × Disk)
unfolding back_up write_accounts
save_payload go fate a none d = (some (plain "json"), (a, d))
save_payload go fate a (some payload) d =
    if not fate.can_stat
    then (some file_error, (a, d))
    else if not (nat_eq a.revision (modified_at d.accounts))
    then (some store_conflict, (a, d))
    else if nat_eq (modified_at d.accounts) 0
    then write_accounts go fate a payload d
    else back_up go fate a payload d

save_checked :
    GoLib
    → (Accounts → Option String)
    → Fate
    → Option GoError × Accounts
    → Disk
    → Option GoError × (Accounts × Disk)
unfolding save_payload
save_checked go encode fate (some e, a) d = (some e, (a, d))
save_checked go encode fate (none, a) d = save_payload go fate a (encode a) d

unfoldable pub save_unlocked :
    GoLib → (Accounts → Option String) → Fate → Accounts → Disk → Option GoError × (Accounts × Disk)
unfolding save_checked validate_accounts
save_unlocked go encode fate a d = save_checked go encode fate (validate_accounts go a) d

-- Save. `recover` is recoverRestore, and `can_lock` says whether the lock of accounts.json is got.
unfoldable pub save :
    (Disk → Bool × Disk)
    → Bool
    → GoLib
    → (Accounts → Option String)
    → Fate
    → Accounts
    → Disk
    → Option GoError × (Accounts × Disk)
unfolding save_unlocked
save recover can_lock go encode fate a d =
    let (recovered, d') = recover d in
    if not recovered || not can_lock
    then (some file_error, (a, d'))
    else save_unlocked go encode fate a d'
