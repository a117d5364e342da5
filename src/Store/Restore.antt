-- ===== src/Store/Restore.antt =====
-- internal/app/backup_service.go: the journal that makes a restore all or nothing. Every write is an
-- AtomicWrite, so a crash falls between two of the actions below. Text is all that is kept of a file.
-- A journal that cannot be read stops the recovery with an error; it is not modelled.
pub mod Crash
use agy_swap.Prelude.{
  String, Bool, true, false, List, [], ◌∷◌, ◌++◌, Option, none, some, if◌then◌else◌, map,
}

-- The fixed local paths of `restoreSnapshot`.
pub data Place : Type 0 where
  accounts : Place
  accounts_backup : Place
  settings : Place

-- The files, none where there is no file.
pub record Files : Type 0 where
  pub accounts_file : Option String
  pub backup_file : Option String
  pub settings_file : Option String

-- type restoreJournal
pub record RestoreJournal : Type 0 where
  pub committed : Bool
  pub before : Files

pub record Disk : Type 0 where
  pub files : Files
  pub journal : Option RestoreJournal

abbrev pub file_at : Place → Files → Option String
file_at accounts f = f.accounts_file
file_at accounts_backup f = f.backup_file
file_at settings f = f.settings_file

abbrev pub put_file : Place → Option String → Files → Files
put_file accounts content f = record f { accounts_file = content }
put_file accounts_backup content f = record f { backup_file = content }
put_file settings content f = record f { settings_file = content }

-- One change on disk.
pub data Action : Type 0 where
  put : Place → Option String → Action
  write_journal : RestoreJournal → Action
  remove_journal : Action

abbrev pub act : Action → Disk → Disk
act (put place content) d = record d { files = put_file place content d.files }
act (write_journal journal) d = record d { journal = some journal }
act remove_journal d = record d { journal = none }

unfoldable pub run : List Action → Disk → Disk
run [] d = d
run (a ∷ rest) d = run rest (act a d)

-- `restoreSnapshot`: a Go map is gone through in an unknown order.
unfoldable pub restore_snapshot : List Place → RestoreJournal → List Action
restore_snapshot [] journal = []
restore_snapshot (place ∷ places) journal =
    put place (file_at place journal.before) ∷ restore_snapshot places journal

-- `recoverRestoreUnlocked`
recover_actions : List Place → Option RestoreJournal → List Action
unfolding restore_snapshot
recover_actions places none = []
recover_actions places (some journal) =
    if journal.committed
    then remove_journal ∷ []
    else restore_snapshot places journal ++ remove_journal ∷ []

unfoldable pub recover_restore : List Place → Disk → List Action
unfolding recover_actions
recover_restore places d = recover_actions places d.journal

-- The settings are written only if the backup has some.
write_settings : Option String → List Action
write_settings none = []
write_settings (some content) = put settings (some content) ∷ []

-- `saveUnlocked`: the backup of a file that is there, and the file.
write_saved : Option String → String → List Action
write_saved none new = put accounts (some new) ∷ []
write_saved (some old) new = put accounts_backup (some old) ∷ put accounts (some new) ∷ []

-- The writes of `importBackup` under the journal. The vault entries that it stages, and the settings
-- that it merges, are made before these and change none of the three files.
unfoldable pub import_writes : Files → String → Option String → List Action
unfolding write_saved write_settings
import_writes before new new_settings =
    write_saved before.accounts_file new ++ write_settings new_settings

-- All of them, when none fails.
unfoldable pub import_actions : Files → String → Option String → List Action
unfolding import_writes
import_actions before new new_settings =
    write_journal (record { committed = false; before = before })
      ∷ import_writes before new new_settings
    ++ write_journal (record { committed = true; before = before }) ∷ remove_journal ∷ []

-- `rollback`, when one fails.
unfoldable pub rollback_actions : List Place → Files → List Action
unfolding restore_snapshot
rollback_actions places before =
    restore_snapshot places (record { committed = false; before = before }) ++ remove_journal ∷ []
