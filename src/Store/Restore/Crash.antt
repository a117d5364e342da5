-- ===== src/Store/Restore/Crash.antt =====
-- internal/app/backup_service.go: restores, roll-backs and recoveries that are cut off.
use mathlib.Core.Path.{subst}
use agy_swap.Prelude.{
  ℕ, zero, suc, String, ◌≡◌, ◌⊎◌, inl, inr, refl, ◌∙◌, ap, Bool, true, false, List, [], ◌∷◌, ◌++◌,
  Option, none, some, if◌then◌else◌, take, arith, ◌||◌, ◌&&◌,
}
use agy_swap.Store.Restore.{
  Place, accounts, accounts_backup, settings, Files, RestoreJournal, Disk, file_at, put_file,
  Action, put, write_journal, remove_journal, act, run, restore_snapshot, recover_restore,
  recover_actions, import_writes, write_saved, write_settings, import_actions, rollback_actions,
}

abbrev same_place : Place → Place → Bool
same_place accounts accounts = true
same_place accounts_backup accounts_backup = true
same_place settings settings = true
same_place _ _ = false

abbrev pub is_listed : Place → List Place → Bool
is_listed p [] = false
is_listed p (q ∷ places) = same_place q p || is_listed p places

-- All three places are gone through, in whatever order.
abbrev pub covers : List Place → Bool
covers places =
    is_listed accounts places && is_listed accounts_backup places && is_listed settings places

-- The disk after a recovery that is not disturbed.
abbrev pub recovered : List Place → Disk → Disk
recovered places d = run (recover_restore places d) d

abbrev pub settled : Files → Disk
settled f = record { files = f; journal = none }

abbrev pub uncommitted : Files → RestoreJournal
uncommitted before = record { committed = false; before = before }

restored-accounts :
    (places : List Place) (j : RestoreJournal) (d : Disk)
    → (run (restore_snapshot places j) d).files.accounts_file
      ≡ (if is_listed accounts places then j.before.accounts_file else d.files.accounts_file)
unfolding run restore_snapshot
restored-accounts [] j d = refl
restored-accounts (p ∷ ps) j d =
    ground (arith, restored-accounts ps j (act (put p (file_at p j.before)) d))

restored-backup :
    (places : List Place) (j : RestoreJournal) (d : Disk)
    → (run (restore_snapshot places j) d).files.backup_file
      ≡ (if is_listed accounts_backup places then j.before.backup_file else d.files.backup_file)
unfolding run restore_snapshot
restored-backup [] j d = refl
restored-backup (p ∷ ps) j d =
    ground (arith, restored-backup ps j (act (put p (file_at p j.before)) d))

restored-settings :
    (places : List Place) (j : RestoreJournal) (d : Disk)
    → (run (restore_snapshot places j) d).files.settings_file
      ≡ (if is_listed settings places then j.before.settings_file else d.files.settings_file)
unfolding run restore_snapshot
restored-settings [] j d = refl
restored-settings (p ∷ ps) j d =
    ground (arith, restored-settings ps j (act (put p (file_at p j.before)) d))

Files-ext :
    (f g : Files)
    → f.accounts_file ≡ g.accounts_file
    → f.backup_file ≡ g.backup_file
    → f.settings_file ≡ g.settings_file
    → f ≡ g
Files-ext f g a b s = ground arith

restored :
    (places : List Place) (j : RestoreJournal) (d : Disk)
    → covers places ≡ true
    → (run (restore_snapshot places j) d).files ≡ j.before
restored places j d c =
    Files-ext (run (restore_snapshot places j) d).files j.before
      (ground (arith, restored-accounts places j d)) (ground (arith, restored-backup places j d))
      (ground (arith, restored-settings places j d))

run-append : (xs ys : List Action) (d : Disk) → run (xs ++ ys) d ≡ run ys (run xs d)
unfolding run
run-append [] ys d = refl
run-append (x ∷ xs) ys d = run-append xs ys (act x d)

-- Under a journal that is not committed, recovery brings the old files back, whatever stands there.
recovered-uncommitted :
    (places : List Place) (f before : Files)
    → covers places ≡ true
    → recovered places (record { files = f; journal = some (uncommitted before) }) ≡ settled before
unfolding recover_restore recover_actions
recovered-uncommitted places f before c =
    let j = uncommitted before in
    let d : Disk = record { files = f; journal = some j } in
    run-append (restore_snapshot places j) (remove_journal ∷ []) d
    ∙ unfold run in ap settled (restored places j d c)

-- Actions that only put files.
is_puts : List Action → Bool
is_puts [] = true
is_puts (put place content ∷ rest) = is_puts rest
is_puts (_ ∷ rest) = false

abbrev commit : Files → List Action
commit before = write_journal (record { committed = true; before = before }) ∷ remove_journal ∷ []

-- What a cut leaves to the recovery: the old files, or those of the whole run.
abbrev IsOldOrNew : List Place → Files → Files → Disk → Type 0
IsOldOrNew places before after d =
    (recovered places d ≡ settled before) ⊎ (recovered places d ≡ settled after)

commit-crash :
    (places : List Place) (f before : Files) (m : ℕ)
    → covers places ≡ true
    → IsOldOrNew places before f
        (run (take m (commit before)) (record { files = f; journal = some (uncommitted before) }))
unfolding run recover_restore recover_actions
commit-crash places f before zero c = inl (recovered-uncommitted places f before c)
commit-crash places f before (suc zero) c = inr refl
commit-crash places f before (suc (suc zero)) c = inr refl
commit-crash places f before (suc (suc (suc m))) c = inr refl

writes-crash :
    (places : List Place) (before f : Files) (ws : List Action) (m : ℕ)
    → covers places ≡ true
    → is_puts ws ≡ true
    → let d : Disk = record { files = f; journal = some (uncommitted before) } in
      IsOldOrNew places before (run ws d).files (run (take m (ws ++ commit before)) d)
unfolding run is_puts
writes-crash places before f [] m c h = commit-crash places f before m c
writes-crash places before f (put p content ∷ ws) zero c h =
    inl (recovered-uncommitted places f before c)
writes-crash places before f (put p content ∷ ws) (suc m) c h =
    writes-crash places before (put_file p content f) ws m c h
writes-crash places before f (write_journal j ∷ ws) m c h = absurd (ground arith)
writes-crash places before f (remove_journal ∷ ws) m c h = absurd (ground arith)

-- Where files are put does not depend on the journal.
run-puts :
    (ws : List Action) (f : Files) (j : Option RestoreJournal)
    → is_puts ws ≡ true
    → (run ws (record { files = f; journal = j })).files ≡ (run ws (settled f)).files
unfolding run is_puts
run-puts [] f j h = refl
run-puts (put p content ∷ ws) f j h = run-puts ws (put_file p content f) j h
run-puts (write_journal k ∷ ws) f j h = absurd (ground arith)
run-puts (remove_journal ∷ ws) f j h = absurd (ground arith)

import_writes-puts :
    (before : Files) (new : String) (new_settings : Option String)
    → is_puts (import_writes before new new_settings) ≡ true
unfolding import_writes write_saved write_settings is_puts
import_writes-puts before new new_settings = ground arith

-- However many of its actions a restore gets done before it is cut off, the recovery at the next start,
-- in whatever order it restores the three files, leaves all of the old files or all of the new ones, and
-- no journal.
pub import_actions-crash :
    (places : List Place) (before : Files) (new : String) (new_settings : Option String) (n : ℕ)
    → covers places ≡ true
    → let d = run (take n (import_actions before new new_settings)) (settled before) in
      let after = (run (import_writes before new new_settings) (settled before)).files in
      (recovered places d ≡ settled before) ⊎ (recovered places d ≡ settled after)
import_actions-crash places before new new_settings zero c =
    unfold run recover_restore recover_actions in inl refl
import_actions-crash places before new new_settings (suc m) c =
    unfold run import_actions in
    let ws = import_writes before new new_settings in
    let cut : Disk =
      run (take m (ws ++ commit before))
        (record { files = before; journal = some (uncommitted before) }) in
    let done =
      writes-crash places before before ws m c (import_writes-puts before new new_settings) in
    subst (λ after. IsOldOrNew places before after cut)
      (run-puts ws before (some (uncommitted before)) (import_writes-puts before new new_settings))
      done

rollback-crash :
    (places order : List Place) (f before : Files) (m : ℕ)
    → covers places ≡ true
    → (run
        (restore_snapshot order (uncommitted before))
        (record { files = f; journal = some (uncommitted before) })).files
      ≡ before
    → recovered places (
        run
          (take m (rollback_actions order before))
          (record { files = f; journal = some (uncommitted before) }))
      ≡ settled before
unfolding run rollback_actions restore_snapshot
rollback-crash places order f before zero c h = recovered-uncommitted places f before c
rollback-crash places [] f before (suc zero) c h =
    unfold recover_restore recover_actions in ap settled h
rollback-crash places [] f before (suc (suc m)) c h =
    unfold recover_restore recover_actions in ap settled h
rollback-crash places (p ∷ order) f before (suc m) c h =
    rollback-crash places order (put_file p (file_at p before) f) before m c h

-- A roll-back that is itself cut off anywhere, whatever the restore had written by then, is completed by
-- the recovery: all the old files, and no journal. The restore had not been committed.
pub rollback_actions-crash :
    (places order : List Place) (f before : Files) (m : ℕ)
    → covers places ≡ true
    → covers order ≡ true
    → recovered places (
        run
          (take m (rollback_actions order before))
          (record { files = f; journal = some (uncommitted before) }))
      ≡ settled before
rollback_actions-crash places order f before m c o = rollback-crash places order f before m c (
    restored order (uncommitted before) (record { files = f; journal = some (uncommitted before) })
      o)
