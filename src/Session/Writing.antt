-- ===== src/Session/Writing.antt =====
-- internal/app/credentials.go: `writeOAuthFiles`, which replaces the files of a session or puts the old
-- ones back; internal/store/atomic.go: `SnapshotFiles` and `RestoreFiles`.
pub mod Rollback
pub mod Written
use agy_swap.Prelude.{
  String, Bool, true, false, not, ◌&&◌, ◌||◌, List, [], ◌∷◌, ◌++◌, Option, none, some,
  if◌then◌else◌, ◌==◌, map,
}
use agy_swap.Prelude.Int.{pos}
use agy_swap.Prelude.Map
use agy_swap.Value.{
  Value, Items, Fields, text, number, array, nil, cons, end, field, get_field, get_string,
  get_slice, first_string, text_of, object,
}
use agy_swap.GoLib.{GoLib}
use agy_swap.Files.{WriteOutcome, written, not_replaced, replaced_then_failed}
use agy_swap.Token.{decode_token, token_object}
use agy_swap.Session.{
  Paths, SessionLib, Faults, SessionFiles, oauth_token_paths, session_file_paths, read_file,
}

-- store.AtomicWrite as one step, of which Files.Atomic has the steps
unfoldable pub put_file : WriteOutcome → String → String → SessionFiles → Bool × SessionFiles
put_file written path content files = (true, Map.insert path content files)
put_file not_replaced path content files = (false, files)
put_file replaced_then_failed path content files = (false, Map.insert path content files)

-- store.AtomicWriteJSON
unfoldable write_json : Faults → String → Option String → SessionFiles → Bool × SessionFiles
unfolding put_file
write_json f path none files = (false, files)
write_json f path (some payload) files = put_file (f.write path) path payload files

-- Files are written one after the other up to the first failure.
unfoldable write_each : Faults → List String → Option String → SessionFiles → Bool × SessionFiles
unfolding write_json
write_each f [] payload files = (true, files)
write_each f (path ∷ paths) payload files =
    let (done, files') = write_json f path payload files in
    let rest = write_each f paths payload files' in if done then rest else (false, files')

-- type FileSnapshot: what each file held, or that it was missing.
abbrev pub Snapshot : Type 0
Snapshot = List (String × Option String)

-- store.SnapshotFiles; `none` is an error.
unfoldable snapshot_files : Faults → SessionFiles → List String → Option Snapshot
snapshot_files f files [] = some []
snapshot_files f files (path ∷ paths) =
    let rest = snapshot_files f files paths in
    if f.can_read path
    then elim rest [ none ↦ none | some snapshot ↦ some ((path, Map.get path files) ∷ snapshot) ]
    else none

unfoldable restore_file : Faults → String → Option String → SessionFiles → SessionFiles
unfolding put_file
restore_file f path none files = if f.can_remove path then Map.erase path files else files
restore_file f path (some content) files = (put_file (f.restore path) path content files).1

-- store.RestoreFiles, whose result the callers do not look at
unfoldable restore_files : Faults → Snapshot → SessionFiles → SessionFiles
unfolding restore_file
restore_files f [] files = files
restore_files f ((path, content) ∷ snapshot) files =
    restore_files f snapshot (restore_file f path content files)

abbrev default_scope : String
default_scope =
    "https://www.googleapis.com/auth/cloud-platform openid https://www.googleapis.com/auth/userinfo.email"

abbrev or_zero : Option Value → Value
or_zero none = number (pos 0)
or_zero (some value) = value

unfoldable credentials_of : Fields → Fields
credentials_of inner = field "access_token" (text (get_string inner "access_token")) (
    field "refresh_token" (text (get_string inner "refresh_token")) (
      field "scope" (text (first_string (get_field "scope" inner) default_scope)) (
        field "token_type" (text (first_string (get_field "token_type" inner) "Bearer")) (
          field "id_token" (text (get_string inner "id_token"))
            (field "expiry_date" (or_zero (get_field "expiry_date" inner)) end)))))

abbrev contains_string : List Value → String → Bool
contains_string [] target = false
contains_string (text value ∷ values) target = value == target || contains_string values target
contains_string (_ ∷ values) target = contains_string values target

-- The texts of the list, less the active account.
other_texts : String → List Value → Items
other_texts email [] = nil
other_texts email (text value ∷ values) =
    let rest = other_texts email values in if value == email then rest else cons (text value) rest
other_texts email (_ ∷ values) = other_texts email values

with_old : String → List Value → String → List Value
with_old email old old_active =
    if not (old_active == "") && not (old_active == email) && not (contains_string old old_active)
    then text old_active ∷ old
    else old

-- The new content of google_accounts.json, from what could be read of the old one.
unfoldable google_accounts_of : String → Option Fields → Fields
unfolding other_texts with_old
google_accounts_of email none = field "active" (text email) (field "old" (array nil) end)
google_accounts_of email (some existing) =
    let old =
      with_old email (get_slice (get_field "old" existing)) (get_string existing "active") in
    field "active" (text email) (field "old" (array (other_texts email old)) end)

abbrev parsed_file : GoLib → Option String → Option Fields
parsed_file go none = none
parsed_file go (some content) = go.unmarshal_object content

module _ (go : GoLib) (lib : SessionLib) (p : Paths) (f : Faults) where
  -- A write that failed is undone.
  or_restore : Snapshot → Bool × SessionFiles → Bool × SessionFiles
  or_restore snapshot (true, files) = (true, files)
  or_restore snapshot (false, files) = (false, restore_files f snapshot files)

  write_google : String → SessionFiles → Bool × SessionFiles
  unfolding google_accounts_of
  write_google email files =
      let existing = parsed_file go (read_file f files p.google_accounts) in
      write_json f p.google_accounts (lib.encode_json (google_accounts_of email existing)) files

  -- The writes, without the roll-back.
  unfoldable write_session : Fields → Fields → String → SessionFiles → Bool × SessionFiles
  unfolding write_each credentials_of write_google
  write_session decoded inner email files =
      let (tokens, files1) = write_each f (oauth_token_paths p) (lib.encode_json decoded) files in
      let (credentials, files2) =
        write_json f p.oauth_credentials (lib.encode_json (credentials_of inner)) files1 in
      if not tokens
      then (false, files1)
      else if not credentials || email == ""
      then (credentials, files2)
      else write_google email files2

  with_snapshot : Fields → Fields → String → SessionFiles → Option Snapshot → Bool × SessionFiles
  unfolding write_session or_restore
  with_snapshot decoded inner email files none = (false, files)
  with_snapshot decoded inner email files (some snapshot) =
      or_restore snapshot (write_session decoded inner email files)

  write_inner : Fields → Option Fields → String → SessionFiles → Bool × SessionFiles
  unfolding with_snapshot snapshot_files
  write_inner decoded none email files = (false, files)
  write_inner decoded (some inner) email files =
      if get_string inner "access_token" == ""
      then (false, files)
      else with_snapshot decoded inner email files
          (snapshot_files f files (session_file_paths p (not (email == ""))))

  write_decoded : Option Fields → String → SessionFiles → Bool × SessionFiles
  unfolding write_inner
  write_decoded none email files = (false, files)
  write_decoded (some decoded) email files =
      write_inner decoded (token_object (some decoded)) email files

  unfoldable pub write_oauth_files : String → String → SessionFiles → Bool × SessionFiles
  unfolding write_decoded restore_files
  write_oauth_files token_data email files = write_decoded (decode_token go token_data) email files
