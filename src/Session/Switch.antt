-- ===== src/Session/Switch.antt =====
-- internal/app/credentials.go: `applyUnlocked`, which switches to the session of an account, and
-- `clearUnlocked`. The lock makes each of them one step. The operating system's credential store,
-- `CredentialBackend`, is a parameter; its state stands beside the files.
pub mod Failed
pub mod Cleared
use agy_swap.Prelude.{
  String, Bool, true, false, not, ◌&&◌, ◌||◌, List, [], ◌∷◌, Option, none, some, if◌then◌else◌,
  ◌==◌, is_some,
}
use agy_swap.Prelude.Map
use agy_swap.GoLib.{GoLib}
use agy_swap.Email.{normalize_email}
use agy_swap.Errors.{Result, ok, err}
use agy_swap.Token.{decode_token, extract_email_hint}
use agy_swap.Session.{Paths, SessionLib, Faults, SessionFiles, session_file_paths, read_oauth_token}
use agy_swap.Session.Writing.{write_oauth_files}

pub record CredentialBackend (K : Type 0) : Type 0 where
  pub get : K → String
  pub set : K → String → Bool × K
  pub delete : K → Bool × K

-- What the program finds out about the system before it switches: `useFileSessionStore`,
-- `shouldMirrorOSKeyring`, the backend's `PrepareSession` where it has one, and `NoLogonSession`.
pub record Mode : Type 0 where
  pub file_store : Bool
  pub mirror : Bool
  pub prepare : Option (String → Result String)
  pub headless : Bool

pub record Live (K : Type 0) : Type 0 where
  pub files : SessionFiles
  pub keyring : K

unfoldable pub token_matches_email : GoLib → String → String → Bool
token_matches_email go token email =
    let claimed = extract_email_hint go token in
    claimed == "" || claimed == normalize_email go email

-- PrepareSession, where the backend has it
abbrev pub prepared_token : String → Option (String → Result String) → Result String
prepared_token token none = ok token
prepared_token token (some prepare) = prepare token

remove_each : Faults → List String → SessionFiles → Bool × SessionFiles
remove_each f [] files = (true, files)
remove_each f (path ∷ paths) files =
    let gone = if f.can_remove path then Map.erase path files else files in
    let (rest, files') = remove_each f paths gone in
    (rest && (f.can_remove path || not (is_some (Map.get path files))), files')

unfoldable pub delete_oauth_files : Paths → Faults → SessionFiles → Bool × SessionFiles
unfolding remove_each
delete_oauth_files p f files = remove_each f (session_file_paths p true) files

module _ {K : Type 0} (go : GoLib) (lib : SessionLib) (p : Paths) (f : Faults)
    (v : CredentialBackend K) (mode : Mode) where
  -- The files alone.
  write_files : String → String → Live K → Bool × Live K
  write_files token email s =
      let (done, files') = write_oauth_files go lib p f token email s.files in
      (done, record s { files = files' })

  -- The branch of the file store.
  apply_to_files : String → String → Live K → Bool × Live K
  unfolding write_files
  apply_to_files token email s =
      let (done, s') = write_files token email s in
      if not done
      then (false, s')
      else (true, if mode.mirror then record s' { keyring = (v.set s'.keyring token).1 } else s')

  -- The files, once the credential store has been written; `updated` says that it has.
  then_files : String → String → String → Bool → Live K → Bool × Live K
  unfolding write_files
  then_files token email previous updated s =
      let (done, s') = write_files token email s in
      if done
      then (true, s')
      else if not updated
      then (false, s')
      else if not (previous == "")
      then (false, record s' { keyring = (v.set s'.keyring previous).1 })
      else (false, record s' { keyring = (v.delete s'.keyring).1 })

  -- The write of the credential store has failed.
  not_updated : String → String → String → String → Live K → Bool × Live K
  unfolding then_files
  not_updated token email prepared previous s =
      let current = v.get s.keyring in
      if current == prepared
      then then_files token email previous true s
      else if not (previous == "")
      then (
        false,
        if current == previous then s else record s { keyring = (v.set s.keyring previous).1 },
      )
      else if not (current == "")
      then (false, s)
      else if is_some mode.prepare
      then (if mode.headless then write_files token email s else (false, s))
      else then_files token email previous false s

  apply_prepared : String → String → Result String → Live K → Bool × Live K
  unfolding not_updated
  apply_prepared token email (err e) s = (false, s)
  apply_prepared token email (ok prepared) s =
      let previous = v.get s.keyring in
      let (updated, k) = v.set s.keyring prepared in
      if previous == prepared
      then write_files token email s
      else if updated
      then then_files token email previous true (record s { keyring = k })
      else not_updated token email prepared previous (record s { keyring = k })

  unfoldable pub apply_unlocked : String → String → Live K → Bool × Live K
  unfolding apply_to_files apply_prepared
  apply_unlocked token address s =
      let email = normalize_email go address in
      if not (is_some (decode_token go token))
        || email == ""
        || not (token_matches_email go token email)
      then (false, s)
      else if mode.file_store
      then apply_to_files token email s
      else apply_prepared token email (prepared_token token mode.prepare) s

  -- The session that Antigravity runs with.
  unfoldable pub current : Live K → String
  current s =
      let token = read_oauth_token go lib p f s.files in
      if not (token == "") then token else if mode.file_store then "" else v.get s.keyring

  unfoldable pub clear_unlocked : Live K → Bool × Live K
  unfolding delete_oauth_files
  clear_unlocked s =
      let k = if mode.file_store && not mode.mirror then s.keyring else (v.delete s.keyring).1 in
      let (removed, files') = delete_oauth_files p f s.files in
      let signed_out = read_oauth_token go lib p f files' == "" in
      (
        if mode.file_store then removed && signed_out else v.get k == "" && signed_out,
        record { files = files'; keyring = k },
      )
