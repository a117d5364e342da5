-- ===== src/Session/Writing/Rollback.antt =====
-- internal/app/credentials.go: a session that could not be written completely is put back.
use agy_swap.Prelude.{
  String, Bool, true, false, not, ◌&&◌, ◌||◌, List, [], ◌∷◌, Option, none, some, ◌≡◌, ◌⊎◌, inl, inr,
  refl, sym, ◌∙◌, ap, if◌then◌else◌, ◌==◌, member, arith, eq_iff, Bool-cases, Option-cases,
}
use agy_swap.Prelude.Map
use agy_swap.Prelude.Map.{get-insert, get-erase}
use agy_swap.Value.{Fields}
use agy_swap.GoLib.{GoLib}
use agy_swap.Files.{written, not_replaced, replaced_then_failed}
use agy_swap.Token.{decode_token, token_object}
use agy_swap.Session.{
  Paths, SessionLib, Faults, SessionFiles, oauth_token_paths, session_file_paths, used, read_file,
}
use agy_swap.Session.Writing.{
  Snapshot, put_file, write_json, write_each, snapshot_files, restore_file, restore_files,
  write_session, credentials_of, google_accounts_of, parsed_file, write_decoded, write_inner,
  with_snapshot, write_google, or_restore, write_oauth_files,
}

-- The roll-back is not hindered.
pub record IsUndoing (f : Faults) : Type 0 where
  pub can_restore : (path : String) → f.restore path ≡ written
  pub can_remove : (path : String) → f.can_remove path ≡ true

-- Every path holds the same in both.
abbrev pub SameFiles : SessionFiles → SessionFiles → Type 0
SameFiles a b = (path : String) → Map.get path a ≡ Map.get path b

restore_file-get :
    (f : Faults) (path q : String) (content : Option String) (files : SessionFiles)
    → IsUndoing f
    → Map.get q (restore_file f path content files)
      ≡ (if path == q then content else Map.get q files)
unfolding restore_file put_file
restore_file-get f path q none files u = rw (u.can_remove path, get-erase path q files) refl
restore_file-get f path q (some c) files u =
    rw (restore_file, u.can_restore path, put_file, get-insert path q c files) refl

-- A snapshot of files puts back those files, and leaves what was never changed.
restore_files-get :
    (f : Faults) (files now : SessionFiles) (paths : List String) (snapshot : Snapshot) (q : String)
    → IsUndoing f
    → snapshot_files f files paths ≡ some snapshot
    → (member q paths ≡ true) ⊎ (Map.get q now ≡ Map.get q files)
    → Map.get q (restore_files f snapshot now) ≡ Map.get q files
unfolding snapshot_files restore_files
restore_files-get f files now [] snapshot q u s h =
    let e : snapshot ≡ [] = ground arith in
    rw e (elim h [ inl m ↦ absurd (ground arith) | inr g ↦ g ])
restore_files-get f files now (path ∷ paths) snapshot q u s h =
    elim (Option-cases (snapshot_files f files paths)) [
      | inl e ↦ absurd (ground arith)
      | inr (rest, e) ↦
          let shape : snapshot ≡ (path, Map.get path files) ∷ rest = ground arith in
          let now' = restore_file f path (Map.get path files) now in
          let one = restore_file-get f path q (Map.get path files) now u in
          let settled : (member q paths ≡ true) ⊎ (Map.get q now' ≡ Map.get q files) =
            elim (Bool-cases (path == q)) [
              | inl same ↦
                  let p : path ≡ q = (eq_iff path q).0 same in
                  inr (one ∙ rw same (ap (λ x. Map.get x files) p))
              | inr other ↦ elim h [
                | inl m ↦ inl (ground (arith, eq_iff path q, eq_iff q path))
                | inr g ↦ inr (one ∙ rw other g)
              ]
            ] in
          rw shape (restore_files-get f files now' paths rest q u e settled)
    ]

pub write_json-get :
    (f : Faults) (path q : String) (payload : Option String) (files : SessionFiles)
    → path == q ≡ false
    → Map.get q (write_json f path payload files).1 ≡ Map.get q files
unfolding write_json put_file
write_json-get f path q none files h = refl
write_json-get f path q (some c) files h =
    elim (f.write path) as (λ o. Map.get q (put_file o path c files).1 ≡ Map.get q files) [
      | written ↦ rw (get-insert path q c files, h) refl
      | not_replaced ↦ refl
      | replaced_then_failed ↦ rw (get-insert path q c files, h) refl
    ]

pub write_each-get :
    (f : Faults) (paths : List String) (q : String) (payload : Option String) (files : SessionFiles)
    → member q paths ≡ false
    → Map.get q (write_each f paths payload files).1 ≡ Map.get q files
unfolding write_each
write_each-get f [] q payload files h = refl
write_each-get f (path ∷ paths) q payload files h =
    let w = write_json-get f path q payload files (ground (arith, eq_iff path q, eq_iff q path)) in
    let r = write_each-get f paths q payload (write_json f path payload files).1 (ground arith) in
    elim (Bool-cases (write_json f path payload files).0) [
      | inl done ↦ rw done (r ∙ w)
      | inr failed ↦ rw failed w
    ]

pub member-used :
    (q : String) (paths : List String) → member q (used paths) ≡ (not (q == "") && member q paths)
unfolding used
member-used q [] = ground arith
member-used q (path ∷ paths) =
    ground (arith, member-used q paths, eq_iff q path, eq_iff path "", eq_iff q "")

-- The files of credentials and of the active account have paths.
pub record IsPlaced (p : Paths) : Type 0 where
  pub credentials : p.oauth_credentials == "" ≡ false
  pub google : p.google_accounts == "" ≡ false

-- A path outside the session is none of those that are written.
outside_session :
    (p : Paths) (include : Bool) (q : String)
    → IsPlaced p
    → member q (session_file_paths p include) ≡ false
    → (member q (oauth_token_paths p) ≡ false)
      × (p.oauth_credentials == q ≡ false)
      × (include ≡ true → p.google_accounts == q ≡ false)
unfolding session_file_paths oauth_token_paths
outside_session p include q placed h =
    let all = member-used q (
      p.oauth_token
      ∷ p.ide_oauth_token
      ∷ p.jetski_token
      ∷ p.oauth_credentials
      ∷ (if include then p.google_accounts else "")
      ∷ []) in
    let tokens = member-used q (p.oauth_token ∷ p.ide_oauth_token ∷ p.jetski_token ∷ []) in
    let clear : (not (q == "")
          && member q (
              p.oauth_token
              ∷ p.ide_oauth_token
              ∷ p.jetski_token
              ∷ p.oauth_credentials
              ∷ (if include then p.google_accounts else "")
              ∷ []))
        ≡ false =
      sym all ∙ h in
    (
      tokens ∙ ground arith,
      ground (arith, eq_iff p.oauth_credentials q, eq_iff q p.oauth_credentials, eq_iff q ""),
      λ i. ground (arith, eq_iff p.google_accounts q, eq_iff q p.google_accounts, eq_iff q ""),
    )

write_session-get :
    (go : GoLib) (lib : SessionLib) (p : Paths) (f : Faults) (decoded inner : Fields)
    (email q : String) (files : SessionFiles)
    → IsPlaced p
    → member q (session_file_paths p (not (email == ""))) ≡ false
    → Map.get q (write_session go lib p f decoded inner email files).1 ≡ Map.get q files
unfolding write_session write_google
write_session-get go lib p f decoded inner email q files placed h =
    let (tokens, credentials, google) = outside_session p (not (email == "")) q placed h in
    let a = write_each-get f (oauth_token_paths p) q (lib.encode_json decoded) files tokens in
    let creds = lib.encode_json (credentials_of inner) in
    let files1 = (write_each f (oauth_token_paths p) (lib.encode_json decoded) files).1 in
    let files2 = (write_json f p.oauth_credentials creds files1).1 in
    let b = write_json-get f p.oauth_credentials q creds files1 credentials in
    elim (Bool-cases (write_each f (oauth_token_paths p) (lib.encode_json decoded) files).0) [
      | inr failed ↦ rw failed a
      | inl done ↦
          elim (Bool-cases (not (write_json f p.oauth_credentials creds files1).0 || email == "")) [
            | inl last ↦ rw (done, last) (b ∙ a)
            | inr more ↦
                let c =
                  write_json-get f p.google_accounts q
                    (lib.encode_json (
                      google_accounts_of email
                        (parsed_file go (read_file f files2 p.google_accounts))))
                    files2 (google (ground arith)) in
                rw (done, more) (c ∙ b ∙ a)
          ]
    ]

module _ (go : GoLib) (lib : SessionLib) (p : Paths) (f : Faults) (placed : IsPlaced p)
    (undoing : IsUndoing f) where
  or_restore-same :
      (files : SessionFiles) (q : String) (include : Bool) (snapshot : Snapshot)
      (r : Bool × SessionFiles)
      → snapshot_files f files (session_file_paths p include) ≡ some snapshot
      → (member q (session_file_paths p include) ≡ false → Map.get q r.1 ≡ Map.get q files)
      → (or_restore go lib p f snapshot r).0 ≡ false
      → Map.get q (or_restore go lib p f snapshot r).1 ≡ Map.get q files
  unfolding or_restore
  or_restore-same files q include snapshot (true, now) s same h = absurd (ground arith)
  or_restore-same files q include snapshot (false, now) s same h =
      restore_files-get f files now (session_file_paths p include) snapshot q undoing s
        (elim (Bool-cases (member q (session_file_paths p include))) [
          | inl inside ↦ inl inside
          | inr out ↦ inr (same out)
        ])

  with_snapshot-same :
      (decoded inner : Fields) (email q : String) (files : SessionFiles) (o : Option Snapshot)
      → snapshot_files f files (session_file_paths p (not (email == ""))) ≡ o
      → (with_snapshot go lib p f decoded inner email files o).0 ≡ false
      → Map.get q (with_snapshot go lib p f decoded inner email files o).1 ≡ Map.get q files
  unfolding with_snapshot
  with_snapshot-same decoded inner email q files none s h = refl
  with_snapshot-same decoded inner email q files (some snapshot) s h =
      or_restore-same files q (not (email == "")) snapshot
        (write_session go lib p f decoded inner email files) s
        (write_session-get go lib p f decoded inner email q files placed) h

  write_inner-same :
      (decoded : Fields) (o : Option Fields) (email q : String) (files : SessionFiles)
      → (write_inner go lib p f decoded o email files).0 ≡ false
      → Map.get q (write_inner go lib p f decoded o email files).1 ≡ Map.get q files
  unfolding write_inner
  write_inner-same decoded none email q files h = refl
  write_inner-same decoded (some inner) email q files h =
      let s = with_snapshot-same decoded inner email q files _ refl in ground (arith, s)

  write_decoded-same :
      (o : Option Fields) (email q : String) (files : SessionFiles)
      → (write_decoded go lib p f o email files).0 ≡ false
      → Map.get q (write_decoded go lib p f o email files).1 ≡ Map.get q files
  unfolding write_decoded
  write_decoded-same none email q files h = refl
  write_decoded-same (some decoded) email q files h =
      write_inner-same decoded (token_object (some decoded)) email q files h

-- A session that cannot be written completely leaves every file as it was, if the roll-back itself
-- meets no error.
pub write_oauth_files-rollback :
    (go : GoLib) (lib : SessionLib) (p : Paths) (f : Faults) (token email : String)
    (files : SessionFiles)
    → IsPlaced p
    → IsUndoing f
    → (write_oauth_files go lib p f token email files).0 ≡ false
    → SameFiles (write_oauth_files go lib p f token email files).1 files
unfolding write_oauth_files
write_oauth_files-rollback go lib p f token email files placed undoing h q =
    write_decoded-same go lib p f placed undoing (decode_token go token) email q files h
