-- ===== src/Session/Writing/Written.antt =====
-- internal/app/credentials.go: what a session that was written says to those who read it.
use Prim.Native.String.{◌++◌}
use text.Mathlib.TextLemmas.{nil-append, cons-append}
use agy_swap.Prelude.{
  String, Bool, true, false, List, [], Option, none, some, ◌≡◌, inl, inr, refl, sym, ◌∙◌, ◌∷◌, ap,
  ◌==◌, member, arith, eq_iff, eq_refl, Bool-cases, Option-cases, is_some, if-cases,
}
use agy_swap.Prelude.Map
use agy_swap.Prelude.Map.{get-insert}
use agy_swap.Prelude.Text.{strip_prefix}
use agy_swap.Value.{Fields, get_string, get_field}
use agy_swap.GoLib.{GoLib}
use agy_swap.Email.{normalize_email}
use agy_swap.Files.{WriteOutcome, written, not_replaced, replaced_then_failed}
use agy_swap.Token.{decode_token, token_object}
use agy_swap.Session.{
  Paths, SessionLib, Faults, SessionFiles, oauth_token_paths, read_file, read_oauth_token_from_file,
  token_text, stored_active_email,
}
use agy_swap.Session.Writing.{
  put_file, write_json, write_each, write_session, write_google, write_decoded, write_inner,
  with_snapshot, or_restore, write_oauth_files, google_accounts_of, credentials_of, parsed_file,
  Snapshot,
}
use agy_swap.Session.Writing.Rollback.{write_json-get, write_each-get}

-- The library reads back the JSON that it has written for this token, and the active account in any
-- JSON; it decodes the base64 that it has encoded; the files can be read.
pub record IsReadable (go : GoLib) (lib : SessionLib) (f : Faults) (decoded : Fields) : Type 0 where
  pub decode-encode :
      (payload : String)
      → lib.encode_json decoded ≡ some payload
      → go.decode_object payload ≡ some decoded
  pub unmarshal-encode :
      (m : Fields) (payload : String)
      → lib.encode_json m ≡ some payload
      → (parsed : Fields) × (go.unmarshal_object payload ≡ some parsed)
        × (get_string parsed "active" ≡ get_string m "active")
  pub encode-is_json :
      (m : Fields) (payload : String)
      → lib.encode_json m ≡ some payload
      → lib.is_json payload ≡ true
  pub base64-encode : (s : String) → go.base64 (lib.encode_base64 s) ≡ some s
  pub can_read : (path : String) → f.can_read path ≡ true

-- The files of the session are different ones.
pub record IsApart (p : Paths) : Type 0 where
  pub credentials_token : member p.oauth_credentials (oauth_token_paths p) ≡ false
  pub google_token : member p.google_accounts (oauth_token_paths p) ≡ false
  pub google_path : p.google_accounts == "" ≡ false
  pub no_empty : member "" (oauth_token_paths p) ≡ false

put_file-written :
    (o : WriteOutcome) (path content : String) (files : SessionFiles)
    → (put_file o path content files).0 ≡ true
    → Map.get path (put_file o path content files).1 ≡ some content
unfolding put_file
put_file-written written path content files h =
    rw (get-insert path path content files, eq_refl path) refl
put_file-written not_replaced path content files h = absurd (ground arith)
put_file-written replaced_then_failed path content files h = absurd (ground arith)

write_json-written :
    (f : Faults) (path : String) (payload : Option String) (files : SessionFiles)
    → (write_json f path payload files).0 ≡ true
    → (Map.get path (write_json f path payload files).1 ≡ payload) × (is_some payload ≡ true)
unfolding write_json
write_json-written f path none files h = absurd (ground arith)
write_json-written f path (some c) files h = (put_file-written (f.write path) path c files h, refl)

write_each-written :
    (f : Faults) (paths : List String) (q : String) (payload : Option String) (files : SessionFiles)
    → (write_each f paths payload files).0 ≡ true
    → member q paths ≡ true
    → (Map.get q (write_each f paths payload files).1 ≡ payload) × (is_some payload ≡ true)
unfolding write_each
write_each-written f [] q payload files h m = absurd (ground arith)
write_each-written f (path ∷ paths) q payload files h m =
    let files1 = (write_json f path payload files).1 in
    elim (Bool-cases (write_json f path payload files).0) [
      | inr failed ↦ absurd (ground arith)
      | inl done ↦
          let (w, is) = write_json-written f path payload files done in
          elim (Bool-cases (member q paths)) [
            | inl later ↦ rw done (write_each-written f paths q payload files1 (ground arith) later)
            | inr last ↦
                let same : path ≡ q = ground (arith, eq_iff q path) in
                rw done (
                  write_each-get f paths q payload files1 last
                      ∙ ap (λ x. Map.get x files1) (sym same)
                      ∙ w,
                  is,
                )
          ]
    ]

member-ne :
    (a q : String) (l : List String) → member a l ≡ false → member q l ≡ true → a == q ≡ false
member-ne a q l h m = ground (arith, eq_iff a q)

strip_prefix-append : (s t : String) → strip_prefix s (s ++ t) ≡ some t
unfolding strip_prefix
strip_prefix-append String.[] t = rw (nil-append t) refl
strip_prefix-append (String.◌∷◌ c s) t =
    rw (cons-append c s t) (ground (arith, strip_prefix-append s t))

keyring_prefix-append : (s : String) → ("go-keyring-base64:" ++ s) == "" ≡ false
unfolding strip_prefix
keyring_prefix-append s = elim (Bool-cases (("go-keyring-base64:" ++ s) == "")) [
  | inr differs ↦ differs
  | inl same ↦
      let empty = (eq_iff ("go-keyring-base64:" ++ s) "").0 same in
      let e : some s ≡ none =
        sym (strip_prefix-append "go-keyring-base64:" s)
        ∙ ap (strip_prefix "go-keyring-base64:") empty in
      absurd cc
]

active-google_accounts :
    (email : String) (existing : Option Fields)
    → get_string (google_accounts_of email existing) "active" ≡ email
unfolding google_accounts_of get_field
active-google_accounts email none = refl
active-google_accounts email (some existing) = refl

module _ (go : GoLib) (lib : SessionLib) (p : Paths) (f : Faults) where
  -- What the files of a written session hold.
  record IsWritten (decoded : Fields) (email : String) (files : SessionFiles) : Type 0 where
    tokens :
        (q : String)
        → member q (oauth_token_paths p) ≡ true
        → (Map.get q files ≡ lib.encode_json decoded) × (is_some (lib.encode_json decoded) ≡ true)
    existing : Option Fields
    google :
        (Map.get p.google_accounts files ≡ lib.encode_json (google_accounts_of email existing))
        × (is_some (lib.encode_json (google_accounts_of email existing)) ≡ true)

  write_session-IsWritten :
      (decoded inner : Fields) (email : String) (files : SessionFiles)
      → IsApart p
      → email == "" ≡ false
      → (write_session go lib p f decoded inner email files).0 ≡ true
      → IsWritten decoded email (write_session go lib p f decoded inner email files).1
  unfolding write_session write_google
  write_session-IsWritten decoded inner email files apart named h =
      let creds = lib.encode_json (credentials_of inner) in
      let payload = lib.encode_json decoded in
      let files1 = (write_each f (oauth_token_paths p) payload files).1 in
      let files2 = (write_json f p.oauth_credentials creds files1).1 in
      let existing = parsed_file go (read_file f files2 p.google_accounts) in
      let google = lib.encode_json (google_accounts_of email existing) in
      let done : (write_each f (oauth_token_paths p) payload files).0 ≡ true = ground arith in
      let stored : (write_json f p.oauth_credentials creds files1).0 ≡ true = ground arith in
      let last : (write_json f p.google_accounts google files2).0 ≡ true = ground arith in
      rw (done, stored, named)
        (record {
          tokens = λ q m.
              let (w, is) = write_each-written f (oauth_token_paths p) q payload files done m in
              let c =
                write_json-get f p.oauth_credentials q creds files1 (
                  member-ne p.oauth_credentials q (oauth_token_paths p) apart.credentials_token
                    m) in
              let g =
                write_json-get f p.google_accounts q google files2
                  (member-ne p.google_accounts q (oauth_token_paths p) apart.google_token m) in
              (g ∙ c ∙ w, is);
          existing = existing;
          google = write_json-written f p.google_accounts google files2 last;
        })

  or_restore-done :
      (snapshot : Snapshot) (r : Bool × SessionFiles)
      → (or_restore go lib p f snapshot r).0 ≡ true
      → (r.0 ≡ true) × (or_restore go lib p f snapshot r ≡ r)
  unfolding or_restore
  or_restore-done snapshot (true, files) h = (refl, refl)
  or_restore-done snapshot (false, files) h = absurd (ground arith)

  with_snapshot-IsWritten :
      (decoded inner : Fields) (email : String) (files : SessionFiles) (o : Option Snapshot)
      → IsApart p
      → email == "" ≡ false
      → (with_snapshot go lib p f decoded inner email files o).0 ≡ true
      → IsWritten decoded email (with_snapshot go lib p f decoded inner email files o).1
  unfolding with_snapshot
  with_snapshot-IsWritten decoded inner email files none apart named h = absurd (ground arith)
  with_snapshot-IsWritten decoded inner email files (some snapshot) apart named h =
      let (done, e) =
        or_restore-done snapshot (write_session go lib p f decoded inner email files) h in
      rw e (write_session-IsWritten decoded inner email files apart named done)

  write_inner-IsWritten :
      (decoded : Fields) (o : Option Fields) (email : String) (files : SessionFiles)
      → IsApart p
      → email == "" ≡ false
      → (write_inner go lib p f decoded o email files).0 ≡ true
      → IsWritten decoded email (write_inner go lib p f decoded o email files).1
  unfolding write_inner
  write_inner-IsWritten decoded none email files apart named h = absurd (ground arith)
  write_inner-IsWritten decoded (some inner) email files apart named h =
      if-cases (λ (r : Bool × SessionFiles). r.0 ≡ true → IsWritten decoded email r.1)
        (get_string inner "access_token" == "") (false, files) _ (λ t e. absurd (ground arith))
        (λ t. with_snapshot-IsWritten decoded inner email files _ apart named) h

  -- A token file with the session in it reads as a token of that session.
  token_file-read :
      (decoded : Fields) (email q : String) (files : SessionFiles)
      → IsReadable go lib f decoded
      → IsApart p
      → IsWritten decoded email files
      → member q (oauth_token_paths p) ≡ true
      → decode_token go (read_oauth_token_from_file lib f files q) ≡ some decoded
  unfolding read_oauth_token_from_file token_text read_file decode_token
  token_file-read decoded email q files r apart w m =
      let (held, is) = w.tokens q m in
      elim (Option-cases (lib.encode_json decoded)) [
        | inl e ↦ absurd (ground arith)
        | inr (payload, e) ↦
            let path : q == "" ≡ false = ground (arith, apart.no_empty, eq_iff q "") in
            rw
              (
                path,
                r.can_read q,
                held,
                e,
                r.encode-is_json decoded payload e,
                strip_prefix-append "go-keyring-base64:" (lib.encode_base64 payload),
                r.base64-encode payload,
                r.decode-encode payload e,
                keyring_prefix-append (lib.encode_base64 payload),
              )
              refl
      ]

  active-read :
      (decoded : Fields) (email : String) (files : SessionFiles)
      → IsReadable go lib f decoded
      → normalize_email go email ≡ email
      → IsWritten decoded email files
      → stored_active_email go p f files ≡ email
  unfolding stored_active_email read_file
  active-read decoded email files r normal w =
      let (held, is) = w.google in
      elim (Option-cases (lib.encode_json (google_accounts_of email w.existing))) [
        | inl e ↦ absurd (ground arith)
        | inr (payload, e) ↦
            let (parsed, u, active) =
              r.unmarshal-encode (google_accounts_of email w.existing) payload e in
            rw
              (
                stored_active_email,
                r.can_read p.google_accounts,
                held,
                e,
                u,
                active,
                active-google_accounts email w.existing,
                normal,
              )
              refl
      ]

-- A session that was written for an account is in every token file, where it reads as a token with the
-- same content, and google_accounts.json names the account as the active one. The token can be read, the
-- address is in its normal form, the paths are different ones, and the library reads back what it writes.
pub write_oauth_files-written :
    (go : GoLib) (lib : SessionLib) (p : Paths) (f : Faults) (token email : String)
    (files : SessionFiles) (decoded : Fields) (q : String)
    → decode_token go token ≡ some decoded
    → IsReadable go lib f decoded
    → IsApart p
    → email == "" ≡ false
    → normalize_email go email ≡ email
    → (write_oauth_files go lib p f token email files).0 ≡ true
    → member q (oauth_token_paths p) ≡ true
    → let files' = (write_oauth_files go lib p f token email files).1 in
      (stored_active_email go p f files' ≡ email)
      × (decode_token go (read_oauth_token_from_file lib f files' q) ≡ decode_token go token)
unfolding write_oauth_files write_decoded
write_oauth_files-written go lib p f token email files decoded q e r apart named normal h m =
    let w =
      write_inner-IsWritten go lib p f decoded (token_object (some decoded)) email files apart named
        (ap (λ o. (write_decoded go lib p f o email files).0) (sym e) ∙ h) in
    rw e (
      active-read go lib p f decoded email _ r normal w,
      token_file-read go lib p f decoded email q _ r apart w m,
    )
