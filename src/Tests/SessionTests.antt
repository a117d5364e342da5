-- ===== src/Tests/SessionTests.antt =====
-- The session of Antigravity: files in a map, and a credential store that holds one token.
use agy_swap.Prelude.{
  eq_refl, ℕ, String, ◌≡◌, refl, true, false, [], ◌∷◌, none, some, if◌then◌else◌, ◌==◌, member,
  arith,
}
use agy_swap.Prelude.Map
use agy_swap.Prelude.Map.{Map, map_laws, get-insert, get-empty}
use agy_swap.Prelude.Text.{trim_space, strip_prefix, split}
use agy_swap.Value.{Account, Fields, field, end, text, object, get_string, get_field}
use agy_swap.GoLib.{GoLib}
use agy_swap.Email.{normalize_email, clean_text, is_email}
use agy_swap.Errors.{ok, ok-inj}
use agy_swap.Files.{written, not_replaced}
use agy_swap.Token.{
  decode_token, token_refresh_token, hash_token, extract_email_hint, has_oauth_session,
  decode_jwt_claims,
}
use agy_swap.Accounts
use agy_swap.Accounts.{Accounts}
use agy_swap.Vault.{AccountVault}
use agy_swap.Vault.Secret.{account_token}
use agy_swap.Vault.Migrate.{AccountStore}
use agy_swap.Session.{
  Paths, SessionLib, Faults, SessionFiles, oauth_token_paths, session_file_paths, used,
  read_oauth_token_from_file, surface_tokens, stored_active_email,
}
use agy_swap.Session.Writing.{write_oauth_files}
use agy_swap.Session.Writing.Rollback.{IsPlaced, IsUndoing, SameFiles, write_oauth_files-rollback}
use agy_swap.Session.Writing.Written.{IsReadable, IsApart, write_oauth_files-written}
use agy_swap.Session.Switch.{
  CredentialBackend, Mode, Live, apply_unlocked, clear_unlocked, current, token_matches_email,
  prepared_token,
}
use agy_swap.Session.Switch.Failed.{IsBackend, IsKept, apply_unlocked-failed}
use agy_swap.Session.Switch.Cleared.{IsRemovable, clear_unlocked-done}
use agy_swap.Session.Owner.{match_account_by_token, local_active_email}
use agy_swap.Session.Owner.Saved.{IsOwner, match_account_by_token-IsOwner}
use agy_swap.Session.Guard.{Found, visit_each, reconcile_active_session}
use agy_swap.Session.Guard.Untouched.{reconcile_active_session-unsaved}
use agy_swap.Tests.Library as Toy

abbrev session : Fields
session = field "token" (object (field "access_token" (text "t") end)) end

abbrev lib_go : GoLib
lib_go = record Toy.go {
  decode_object = λ s. some session;
  unmarshal_object = λ s. some (field "active" (text s) end);
  base64 = λ s. some s;
}

abbrev lib : SessionLib
lib = record {
  is_json = λ s. true;
  encode_base64 = λ s. s;
  encode_json = λ m. some (get_string m "active");
  equal_fold = λ s t. s == t;
}

abbrev paths : Paths
paths = record {
  oauth_token = "cli";
  ide_oauth_token = "ide";
  jetski_token = "";
  oauth_credentials = "creds";
  google_accounts = "google";
}

abbrev fine : Faults
fine = record {
  can_read = λ path. true;
  write = λ path. written;
  restore = λ path. written;
  can_remove = λ path. true;
}

-- Nothing can be written over the credentials.
abbrev broken : Faults
broken = record fine { write = λ path. if path == "creds" then not_replaced else written }

paths-IsPlaced : IsPlaced paths
paths-IsPlaced = record { credentials = refl; google = refl }

broken-IsUndoing : IsUndoing broken
broken-IsUndoing = record { can_restore = λ path. refl; can_remove = λ path. refl }

abbrev files : SessionFiles
files = Map.insert "cli" "old" Map.empty

write_failed : (write_oauth_files lib_go lib paths broken "t" "a@b.c" files).0 ≡ false
unfolding write_oauth_files decode_token get_field strip_prefix oauth_token_paths session_file_paths
write_failed = refl

write_oauth_files-rollback_example :
    SameFiles (write_oauth_files lib_go lib paths broken "t" "a@b.c" files).1 files
write_oauth_files-rollback_example =
    write_oauth_files-rollback lib_go lib paths broken "t" "a@b.c" files paths-IsPlaced
      broken-IsUndoing write_failed

session-IsReadable : IsReadable lib_go lib fine session
unfolding get_field
session-IsReadable = record {
  decode-encode = λ payload e. refl;
  unmarshal-encode = λ m payload e. (field "active" (text payload) end, refl, ground arith);
  encode-is_json = λ m payload e. refl;
  base64-encode = λ s. refl;
  can_read = λ path. refl;
}

paths-IsApart : IsApart paths
unfolding oauth_token_paths
paths-IsApart = record {
  credentials_token = refl;
  google_token = refl;
  google_path = refl;
  no_empty = refl;
}

token_decoded : decode_token lib_go "t" ≡ some session
unfolding decode_token strip_prefix
token_decoded = refl

address_normal : normalize_email lib_go "a@b.c" ≡ "a@b.c"
unfolding normalize_email clean_text is_email trim_space
address_normal = refl

token_path : member "ide" (oauth_token_paths paths) ≡ true
unfolding oauth_token_paths
token_path = refl

write_done : (write_oauth_files lib_go lib paths fine "t" "a@b.c" files).0 ≡ true
unfolding write_oauth_files decode_token get_field strip_prefix oauth_token_paths session_file_paths
write_done = refl

write_oauth_files-written_example :
    (stored_active_email lib_go paths fine
        (write_oauth_files lib_go lib paths fine "t" "a@b.c" files).1
      ≡ "a@b.c")
    × (decode_token lib_go (
          read_oauth_token_from_file lib fine
            (write_oauth_files lib_go lib paths fine "t" "a@b.c" files).1
            "ide")
        ≡ decode_token lib_go "t")
write_oauth_files-written_example =
    write_oauth_files-written lib_go lib paths fine "t" "a@b.c" files session "ide" token_decoded
      session-IsReadable paths-IsApart refl address_normal write_done token_path

-- A credential store that holds one token.
abbrev one_token : CredentialBackend String
one_token = record {
  get = λ k. k;
  set = λ k token. if token == "" then (false, k) else (true, token);
  delete = λ k. (true, "");
}

one_token-IsBackend : IsBackend one_token ""
one_token-IsBackend = record {
  get-set_failed = λ k token t h. ground arith;
  put_back = λ k h. absurd (ground (arith, eq_refl ""));
  get-delete = λ k. refl;
}

t_itself : trim_space "t" ≡ "t"
unfolding trim_space
t_itself = refl

t_trimmed :
    (prepared : String) → prepared_token "t" none ≡ ok prepared → trim_space prepared ≡ prepared
t_trimmed prepared e = cc (ok-inj "t" prepared e, t_itself)

abbrev in_store : Mode
in_store = record { file_store = false; mirror = false; prepare = none; headless = false }

abbrev live : Live String
live = record { files = files; keyring = "old" }

-- Nobody is signed in to the credential store.
abbrev signed_out : Live String
signed_out = record live { keyring = "" }

apply_failed :
    (apply_unlocked lib_go lib paths broken one_token in_store "t" "a@b.c" signed_out).0 ≡ false
unfolding apply_unlocked write_oauth_files decode_token get_field strip_prefix oauth_token_paths
    session_file_paths normalize_email clean_text is_email trim_space token_matches_email
    extract_email_hint decode_jwt_claims split
apply_failed = refl

apply_unlocked-failed_example :
    IsKept one_token files ""
      (apply_unlocked lib_go lib paths broken one_token in_store "t" "a@b.c" signed_out).1
apply_unlocked-failed_example =
    apply_unlocked-failed lib_go lib paths broken one_token in_store "t" "a@b.c" signed_out
      paths-IsPlaced broken-IsUndoing one_token-IsBackend t_trimmed apply_failed

fine-IsRemovable : IsRemovable fine
fine-IsRemovable = record { can_remove = λ path. refl }

clear_unlocked-done_example :
    ((clear_unlocked lib_go lib paths fine one_token in_store live).0 ≡ true)
    × (current lib_go lib paths fine one_token in_store
          (clear_unlocked lib_go lib paths fine one_token in_store live).1
        ≡ "")
clear_unlocked-done_example =
    clear_unlocked-done lib_go lib paths fine one_token in_store live fine-IsRemovable (λ k. refl)

-- A vault that holds nothing.
abbrev no_vault : AccountVault ℕ
no_vault = record {
  get = λ s ref. (none, s);
  set = λ s ref token. (false, s);
  delete = λ s ref. (true, s);
}

abbrev saved : Account
saved = field "email" (text "a@b.c") (field "token_data" (text "saved") end)

abbrev accounts : Accounts
accounts = record {
  order = "a@b.c" ∷ [];
  by_email = Map.insert "a@b.c" saved Map.empty;
  revision = 0;
  revision_hash = "";
}

match_account_by_token-IsOwner_example :
    IsOwner lib_go lib
      (some no_vault)
      accounts
      (trim_space "saved")
      (match_account_by_token lib_go lib (some no_vault) accounts "saved" 0).0
match_account_by_token-IsOwner_example =
    match_account_by_token-IsOwner lib_go lib (some no_vault) accounts "saved" 0

abbrev memory : AccountStore ℕ
memory = record { save = λ t a. (true, (a, t)) }

abbrev nothing_found : Found ℕ ℕ
nothing_found = record {
  owners = [];
  unsaved = false;
  kept = record { accounts = accounts; vault = 0; store = 0 };
}

one_surface : used (surface_tokens lib paths fine files) ≡ "go-keyring-base64:old" ∷ []
unfolding used surface_tokens oauth_token_paths
one_surface =
    rw
      (
        get-insert "cli" "cli" "old" (Map.empty {V = String}),
        get-insert "cli" "ide" "old" (Map.empty {V = String}),
        get-empty {V = String} "ide",
      )
      refl

foreign :
    (match_account_by_token lib_go lib (some no_vault) accounts "go-keyring-base64:old" 0).0 ≡ ""
unfolding match_account_by_token local_active_email Accounts.get Accounts.len token_refresh_token
    hash_token extract_email_hint decode_jwt_claims account_token decode_token get_field
    strip_prefix trim_space split
foreign = rw (get-insert "a@b.c" "a@b.c" saved (Map.empty {V = Account})) refl

has_session : has_oauth_session lib_go "go-keyring-base64:old" ≡ true
unfolding has_oauth_session decode_token get_field strip_prefix trim_space
has_session = refl

reconcile_active_session-unsaved_example :
    (reconcile_active_session lib_go lib paths fine no_vault memory one_token in_store false
      (λ t. (ok accounts, t))
      0
      0
      live).0
    ≡ live
unfolding visit_each
reconcile_active_session-unsaved_example =
    reconcile_active_session-unsaved lib_go lib paths fine no_vault memory one_token in_store false
      (λ t. (ok accounts, t)) 0 0 live [] [] "go-keyring-base64:old" accounts one_surface refl
      foreign has_session
