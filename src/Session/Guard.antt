-- ===== src/Session/Guard.antt =====
-- internal/app/session_guard.go: `reconcileActiveSession`, which runs before and after Antigravity does. It saves
-- tokens that Antigravity has renewed, and puts the session of the chosen account back.
-- The lock makes it one step. Marker files and the launcher of Antigravity are not modelled.
pub mod Untouched
use agy_swap.Prelude.{
  String, Bool, true, false, not, ◌&&◌, ◌||◌, List, [], ◌∷◌, ◌++◌, Option, none, some,
  if◌then◌else◌, ◌==◌, nat_eq,
}
use agy_swap.GoLib.{GoLib}
use agy_swap.Errors.{Result, ok, err}
use agy_swap.Value.{Account}
use agy_swap.Token.{has_oauth_session, should_harvest_token}
use agy_swap.Accounts
use agy_swap.Accounts.{Accounts}
use agy_swap.Vault.{AccountVault}
use agy_swap.Vault.Secret.{Saved, account_token, save_account_secret, delete_replaced_secrets}
use agy_swap.Vault.Migrate.{AccountStore}
use agy_swap.Session.{
  Paths, SessionLib, Faults, SessionFiles, used, surface_tokens, stored_active_email,
}
use agy_swap.Session.Writing.{write_oauth_files}
use agy_swap.Session.Switch.{CredentialBackend, Mode, Live}
use agy_swap.Session.Owner.{match_account_by_token, token_or_empty}

-- The accounts in memory, the vault, and the store of the accounts.
pub record Kept (S T : Type 0) : Type 0 where
  pub accounts : Accounts
  pub vault : S
  pub store : T

-- What the loop over the token files has found.
pub record Found (S T : Type 0) : Type 0 where
  pub owners : List String
  pub unsaved : Bool
  pub kept : Kept S T

abbrev pub if_any {ℓ} : {A : Type ℓ} → List String → A → A → A
if_any [] some_left none_left = none_left
if_any (_ ∷ _) some_left none_left = some_left

module _ {S T K : Type 0} (go : GoLib) (lib : SessionLib) (p : Paths) (f : Faults)
    (v : AccountVault S) (store : AccountStore T) (backend : CredentialBackend K)
    (mode : Mode) where
  save_harvest : Accounts → String → Saved S → T → Kept S T
  save_harvest accounts owner saved t =
      let (done, (accounts', t')) = store.save t (Accounts.set accounts owner saved.account) in
      record {
        accounts = accounts';
        vault =
            if done && not (saved.replaced == "")
            then delete_replaced_secrets v saved.vault (saved.replaced ∷ [])
            else saved.vault;
        store = t';
      }

  -- The token of the session replaces the saved one where it is the better one.
  harvest : String → String → Option Account → Kept S T → Kept S T
  unfolding save_harvest
  harvest owner token none k = k
  harvest owner token (some account) k =
      let (stored, s) = account_token go (some v) k.vault account in
      if should_harvest_token go (token_or_empty stored) token
      then save_harvest k.accounts owner (save_account_secret go (some v) s account token) k.store
      else record k { vault = s }

  -- One turn of the loop over the token files.
  unfoldable visit : String → Found S T → Found S T
  unfolding harvest
  visit token found =
      let k = found.kept in
      let (owner, s) = match_account_by_token go lib (some v) k.accounts token k.vault in
      let k' : Kept S T = record k { vault = s } in
      if owner == ""
      then record found { unsaved = found.unsaved || has_oauth_session go token; kept = k' }
      else record found {
        owners = found.owners ++ owner ∷ [];
        kept = harvest owner token (Accounts.get k.accounts owner) k';
      }

  unfoldable pub visit_each : List String → Found S T → Found S T
  unfolding visit
  visit_each [] found = found
  visit_each (token ∷ tokens) found = visit_each tokens (visit token found)

  first_owner : List String → String
  first_owner [] = ""
  first_owner (owner ∷ owners) = owner

  differs : String → List String → Bool
  differs token [] = false
  differs token (t ∷ tokens) = not (t == token) || differs token tokens

  -- The session of the chosen account, if it is not there already.
  sync_session : String → Result String → Live K → Live K
  unfolding differs
  sync_session email (err e) live = live
  sync_session email (ok token) live =
      let active = stored_active_email go p f live.files in
      let files = (write_oauth_files go lib p f token email live.files).1 in
      if token == ""
      then live
      else if not (lib.equal_fold active email) || differs token (surface_tokens lib p f live.files)
      then record {
        files = files;
        keyring = if mode.mirror then (backend.set live.keyring token).1 else live.keyring;
      }
      else live

  intended_session : String → Option Account → Kept S T → Live K → Live K × Kept S T
  unfolding sync_session
  intended_session email none k live = (live, k)
  intended_session email (some account) k live =
      let (token, s) = account_token go (some v) k.vault account in
      (sync_session email token live, record k { vault = s })

  after_visits : Found S T → Live K → Live K × Kept S T
  unfolding intended_session first_owner
  after_visits found live =
      let active = stored_active_email go p f live.files in
      let email = if active == "" then first_owner found.owners else active in
      if found.unsaved || email == ""
      then (live, found.kept)
      else intended_session email (Accounts.get found.kept.accounts email) found.kept live

  -- `load` is Store.Load; `skip` is the environment's AGY_SWAP_SKIP_SYNC, or a lock that is held.
  reconcile_loaded : List String → Result Accounts → S → T → Live K → Live K × Kept S T
  unfolding after_visits visit_each
  reconcile_loaded tokens (err e) s t live =
      (live, record { accounts = Accounts.new_accounts; vault = s; store = t })
  reconcile_loaded tokens (ok accounts) s t live =
      let k : Kept S T = record { accounts = accounts; vault = s; store = t } in
      if nat_eq (Accounts.len accounts) 0
      then (live, k)
      else after_visits (visit_each tokens (record { owners = []; unsaved = false; kept = k })) live

  unfoldable pub reconcile_active_session :
      Bool → (T → Result Accounts × T) → S → T → Live K → Live K × Kept S T
  unfolding reconcile_loaded
  reconcile_active_session skip load s t live =
      let tokens = used (surface_tokens lib p f live.files) in
      let unchanged : Kept S T = record {
        accounts = Accounts.new_accounts;
        vault = s;
        store = t;
      } in
      let (loaded, t') = load t in
      if_any (if skip then [] else tokens) (reconcile_loaded tokens loaded s t' live)
        (live, unchanged)
