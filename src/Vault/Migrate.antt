-- ===== src/Vault/Migrate.antt =====
-- internal/app/vault.go: `migrateVaultAccounts`, which moves the tokens of older versions to the
-- references of this one. The accounts are Go maps that are changed in place: they are part of the
-- state, as is `previous`, what their secret fields were.
pub mod Steps
pub mod Rollback
pub mod Saved
use agy_swap.Prelude.{
  String, Bool, true, false, not, ◌&&◌, ◌||◌, List, [], ◌∷◌, ◌++◌, Option, none, some,
  if◌then◌else◌, ◌==◌,
}
use agy_swap.Prelude.Map
use agy_swap.Prelude.Map.{Map}
use agy_swap.Value.{Account, Fields, text, end, get_string, set_field, delete_field}
use agy_swap.GoLib.{GoLib}
use agy_swap.Token.{hash_token}
use agy_swap.Accounts.{Accounts}
use agy_swap.Errors.{Result, ok, err}
use agy_swap.Vault.{AccountVault}
use agy_swap.Vault.Secret.{
  account_secret_ref, account_token, remember_token_expiry, save_account_secret,
  delete_replaced_secrets, capture_secret_fields, restore_secret_fields,
}

-- The variables of the loop.
pub record Migration (S : Type 0) : Type 0 where
  pub by_email : Map Account
  pub vault : S
  pub previous : Map Fields
  pub replaced : List String
  pub changed : Bool

-- replaced = append(replaced, ref)
abbrev add_replaced : Bool → String → List String → List String
add_replaced wanted ref replaced = if wanted then replaced ++ ref ∷ [] else replaced

module _ {S : Type 0} (go : GoLib) (v : AccountVault S) where
  -- The account with its token under the new reference.
  moved : Account → String → String → Account
  moved account ref token = delete_field "token_data" (
      remember_token_expiry go
        (set_field "token_hash" (text (hash_token go token))
          (set_field "secret_ref" (text ref) account))
        token)

  copied : String → Account → String → String → String → Bool × S → Migration S → Migration S
  unfolding moved
  copied email account old_ref ref token (false, s) m = record m { vault = s }
  copied email account old_ref ref token (true, s) m = record {
    by_email = Map.insert email (moved account ref token) m.by_email;
    vault = s;
    previous = Map.insert email (capture_secret_fields account) m.previous;
    replaced = add_replaced (not (old_ref == ref)) old_ref m.replaced;
    changed = true;
  }

  -- A token under an old reference.
  relocate : String → Account → String → String → Result String × S → Migration S → Migration S
  unfolding copied
  relocate email account old_ref ref (err e, s) m = record m { vault = s }
  relocate email account old_ref ref (ok token, s) m =
      if token == ""
      then record m { vault = s }
      else copied email account old_ref ref token (v.set s ref token) m

  -- A token in the account itself.
  adopt : String → Account → String → Migration S → Migration S
  adopt email account token m =
      let saved = save_account_secret go (some v) m.vault account token in
      let captured = capture_secret_fields account in
      if saved.stored
      then record {
        by_email = Map.insert email saved.account m.by_email;
        vault = saved.vault;
        previous = Map.insert email captured m.previous;
        replaced = add_replaced (not (saved.replaced == "")) saved.replaced m.replaced;
        changed = true;
      }
      else record m {
        by_email = Map.insert email (restore_secret_fields saved.account captured) m.by_email;
        vault = saved.vault;
        previous = Map.erase email (Map.insert email captured m.previous);
      }

  migrate_found : String → Account → Migration S → Migration S
  unfolding relocate adopt
  migrate_found email account m =
      let ref = account_secret_ref go email in
      let old_ref = get_string account "secret_ref" in
      if not (old_ref == "") && (not (old_ref == ref) || get_string account "token_hash" == "")
      then relocate email account old_ref ref (account_token go (some v) m.vault account) m
      else if old_ref == ""
      then (let token = get_string account "token_data" in
          if token == "" then m else adopt email account token m)
      else m

  -- One turn of the loop. A missing account reads as an empty map and is passed over.
  migrate_entry : String → Option Account → Migration S → Migration S
  unfolding migrate_found
  migrate_entry email none m = m
  migrate_entry email (some account) m = migrate_found email account m

  unfoldable pub migrate_loop : List String → Migration S → Migration S
  unfolding migrate_entry
  migrate_loop [] m = m
  migrate_loop (email ∷ emails) m =
      migrate_loop emails (migrate_entry email (Map.get email m.by_email) m)

abbrev account_or_end : Option Account → Account
account_or_end none = end
account_or_end (some account) = account

restore_entry : String → Option Fields → Map Account → Map Account
restore_entry email none by_email = by_email
restore_entry email (some saved) by_email =
    Map.insert email (restore_secret_fields (account_or_end (Map.get email by_email)) saved)
      by_email

-- for email, saved := range previous; `emails` are the keys of the map.
unfoldable pub restore_previous : List String → Map Fields → Map Account → Map Account
unfolding restore_entry
restore_previous [] previous by_email = by_email
restore_previous (email ∷ emails) previous by_email =
    restore_previous emails previous (restore_entry email (Map.get email previous) by_email)

-- The store: a Save that changes the accounts it is given, and says whether it was done.
pub record AccountStore (T : Type 0) : Type 0 where
  pub save : T → Accounts → Bool × (Accounts × T)

pub record Migrated (S T : Type 0) : Type 0 where
  pub accounts : Accounts
  pub vault : S
  pub store : T
  pub done : Bool

module _ {S T : Type 0} (go : GoLib) (v : AccountVault S) (store : AccountStore T) where
  finish : Accounts → Migration S → T → Migrated S T
  finish accounts m t =
      let (saved, (accounts', t')) = store.save t (record accounts { by_email = m.by_email }) in
      if saved
      then record {
        accounts = accounts';
        vault = delete_replaced_secrets v m.vault m.replaced;
        store = t';
        done = true;
      }
      else record {
        accounts = record accounts' {
          by_email = restore_previous accounts.order m.previous accounts'.by_email;
        };
        vault = m.vault;
        store = t';
        done = false;
      }

  abbrev pub start : Accounts → S → Migration S
  start accounts s = record {
    by_email = accounts.by_email;
    vault = s;
    previous = Map.empty;
    replaced = [];
    changed = false;
  }

  unfoldable pub migrate_vault_accounts : Accounts → S → T → Migrated S T
  unfolding finish
  migrate_vault_accounts accounts s t =
      let m = migrate_loop go v accounts.order (start accounts s) in
      if m.changed then finish accounts m t else record {
        accounts = record accounts { by_email = m.by_email };
        vault = m.vault;
        store = t;
        done = false;
      }
