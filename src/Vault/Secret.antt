-- ===== src/Vault/Secret.antt =====
-- internal/app/vault.go: where the token of an account is kept. An account holds a reference into the
-- vault, `secret_ref`, or, where no vault takes the token, the token itself, `token_data`. A Go map is
-- shared by reference: the functions return the account that they change.
pub mod Survival
pub mod Restore
use Prim.Native.String.{◌++◌}
use agy_swap.Prelude.{
  String, Bool, true, false, not, ◌&&◌, ◌||◌, List, [], ◌∷◌, Option, none, some, if◌then◌else◌,
  ◌==◌,
}
use agy_swap.Prelude.Text.{trim_space}
use agy_swap.Value.{
  Value, Account, Fields, text, end, get_field, set_field, delete_field, get_string,
}
use agy_swap.GoLib.{GoLib}
use agy_swap.Clock.{Time, iso_time}
use agy_swap.Email.{normalize_email}
use agy_swap.Token.{decode_token, token_object, token_expiry, token_refresh_token, hash_token}
use agy_swap.Errors.{GoError, plain, Result, ok, err}
use agy_swap.Vault.{AccountVault}

unfoldable pub account_secret_ref : GoLib → String → String
account_secret_ref go email =
    let e = normalize_email go email in if e == "" then "" else "account:" ++ e

set_expiry : GoLib → Account → Option Time → Account
set_expiry go account none = delete_field "access_expires_at" account
set_expiry go account (some expiry) =
    set_field "access_expires_at" (text (iso_time go expiry)) account

-- the part of `rememberTokenExpiry` after `refresh_hash`
remember_expiry : GoLib → Account → Option Fields → Account
unfolding set_expiry
remember_expiry go account none = delete_field "access_expires_at" account
remember_expiry go account (some inner) = set_expiry go account (token_expiry go inner)

unfoldable pub remember_token_expiry : GoLib → Account → String → Account
unfolding remember_expiry
remember_token_expiry go account token =
    let refresh = token_refresh_token go token in
    remember_expiry go
      (if refresh == ""
        then delete_field "refresh_hash" account
        else set_field "refresh_hash" (text (hash_token go refresh)) account)
      (token_object (decode_token go token))

-- A Get of the vault, read as `ok && token != ""`.
abbrev usable : Option String → Option String
usable none = none
usable (some token) = if token == "" then none else some token

module _ {S : Type 0} (go : GoLib) where
  -- The second try, for a reference with the suffix of an older version.
  second_ref : AccountVault S → S → String → String → Result String × S
  second_ref v s ref det_ref =
      let missing : GoError = plain ("secret vault entry " ++ go.quote ref ++ " is unavailable") in
      if not (det_ref == "") && not (det_ref == ref)
      then (let (token, s') = v.get s det_ref in
          elim (usable token) [ none ↦ (err missing, s') | some t ↦ (ok t, s') ])
      else (err missing, s)

  token_of_ref : Option (AccountVault S) → S → Account → String → Result String × S
  unfolding second_ref
  token_of_ref none s account ref = (err (plain "account secret vault is unavailable"), s)
  token_of_ref (some v) s account ref =
      let (token, s') = v.get s ref in
      elim (usable token) [
        | none ↦ second_ref v s' ref (account_secret_ref go (get_string account "email"))
        | some t ↦ (ok t, s')
      ]

  unfoldable pub account_token : Option (AccountVault S) → S → Account → Result String × S
  unfolding token_of_ref
  account_token vault s account =
      let ref = get_string account "secret_ref" in
      if ref == ""
      then (let token = get_string account "token_data" in
          if token == "" then (err (plain "account has no saved token"), s) else (ok token, s))
      else token_of_ref vault s account ref

unfoldable pub keep_in_file : GoLib → Account → String → Account
keep_in_file go account token =
    remember_token_expiry go
      (set_field "token_hash" (text (hash_token go token))
        (set_field "token_data" (text token) account))
      token

pub record Saved (S : Type 0) : Type 0 where
  pub account : Account
  pub vault : S
  pub replaced : String  -- the vault entry to delete once accounts.json is saved, or ""
  pub stored : Bool

module _ {S : Type 0} (go : GoLib) where
  store_in_vault : AccountVault S → S → Account → String → String → Saved S
  unfolding keep_in_file
  store_in_vault v s account email token =
      let old_ref = get_string account "secret_ref" in
      let ref = account_secret_ref go email in
      let (done, s') = v.set s ref token in
      if done
      then record {
        account = delete_field "token_data" (
            remember_token_expiry go
              (set_field "token_hash" (text (hash_token go token))
                (set_field "secret_ref" (text ref) account))
              token);
        vault = s';
        replaced = if not (old_ref == "") && not (old_ref == ref) then old_ref else "";
        stored = true;
      }
      else record {
        account = delete_field "secret_ref" (keep_in_file go account token);
        vault = s';
        replaced = "";
        stored = false;
      }

  save_trimmed : Option (AccountVault S) → S → Account → String → Saved S
  unfolding keep_in_file store_in_vault
  save_trimmed vault s account token =
      let email = get_string account "email" in
      let unsaved : Saved S = record {
        account =
            delete_field "secret_ref"
              (if token == "" then account else keep_in_file go account token);
        vault = s;
        replaced = "";
        stored = false;
      } in
      elim vault [
        | none ↦ unsaved
        | some v ↦
            (if email == "" || token == "" then unsaved else store_in_vault v s account email token)
      ]

  unfoldable pub save_account_secret : Option (AccountVault S) → S → Account → String → Saved S
  unfolding save_trimmed
  save_account_secret vault s account token = save_trimmed vault s account (trim_space token)

-- the vault's part of `deleteReplacedSecrets`
unfoldable pub delete_replaced_secrets : {S : Type 0} → AccountVault S → S → List String → S
delete_replaced_secrets v s [] = s
delete_replaced_secrets v s (ref ∷ refs) =
    let trimmed = trim_space ref in
    delete_replaced_secrets v (if trimmed == "" then s else (v.delete s trimmed).1) refs

-- The fields that are captured.
abbrev pub secret_keys : List String
secret_keys = "secret_ref" ∷ "token_hash" ∷ "refresh_hash" ∷ "token_data" ∷ "access_expires_at" ∷ []

-- The fields that are restored, a list of its own in the code.
abbrev pub restored_keys : List String
restored_keys =
    "secret_ref" ∷ "token_hash" ∷ "refresh_hash" ∷ "token_data" ∷ "access_expires_at" ∷ []

capture_key : String → Option Value → Fields → Fields
capture_key key none saved = saved
capture_key key (some value) saved = set_field key value saved

capture_keys : List String → Account → Fields
unfolding capture_key
capture_keys [] account = end
capture_keys (key ∷ keys) account =
    capture_key key (get_field key account) (capture_keys keys account)

unfoldable pub capture_secret_fields : Account → Fields
unfolding capture_keys
capture_secret_fields = capture_keys secret_keys

restore_key : String → Option Value → Account → Account
restore_key key none account = delete_field key account
restore_key key (some value) account = set_field key value account

unfoldable pub restore_keys : List String → Account → Fields → Account
unfolding restore_key
restore_keys [] account saved = account
restore_keys (key ∷ keys) account saved =
    restore_keys keys (restore_key key (get_field key saved) account) saved

unfoldable pub restore_secret_fields : Account → Fields → Account
unfolding restore_keys
restore_secret_fields account saved = restore_keys restored_keys account saved
