-- ===== src/Vault/Migrate/Saved.antt =====
-- internal/app/vault.go, internal/app/store.go: a migration whose accounts are saved to accounts.json.
use agy_swap.Prelude.{
  String, Bool, true, false, not, ◌||◌, List, [], ◌∷◌, Option, some, ◌≡◌, refl, ◌∙◌, ap, inl, inr,
  ◌==◌, arith, eq_iff, member, is_nodup, is_some, Option-cases, Bool-cases, if-cases,
}
use agy_swap.Prelude.Map
use agy_swap.Prelude.Map.{Map, get-insert}
use agy_swap.Value.{Account, get_field, first_string}
use agy_swap.GoLib.{GoLib}
use agy_swap.Email.{normalize_email}
use agy_swap.Accounts.{Accounts}
use agy_swap.Errors.{GoError, Result-cases}
use agy_swap.Store.Validate.{validate_account, validate_keys, validate_accounts, refused_account}
use agy_swap.Store.Validate.Fields.{
  is_checked_field, fill_names-field, validate_account-field, refused_account-field,
}
use agy_swap.Store.Disk.{Disk, Fate, save, save_unlocked, file_error}
use agy_swap.Store.Disk.Saving.{save_unlocked-by_email}
use agy_swap.Vault.{AccountVault}
use agy_swap.Vault.Secret.{secret_keys}
use agy_swap.Vault.Migrate.{AccountStore, migrate_vault_accounts}
use agy_swap.Vault.Migrate.Steps.{field_in}
use agy_swap.Vault.Migrate.Rollback.{IsKeepingSecrets, migrate_vault_accounts-rollback}

-- Store.Save as the migration calls it.
abbrev pub disk_store :
    (Disk → Bool × Disk) → Bool → GoLib → (Accounts → Option String) → Fate → AccountStore Disk
disk_store recover can_lock go encode fate = record {
  save =
      λ d a. (let (e, rest) = save recover can_lock go encode fate a d in (not (is_some e), rest));
}

field_in-insert :
    (m : Map Account) (j email key : String) (old new : Account)
    → Map.get j m ≡ some old
    → get_field key new ≡ get_field key old
    → field_in (Map.insert j new m) email key ≡ field_in m email key
field_in-insert m j email key old new at same = elim (Bool-cases (j == email)) [
  | inl here ↦
      let e : j ≡ email = (eq_iff j email).0 here in
      ground (arith, get-insert j email new m, here, e, at, same)
  | inr other ↦ ground (arith, get-insert j email new m, other)
]

-- Whether the accounts are accepted or refused, a field that is not checked stays as it is.
validate_keys-field :
    (go : GoLib) (keys seen : List String) (m : Map Account) (email key : String)
    → is_checked_field key ≡ false
    → field_in (validate_keys go keys seen m).1 email key ≡ field_in m email key
unfolding validate_keys
validate_keys-field go [] seen m email key ne = refl
validate_keys-field go (j ∷ keys) seen m email key ne = elim (Option-cases (Map.get j m)) [
  | inl absent ↦ rw (validate_keys, absent) refl
  | inr (account, at) ↦
      let its = normalize_email go (first_string (get_field "email" account) j) in
      elim (Bool-cases (its == "")) [
        | inl blank ↦ rw (validate_keys, at, blank) refl
        | inr full ↦ elim (Bool-cases (member its seen)) [
          | inl twice ↦ rw (validate_keys, at, full, twice) refl
          | inr fresh ↦ elim (Result-cases (validate_account go its account)) [
            | inl (e, refused) ↦
                rw (validate_keys, at, full, fresh, refused)
                  (field_in-insert m j email key account (refused_account go its account) at
                    (refused_account-field go its account key ne))
            | inr (new, valid) ↦
                rw (validate_keys, at, full, fresh, valid)
                  (validate_keys-field go keys (its ∷ seen) (Map.insert j new m) email key ne
                    ∙ field_in-insert m j email key account new at (
                        validate_account-field go its account new key valid (ground arith)
                        ∙ fill_names-field its account key (ground arith)))
          ]
        ]
      ]
]

by_name :
    (key name : String)
    → is_checked_field name ≡ false
    → key == name ≡ true
    → is_checked_field key ≡ false
by_name key name h e = ap is_checked_field ((eq_iff key name).0 e) ∙ h

secret_unchecked : (key : String) → member key secret_keys ≡ true → is_checked_field key ≡ false
secret_unchecked key h = ground (
  arith,
  h,
  by_name key "secret_ref" refl,
  by_name key "token_hash" refl,
  by_name key "refresh_hash" refl,
  by_name key "token_data" refl,
  by_name key "access_expires_at" refl,
)

disk_store-IsKeepingSecrets :
    (recover : Disk → Bool × Disk) (can_lock : Bool) (go : GoLib)
    (encode : Accounts → Option String) (fate : Fate)
    → IsKeepingSecrets (disk_store recover can_lock go encode fate)
unfolding save validate_accounts
disk_store-IsKeepingSecrets recover can_lock go encode fate = record {
  kept = λ d a email key failed secret.
      let (recovered, d') = recover d in
      if-cases
        (λ (r : Option GoError × (Accounts × Disk)).
          field_in r.1.0.by_email email key ≡ field_in a.by_email email key)
        (not recovered || not can_lock) (some file_error, (a, d'))
        (save_unlocked go encode fate a d') (λ refused. refl)
        (λ locked.
          ap (λ m. field_in m email key) (save_unlocked-by_email go encode fate a d')
          ∙ validate_keys-field go a.order [] a.by_email email key (secret_unchecked key secret));
}

-- A migration that was not carried out, because nothing could be moved or because accounts.json could not be saved
-- (the restore journal, the lock, the checks, the encoder, another process or the file system), leaves every secret
-- field of every listed account as it was. No email is listed twice.
pub migrate_vault_accounts-unsaved :
    {S : Type 0} (go : GoLib) (v : AccountVault S) (recover : Disk → Bool × Disk) (can_lock : Bool)
    (encode : Accounts → Option String) (fate : Fate) (accounts : Accounts) (s : S) (d : Disk)
    (email key : String)
    → is_nodup accounts.order ≡ true
    → (migrate_vault_accounts go v (disk_store recover can_lock go encode fate) accounts s d).done
      ≡ false
    → member email accounts.order ≡ true
    → member key secret_keys ≡ true
    → field_in
        (migrate_vault_accounts go v
          (disk_store recover can_lock go encode fate)
          accounts
          s
          d).accounts.by_email
        email
        key
      ≡ field_in accounts.by_email email key
migrate_vault_accounts-unsaved go v recover can_lock encode fate accounts s d email key =
    migrate_vault_accounts-rollback go v (disk_store recover can_lock go encode fate) accounts s d
      email key (disk_store-IsKeepingSecrets recover can_lock go encode fate)
