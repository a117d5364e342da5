-- ===== src/Vault/Migrate/Rollback.antt =====
-- internal/app/vault.go: a migration that is taken back.
use agy_swap.Prelude.{
  String, ◌≡◌, refl, true, false, List, [], ◌∷◌, if◌then◌else◌, eq_iff, member, is_nodup, arith,
  Bool-cases, Option-cases, inl, inr,
}
use agy_swap.Prelude.Map
use agy_swap.Prelude.Map.{Map, get-insert, get-erase, get-empty}
use agy_swap.Value.{Account, Fields}
use agy_swap.GoLib.{GoLib}
use agy_swap.Accounts.{Accounts}
use agy_swap.Vault.{AccountVault}
use agy_swap.Vault.Secret.{secret_keys, restore_secret_fields}
use agy_swap.Vault.Secret.Restore.{get-restore}
use agy_swap.Vault.Migrate.{
  migrate_loop, account_or_end, restore_entry, restore_previous, AccountStore, finish, start,
  migrate_vault_accounts,
}
use agy_swap.Vault.Migrate.Steps.{field_in, field_back, CanGoBack, loop-CanGoBack, loop-IsQuiet}

field_in-restore_previous :
    (emails : List String) (previous : Map Fields) (m : Map Account) (email key : String)
    → is_nodup emails ≡ true
    → field_in (restore_previous emails previous m) email key
      ≡ (if member email emails then field_back m previous email key else field_in m email key)
unfolding restore_previous restore_entry
field_in-restore_previous [] previous m email key nodup = refl
field_in-restore_previous (x ∷ xs) previous m email key nodup =
    elim (Option-cases (Map.get x previous)) [
      | inl none_saved ↦
          rw none_saved
            (ground (arith, field_in-restore_previous xs previous m email key, eq_iff email x))
      | inr (saved, at) ↦ rw at (
          let new = restore_secret_fields (account_or_end (Map.get x m)) saved in
          ground (
            arith,
            at,
            field_in-restore_previous xs previous (Map.insert x new m) email key,
            get-insert x email new m,
            eq_iff email x,
            eq_iff x email,
          ))
    ]

-- A Save that fails leaves the secret fields of the accounts it was given.
pub record IsKeepingSecrets {T : Type 0} (store : AccountStore T) : Type 0 where
  pub kept :
      (t : T) (a : Accounts) (email key : String)
      → (store.save t a).0 ≡ false
      → member key secret_keys ≡ true
      → field_in (store.save t a).1.0.by_email email key ≡ field_in a.by_email email key

start-CanGoBack :
    (accounts : Accounts) → CanGoBack accounts.by_email accounts.order accounts.by_email Map.empty
start-CanGoBack accounts = record {
  back = λ email key secret. ground (arith, get-empty {V = Fields} email);
  fresh = λ email later. get-empty email;
}

field_back-kept :
    (m n : Map Account) (previous : Map Fields) (email key : String)
    → field_in m email key ≡ field_in n email key
    → member key secret_keys ≡ true
    → field_back m previous email key ≡ field_back n previous email key
field_back-kept m n previous email key h secret = elim (Option-cases (Map.get email previous)) [
  | inl none_saved ↦ ground (arith, h)
  | inr (saved, at) ↦ ground (
    arith,
    get-restore (account_or_end (Map.get email m)) (account_or_end (Map.get email n)) saved key
        secret,
  )
]

-- A migration that was not carried out, because nothing could be moved or because accounts.json could
-- not be saved, leaves every secret field of every listed account as it was. No email is listed twice,
-- and a Save that fails keeps the secret fields that it was given.
pub migrate_vault_accounts-rollback :
    {S T : Type 0} (go : GoLib) (v : AccountVault S) (store : AccountStore T) (accounts : Accounts)
    (s : S) (t : T) (email key : String)
    → IsKeepingSecrets store
    → is_nodup accounts.order ≡ true
    → (migrate_vault_accounts go v store accounts s t).done ≡ false
    → member email accounts.order ≡ true
    → member key secret_keys ≡ true
    → field_in (migrate_vault_accounts go v store accounts s t).accounts.by_email email key
      ≡ field_in accounts.by_email email key
unfolding migrate_vault_accounts finish
migrate_vault_accounts-rollback go v store accounts s t email key keeps nodup undone listed secret =
    let begun = start go v store accounts s in
    let m = migrate_loop go v accounts.order begun in
    let c =
      loop-CanGoBack go v accounts.by_email accounts.order begun nodup (start-CanGoBack accounts) in
    let q = loop-IsQuiet go v accounts.order begun (inr (λ e. get-empty e)) in
    let saving = store.save t (record accounts { by_email = m.by_email }) in
    elim (Bool-cases m.changed) [
      | inr same ↦ elim q [
        | inl changed ↦ absurd (ground arith)
        | inr quiet ↦ ground (arith, quiet email, c.back email key secret)
      ]
      | inl changed ↦ elim (Bool-cases saving.0) [
        | inl saved ↦ absurd (ground arith)
        | inr failed ↦ ground (
          arith,
          keeps.kept t (record accounts { by_email = m.by_email }) email key failed secret,
          field_in-restore_previous accounts.order m.previous saving.1.0.by_email email key nodup,
          field_back-kept saving.1.0.by_email m.by_email m.previous email key,
          c.back email key secret,
        )
      ]
    ]
