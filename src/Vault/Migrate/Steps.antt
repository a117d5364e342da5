-- ===== src/Vault/Migrate/Steps.antt =====
-- internal/app/vault.go: what the loop over the accounts keeps, so that a migration can be taken back.
use agy_swap.Prelude.{
  String, ◌≡◌, ◌⊎◌, refl, Bool, true, false, not, List, [], ◌∷◌, Option, none, some, ◌==◌, eq_iff,
  eq_refl, member, is_nodup, arith, Bool-cases, inl, inr, ◌&&◌, ◌||◌,
}
use agy_swap.Prelude.Map
use agy_swap.Prelude.Map.{Map, get-insert, get-erase, get-empty}
use agy_swap.Value.{Value, Account, Fields, get_field, get_string}
use agy_swap.GoLib.{GoLib}
use agy_swap.Errors.{Result, ok, err}
use agy_swap.Vault.{AccountVault}
use agy_swap.Vault.Secret.{
  secret_keys, account_secret_ref, account_token, save_account_secret, capture_secret_fields,
  restore_secret_fields,
}
use agy_swap.Vault.Secret.Restore.{restore-capture}
use agy_swap.Vault.Migrate.{
  Migration, copied, moved, relocate, adopt, migrate_found, migrate_entry, migrate_loop,
  account_or_end,
}

-- The field of an account, none if there is no such account.
abbrev pub field_in : Map Account → String → String → Option Value
field_in by_email email key = elim (Map.get email by_email) [
  | none ↦ none
  | some account ↦ get_field key account
]

-- The field once what was captured of the account, if anything, is restored.
abbrev pub field_back : Map Account → Map Fields → String → String → Option Value
field_back by_email previous email key = elim (Map.get email previous) [
  | none ↦ field_in by_email email key
  | some saved ↦
      get_field key (restore_secret_fields (account_or_end (Map.get email by_email)) saved)
]

-- What the loop keeps true for the emails it has not come to yet, `rest`: every secret field can be
-- brought back, and nothing is captured of an account of `rest`.
pub record CanGoBack (before : Map Account) (rest : List String) (by_email : Map Account)
    (previous : Map Fields) : Type 0 where
  pub back :
      (email key : String)
      → member key secret_keys ≡ true
      → field_back by_email previous email key ≡ field_in before email key
  pub fresh : (email : String) → member email rest ≡ true → Map.get email previous ≡ none

captured-CanGoBack :
    (before : Map Account) (email : String) (rest : List String) (by_email : Map Account)
    (previous : Map Fields) (account new : Account)
    → member email rest ≡ false
    → Map.get email by_email ≡ some account
    → CanGoBack before (email ∷ rest) by_email previous
    → CanGoBack before rest
        (Map.insert email new by_email)
        (Map.insert email (capture_secret_fields account) previous)
captured-CanGoBack before email rest by_email previous account new out at c = record {
  back = λ j key secret. ground (
    arith,
    c.back j key secret,
    c.fresh email,
    at,
    eq_refl email,
    eq_iff email j,
    restore-capture account new key,
    get-insert email j new by_email,
    get-insert email j (capture_secret_fields account) previous,
  );
  fresh = λ j later. ground (
    arith,
    c.fresh j,
    eq_iff email j,
    eq_iff j email,
    get-insert email j (capture_secret_fields account) previous,
  );
}

restored-CanGoBack :
    (before : Map Account) (email : String) (rest : List String) (by_email : Map Account)
    (previous : Map Fields) (account new : Account)
    → Map.get email by_email ≡ some account
    → CanGoBack before (email ∷ rest) by_email previous
    → CanGoBack before rest
        (Map.insert email (restore_secret_fields new (capture_secret_fields account)) by_email)
        (Map.erase email (Map.insert email (capture_secret_fields account) previous))
restored-CanGoBack before email rest by_email previous account new at c =
    let saved = capture_secret_fields account in
    record {
      back = λ j key secret. ground (
        arith,
        c.back j key secret,
        c.fresh email,
        at,
        eq_refl email,
        eq_iff email j,
        restore-capture account new key,
        get-insert email j (restore_secret_fields new saved) by_email,
        get-insert email j saved previous,
        get-erase email j (Map.insert email saved previous),
      );
      fresh = λ j later. ground (
        arith,
        c.fresh j,
        eq_iff email j,
        eq_iff j email,
        get-insert email j saved previous,
        get-erase email j (Map.insert email saved previous),
      );
    }

passed-CanGoBack :
    (before : Map Account) (email : String) (rest : List String) (by_email : Map Account)
    (previous : Map Fields)
    → CanGoBack before (email ∷ rest) by_email previous
    → CanGoBack before rest by_email previous
passed-CanGoBack before email rest by_email previous c = record {
  back = c.back;
  fresh = λ j later. c.fresh j (ground arith);
}

module _ {S : Type 0} (go : GoLib) (v : AccountVault S) (before : Map Account) (email : String)
    (rest : List String) where
  copied-CanGoBack :
      (account : Account) (old_ref ref token : String) (r : Bool × S) (m : Migration S)
      → member email rest ≡ false
      → Map.get email m.by_email ≡ some account
      → CanGoBack before (email ∷ rest) m.by_email m.previous
      → let m' = copied go v email account old_ref ref token r m in
        CanGoBack before rest m'.by_email m'.previous
  unfolding copied
  copied-CanGoBack account old_ref ref token (false, s) m out at c =
      passed-CanGoBack before email rest m.by_email m.previous c
  copied-CanGoBack account old_ref ref token (true, s) m out at c =
      captured-CanGoBack before email rest m.by_email m.previous account
        (moved go v account ref token) out at c

  relocate-CanGoBack :
      (account : Account) (old_ref ref : String) (r : Result String × S) (m : Migration S)
      → member email rest ≡ false
      → Map.get email m.by_email ≡ some account
      → CanGoBack before (email ∷ rest) m.by_email m.previous
      → let m' = relocate go v email account old_ref ref r m in
        CanGoBack before rest m'.by_email m'.previous
  unfolding relocate
  relocate-CanGoBack account old_ref ref (err e, s) m out at c =
      passed-CanGoBack before email rest m.by_email m.previous c
  relocate-CanGoBack account old_ref ref (ok token, s) m out at c =
      elim (Bool-cases (token == "")) [
        | inl blank ↦ rw blank (passed-CanGoBack before email rest m.by_email m.previous c)
        | inr kept ↦
            rw kept (copied-CanGoBack account old_ref ref token (v.set s ref token) m out at c)
      ]

  adopt-CanGoBack :
      (account : Account) (token : String) (m : Migration S)
      → member email rest ≡ false
      → Map.get email m.by_email ≡ some account
      → CanGoBack before (email ∷ rest) m.by_email m.previous
      → let m' = adopt go v email account token m in CanGoBack before rest m'.by_email m'.previous
  unfolding adopt
  adopt-CanGoBack account token m out at c =
      let saved = save_account_secret go (some v) m.vault account token in
      elim (Bool-cases saved.stored) [
        | inl stored ↦ rw stored (
            captured-CanGoBack before email rest m.by_email m.previous account saved.account out at
              c)
        | inr refused ↦
            rw refused (
              restored-CanGoBack before email rest m.by_email m.previous account saved.account at c)
      ]

  found-CanGoBack :
      (account : Account) (m : Migration S)
      → member email rest ≡ false
      → Map.get email m.by_email ≡ some account
      → CanGoBack before (email ∷ rest) m.by_email m.previous
      → let m' = migrate_found go v email account m in CanGoBack before rest m'.by_email m'.previous
  unfolding migrate_found
  found-CanGoBack account m out at c =
      let ref = account_secret_ref go email in
      let old_ref = get_string account "secret_ref" in
      let token = get_string account "token_data" in
      elim (Bool-cases
        (not (old_ref == "") && (not (old_ref == ref) || get_string account "token_hash" == ""))) [
          | inl old ↦ rw old (
              relocate-CanGoBack account old_ref ref (account_token go (some v) m.vault account) m
                out at c)
          | inr current ↦ rw current (elim (Bool-cases (old_ref == "")) [
            | inr kept ↦ rw kept (passed-CanGoBack before email rest m.by_email m.previous c)
            | inl no_ref ↦ rw no_ref (elim (Bool-cases (token == "")) [
              | inl blank ↦ rw blank (passed-CanGoBack before email rest m.by_email m.previous c)
              | inr there ↦ rw there (adopt-CanGoBack account token m out at c)
            ])
          ])
        ]

  entry-CanGoBack :
      (o : Option Account) (m : Migration S)
      → member email rest ≡ false
      → Map.get email m.by_email ≡ o
      → CanGoBack before (email ∷ rest) m.by_email m.previous
      → let m' = migrate_entry go v email o m in CanGoBack before rest m'.by_email m'.previous
  unfolding migrate_entry
  entry-CanGoBack none m out at c = passed-CanGoBack before email rest m.by_email m.previous c
  entry-CanGoBack (some account) m out at c = found-CanGoBack account m out at c

pub loop-CanGoBack :
    {S : Type 0} (go : GoLib) (v : AccountVault S) (before : Map Account) (emails : List String)
    (m : Migration S)
    → is_nodup emails ≡ true
    → CanGoBack before emails m.by_email m.previous
    → let m' = migrate_loop go v emails m in CanGoBack before [] m'.by_email m'.previous
unfolding migrate_loop
loop-CanGoBack go v before [] m nodup c = c
loop-CanGoBack go v before (email ∷ emails) m nodup c =
    loop-CanGoBack go v before emails (migrate_entry go v email (Map.get email m.by_email) m)
      (ground arith)
      (entry-CanGoBack go v before email emails (Map.get email m.by_email) m (ground arith) refl c)

-- While nothing has changed, nothing is captured.
abbrev pub IsQuiet : {S : Type 0} → Migration S → Type 0
IsQuiet m = (m.changed ≡ true) ⊎ ((email : String) → Map.get email m.previous ≡ none)

entry-IsQuiet :
    {S : Type 0} (go : GoLib) (v : AccountVault S) (email : String) (o : Option Account)
    (m : Migration S)
    → IsQuiet m
    → IsQuiet (migrate_entry go v email o m)
unfolding migrate_entry migrate_found relocate copied adopt
entry-IsQuiet go v email o m (inl changed) = inl (ground arith)
entry-IsQuiet go v email none m (inr q) = inr q
entry-IsQuiet go v email (some account) m (inr q) =
    elim (Bool-cases (migrate_found go v email account m).changed) [
      | inl changed ↦ inl changed
      | inr same ↦ inr (λ j.
          let saved = capture_secret_fields account in
          ground (
            arith,
            q j,
            get-insert email j saved m.previous,
            get-erase email j (Map.insert email saved m.previous),
            eq_iff email j,
          ))
    ]

pub loop-IsQuiet :
    {S : Type 0} (go : GoLib) (v : AccountVault S) (emails : List String) (m : Migration S)
    → IsQuiet m
    → IsQuiet (migrate_loop go v emails m)
unfolding migrate_loop
loop-IsQuiet go v [] m q = q
loop-IsQuiet go v (email ∷ emails) m q =
    loop-IsQuiet go v emails (migrate_entry go v email (Map.get email m.by_email) m)
      (entry-IsQuiet go v email (Map.get email m.by_email) m q)
