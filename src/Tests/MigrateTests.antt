-- ===== src/Tests/MigrateTests.antt =====
-- A migration whose accounts cannot be saved.
use agy_swap.Prelude.{◌≡◌, refl, true, false, none, some, [], ◌∷◌, arith, Bool-cases, inl, inr}
use agy_swap.Prelude.Map
use agy_swap.Value.{field, text, end}
use agy_swap.Accounts.{Accounts}
use agy_swap.Files.{written}
use agy_swap.Vault.File.{VaultDisk, missing, file_account_vault}
use agy_swap.Vault.Migrate.{AccountStore, migrate_vault_accounts, migrate_loop, start}
use agy_swap.Vault.Migrate.Steps.{field_in}
use agy_swap.Vault.Migrate.Saved.{disk_store, migrate_vault_accounts-unsaved}
use agy_swap.Store.Disk.{Disk, save}
use agy_swap.Tests.Library.{go}

-- accounts.json cannot be locked.
abbrev locked_disk : AccountStore Disk
locked_disk =
    disk_store (λ d. (true, d)) false go (λ a. some "{}")
      (record {
        can_stat = true;
        can_read = true;
        backup_write = written;
        accounts_write = written;
        modified = 7;
        can_stat_again = true;
      })

abbrev no_accounts : Disk
no_accounts = record { accounts = none; backup = none }

abbrev legacy : Accounts
legacy = record {
  order = "ann@x.io" ∷ [];
  by_email =
      Map.insert "ann@x.io" (field "email" (text "ann@x.io") (field "token_data" (text "t") end))
        Map.empty;
  revision = 0;
  revision_hash = "";
}

abbrev vault_disk : VaultDisk
vault_disk = record { content = missing; can_mkdir = true; can_lock = true; write = written }

unsaved :
    (migrate_vault_accounts go file_account_vault locked_disk legacy vault_disk no_accounts).done
    ≡ false
unfolding migrate_vault_accounts save
unsaved =
    elim (Bool-cases
      (migrate_loop go file_account_vault legacy.order
        (start go file_account_vault locked_disk legacy vault_disk)).changed) [
          | inl moved ↦ ground arith
          | inr same ↦ ground arith
        ]

migrate_vault_accounts-unsaved_example :
    field_in
      (migrate_vault_accounts go file_account_vault locked_disk legacy vault_disk
        no_accounts).accounts.by_email
      "ann@x.io"
      "token_data"
    ≡ field_in legacy.by_email "ann@x.io" "token_data"
migrate_vault_accounts-unsaved_example =
    migrate_vault_accounts-unsaved go file_account_vault (λ d. (true, d)) false (λ a. some "{}") _
      legacy vault_disk no_accounts "ann@x.io" "token_data" refl unsaved refl refl
