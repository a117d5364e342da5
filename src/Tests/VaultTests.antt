-- ===== src/Tests/VaultTests.antt =====
-- Vaults, and the tokens kept in them.
use agy_swap.Prelude.{
  String, Bool, ◌==◌, ◌&&◌, ◌≡◌, ◌≢◌, refl, true, Option, none, some, if◌then◌else◌, member, eq_iff,
  eq_refl, arith,
}
use mathlib.Core.Bool.{false≢true}
use agy_swap.Prelude.Map
use agy_swap.Prelude.Map.{Map, get-insert, get-erase}
use agy_swap.Prelude.Text.{trim_space, trim_space_idem}
use agy_swap.Value.{Account, field, text, end, get_field}
use agy_swap.Errors.{ok}
use agy_swap.Email.Trimmed.{IsLowering}
use agy_swap.Vault.{Platform, os_account_vault, IsLawful, IsForgetting}
use agy_swap.Vault.System.{
  IsKeeping, IsTrimmingPlatform, os_account_vault-IsForgetting, os_account_vault-IsLawful,
  os_account_vault-IsTrimming,
}
use agy_swap.Files.{written}
use agy_swap.Vault.File.{VaultDisk, entries, corrupt, read_map, file_delete, file_account_vault}
use agy_swap.Vault.File.Laws.{file_account_vault-IsLawful, file_account_vault-IsTolerant}
use agy_swap.Vault.Hybrid.{hybrid_vault}
use agy_swap.Vault.Hybrid.Laws.{hybrid_vault-IsLawful}
use agy_swap.Vault.Secret.{
  account_token, save_account_secret, capture_secret_fields, restore_secret_fields, secret_keys,
}
use agy_swap.Vault.Secret.Restore.{restore-capture}
use agy_swap.Vault.Secret.Survival.{save-account_token}
use agy_swap.Tests.Library.{go}

-- A credential store in memory.
abbrev trimmed_text : Option String → String
trimmed_text none = ""
trimmed_text (some s) = trim_space s

abbrev memory : Platform (Map String)
memory = record {
  lookup = λ m ref. (trimmed_text (Map.get ref m), m);
  store = λ m ref token. (true, Map.insert ref token m);
  clear = λ m ref. (true, Map.erase ref m);
}

memory-trimmed : (o : Option String) → trim_space (trimmed_text o) ≡ trimmed_text o
unfolding trim_space
memory-trimmed none = refl
memory-trimmed (some s) = trim_space_idem s

memory-IsKeeping : IsKeeping memory
memory-IsKeeping = record {
  lookup-store = λ m ref token t h. ground (arith, get-insert ref ref token m, eq_refl ref, t);
  store_failed = λ m ref token t h. ground arith;
  lookup-clear = λ m ref h. ground (arith, get-erase ref ref m, eq_refl ref);
  lookup-store_ne =
      λ m ref token other ne. ground (arith, get-insert ref other token m, eq_iff ref other);
  lookup-clear_ne = λ m ref other ne. ground (arith, get-erase ref other m, eq_iff ref other);
  lookup-lookup = λ m ref other. refl;
}

memory-IsTrimmingPlatform : IsTrimmingPlatform memory
memory-IsTrimmingPlatform = record { lookup_trimmed = λ m ref. memory-trimmed (Map.get ref m) }

abbrev sure_of_os : Map String → String → Bool
sure_of_os m ref = ((os_account_vault memory).delete m ref).0 && ref == trim_space ref

hybrid_vault-IsLawful_example :
    IsLawful (hybrid_vault file_account_vault (some (os_account_vault memory)))
    × IsForgetting
        (hybrid_vault file_account_vault (some (os_account_vault memory)))
        (λ st ref. (file_delete st.0 ref).0 && sure_of_os st.1 ref)
hybrid_vault-IsLawful_example =
    hybrid_vault-IsLawful file_account_vault (os_account_vault memory) file_account_vault-IsLawful.0
      file_account_vault-IsTolerant (os_account_vault-IsLawful memory memory-IsKeeping)
      (os_account_vault-IsTrimming memory memory-IsKeeping memory-IsTrimmingPlatform)
      (λ d ref. (file_delete d ref).0) sure_of_os file_account_vault-IsLawful.1
      (os_account_vault-IsForgetting memory memory-IsKeeping)

abbrev disk : VaultDisk
disk = record {
  content = entries (Map.insert "account:ann@x.io" "old" Map.empty);
  can_mkdir = true;
  can_lock = true;
  write = written;
}

go-IsLowering : IsLowering go
go-IsLowering = record { lower_trimmed = λ s h. h }

abbrev ann : Account
ann = field "email" (text "ann@x.io") (field "token_data" (text "t1") end)

not_blank : trim_space " t2 " ≢ ""
unfolding trim_space
not_blank e = false≢true ((eq_iff "t2" "").1 e)

save-account_token_example :
    let saved = save_account_secret go (some file_account_vault) disk ann " t2 " in
    let unsaved = save_account_secret go none disk ann " t2 " in
    ((account_token go (some file_account_vault) saved.vault saved.account).0
      ≡ ok (trim_space " t2 "))
    × ((account_token {S = VaultDisk} go none unsaved.vault unsaved.account).0
        ≡ ok (trim_space " t2 "))
save-account_token_example =
    save-account_token go file_account_vault disk ann " t2 " go-IsLowering
      file_account_vault-IsLawful.0 not_blank

restore-capture_example :
    get_field "token_data" (restore_secret_fields end (capture_secret_fields ann)) ≡ (
      if member "token_data" secret_keys
      then get_field "token_data" ann
      else get_field "token_data" end)
restore-capture_example = restore-capture ann end "token_data"

deleted : (file_delete disk "account:ann@x.io").0 ≡ true
unfolding file_delete trim_space
deleted = ground (
  arith,
  get-insert {V = String} "account:ann@x.io" "account:ann@x.io" "old" (Map.empty {V = String}),
)

abbrev broken : VaultDisk
broken = record disk { content = corrupt }

broken-none : read_map broken.content ≡ none
unfolding read_map
broken-none = refl
