-- ===== src/Vault/File.antt =====
-- internal/app/vault.go: `fileAccountVault`, the file vault.json. The locks of the process and of the
-- file make each operation one step. What the file system lets the vault do is part of the state,
-- and may be another one at the next operation.
pub mod Laws
use agy_swap.Prelude.{
  String, Bool, true, false, Option, none, some, if◌then◌else◌, ◌==◌, ◌&&◌, is_some,
}
use agy_swap.Prelude.Map
use agy_swap.Prelude.Map.{Map}
use agy_swap.Prelude.Text.{trim_space}
use agy_swap.Files.{WriteOutcome, written, not_replaced, replaced_then_failed}
use agy_swap.Vault.{AccountVault, found}

-- What stands at the path of the vault.
pub data Content : Type 0 where
  no_dir : Content  -- not even the directory
  missing : Content
  unreadable : Content
  blank : Content  -- nothing but white space
  null_json : Content
  corrupt : Content  -- no JSON object of texts
  entries : Map String → Content

pub record VaultDisk : Type 0 where
  pub content : Content
  pub can_mkdir : Bool
  pub can_lock : Bool
  pub write : WriteOutcome

abbrev has_dir : Content → Bool
has_dir no_dir = false
has_dir _ = true

abbrev with_dir : Content → Content
with_dir no_dir = missing
with_dir content = content

-- A lookup leaves a missing directory alone; a change makes it.
unfoldable pub file_lock : Bool → VaultDisk → Bool × VaultDisk
file_lock false d = (has_dir d.content && d.can_lock, d)
file_lock true d =
    if (if has_dir d.content then true else d.can_mkdir)
    then (d.can_lock, record d { content = with_dir d.content })
    else (false, d)

-- A missing or empty file is an empty map; `none` is an error.
unfoldable pub read_map : Content → Option (Map String)
read_map no_dir = some Map.empty
read_map missing = some Map.empty
read_map blank = some Map.empty
read_map null_json = some Map.empty
read_map unreadable = none
read_map corrupt = none
read_map (entries m) = some m

abbrev write_outcome : WriteOutcome → Map String → VaultDisk → Bool × VaultDisk
write_outcome written m d = (true, record d { content = entries m })
write_outcome not_replaced m d = (false, d)
write_outcome replaced_then_failed m d = (false, record d { content = entries m })

unfoldable pub write_map : Map String → VaultDisk → Bool × VaultDisk
write_map m d = write_outcome d.write m d

-- m[ref], read as found or not
abbrev lookup_token : Option (Map String) → String → Option String
lookup_token none ref = none
lookup_token (some m) ref = elim (Map.get ref m) [ none ↦ none | some value ↦ found value ]

unfoldable pub file_get : VaultDisk → String → Option String × VaultDisk
unfolding file_lock read_map
file_get d ref =
    let trimmed = trim_space ref in
    if trimmed == ""
    then (none, d)
    else let (locked, d') = file_lock false d in
      if locked then (lookup_token (read_map d'.content) trimmed, d') else (none, d')

set_in : Option (Map String) → String → String → VaultDisk → Bool × VaultDisk
set_in none ref token d = (false, d)
set_in (some m) ref token d = write_map (Map.insert ref token m) d

unfoldable pub file_set : VaultDisk → String → String → Bool × VaultDisk
unfolding file_lock read_map set_in write_map
file_set d ref token =
    let key = trim_space ref in
    let value = trim_space token in
    if (if key == "" then true else value == "")
    then (false, d)
    else let (locked, d') = file_lock true d in
      if locked then set_in (read_map d'.content) key value d' else (false, d')

delete_in : Option (Map String) → String → VaultDisk → Bool × VaultDisk
delete_in none ref d = (false, d)
delete_in (some m) ref d =
    if is_some (Map.get ref m) then write_map (Map.erase ref m) d else (true, d)

unfoldable pub file_delete : VaultDisk → String → Bool × VaultDisk
unfolding file_lock read_map delete_in write_map
file_delete d ref =
    let key = trim_space ref in
    if key == ""
    then (true, d)
    else let (locked, d') = file_lock true d in
      if locked then delete_in (read_map d'.content) key d' else (false, d')

abbrev pub file_account_vault : AccountVault VaultDisk
file_account_vault = record { get = file_get; set = file_set; delete = file_delete }
