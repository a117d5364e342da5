-- ===== src/Vault/File/Laws.antt =====
-- internal/app/vault.go: the laws of the file vault, and what it does to a file that it cannot read.
use agy_swap.Prelude.{
  String, ◌≡◌, ◌≢◌, ◌⊎◌, inl, inr, refl, true, false, Option, none, some, eq_iff, eq_refl, arith,
  Option-cases,
}
use agy_swap.Prelude.Map
use agy_swap.Prelude.Map.{Map, get-insert, get-erase, get-empty}
use agy_swap.Prelude.Text.{trim_space, trim_space_idem}
use agy_swap.Vault.{IsLawful, IsForgetting, IsTolerant, found}
use agy_swap.Vault.File.{VaultDisk, file_get, file_set, file_delete, file_account_vault, read_map}

abbrev map_of : Option (Map String) → Map String
map_of none = Map.empty
map_of (some m) = m

file_get-set :
    (d : VaultDisk) (ref token : String)
    → trim_space token ≡ token
    → (file_set d ref token).0 ≡ true
    → (file_get (file_set d ref token).1 ref).0 ≡ some token
unfolding file_get file_set
file_get-set d ref token h ok =
    let m = map_of (read_map d.content) in
    ground (
      arith,
      get-insert (trim_space ref) (trim_space ref) (trim_space token) m,
      eq_refl (trim_space ref),
    )

get-set_failed :
    (d : VaultDisk) (ref token : String)
    → trim_space token ≡ token
    → (file_set d ref token).0 ≡ false
    → ((file_get (file_set d ref token).1 ref).0 ≡ (file_get d ref).0)
      ⊎ ((file_get (file_set d ref token).1 ref).0 ≡ some token)
unfolding file_get file_set
get-set_failed d ref token h failed =
    let m = map_of (read_map d.content) in
    let k = trim_space ref in
    ground (arith, get-insert k k (trim_space token) m, eq_refl k, get-empty {V = String} k)

get-set_ne :
    (d : VaultDisk) (ref token other : String)
    → trim_space ref ≢ trim_space other
    → (file_get (file_set d ref token).1 other).0 ≡ (file_get d other).0
unfolding file_get file_set
get-set_ne d ref token other ne =
    let m = map_of (read_map d.content) in
    let k = trim_space other in
    ground (
      arith,
      get-insert (trim_space ref) k (trim_space token) m,
      eq_iff (trim_space ref) k,
      get-empty {V = String} k,
    )

get-delete_ne :
    (d : VaultDisk) (ref other : String)
    → trim_space ref ≢ trim_space other
    → (file_get (file_delete d ref).1 other).0 ≡ (file_get d other).0
unfolding file_get file_delete
get-delete_ne d ref other ne =
    let m = map_of (read_map d.content) in
    let k = trim_space other in
    ground
      (arith, get-erase (trim_space ref) k m, eq_iff (trim_space ref) k, get-empty {V = String} k)

set_blank :
    (d : VaultDisk) (ref token : String) → trim_space ref ≡ "" → (file_set d ref token).0 ≡ false
unfolding file_set
set_blank d ref token h = rw h refl

get-trim_space :
    (d : VaultDisk) (ref : String) → (file_get d (trim_space ref)).0 ≡ (file_get d ref).0
unfolding file_get
get-trim_space d ref = rw (trim_space_idem ref)

found-not_empty : (value : String) → found value ≢ some ""
found-not_empty value h = ground (arith, eq_iff value "")

not_empty : (d : VaultDisk) (ref : String) → (file_get d ref).0 ≢ some ""
unfolding file_get
not_empty d ref h =
    let m = map_of (read_map d.content) in
    elim (Option-cases (Map.get (trim_space ref) m)) [
      | inl absent ↦ ground (arith, get-empty {V = String} (trim_space ref))
      | inr (value, at) ↦
          ground (arith, found-not_empty value, get-empty {V = String} (trim_space ref))
    ]

get-get :
    (d : VaultDisk) (ref other : String)
    → (file_get (file_get d ref).1 other).0 ≡ (file_get d other).0
unfolding file_get
get-get d ref other = ground arith

-- After a Delete that succeeds, the reference holds nothing.
pub file_get-delete :
    (d : VaultDisk) (ref : String)
    → (file_delete d ref).0 ≡ true
    → (file_get (file_delete d ref).1 ref).0 ≡ none
unfolding file_get file_delete
file_get-delete d ref ok =
    let m = map_of (read_map d.content) in
    let k = trim_space ref in ground (arith, get-erase k k m, eq_refl k, get-empty {V = String} k)

file_account_vault-IsForgetting : IsForgetting file_account_vault (λ d ref. (file_delete d ref).0)
file_account_vault-IsForgetting = record { get-delete = file_get-delete }

-- The file vault keeps the promises of `IsLawful`, and a Delete of it that reports success has removed the token,
-- whatever the file holds and whatever goes wrong with the directory, the lock, the read or the write; the file
-- system answers the operations that a promise compares in the same way.
pub file_account_vault-IsLawful :
    IsLawful file_account_vault × IsForgetting file_account_vault (λ d ref. (file_delete d ref).0)
file_account_vault-IsLawful = (
  record {
    get-set = λ d ref token r. file_get-set d ref token;
    get-set_failed = get-set_failed;
    get-set_ne = get-set_ne;
    get-delete_ne = get-delete_ne;
    set_blank = set_blank;
    get-trim_space = get-trim_space;
    not_empty = not_empty;
    get-get = get-get;
  },
  file_account_vault-IsForgetting,
)

pub file_account_vault-IsTolerant : IsTolerant file_account_vault
file_account_vault-IsTolerant = record { get-set_any = file_get-set }

-- A file that cannot be read as a map of texts stays as it is under every operation, and no Set of it
-- succeeds.
pub file_set_closed :
    (d : VaultDisk) (ref token : String)
    → read_map d.content ≡ none
    → ((file_set d ref token).1 ≡ d)
      × ((file_set d ref token).0 ≡ false)
      × ((file_delete d ref).1 ≡ d)
      × ((file_get d ref).0 ≡ none)
unfolding file_set file_delete file_get
file_set_closed d ref token h = (ground arith, ground arith, ground arith, ground arith)
