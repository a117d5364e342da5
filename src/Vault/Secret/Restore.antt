-- ===== src/Vault/Secret/Restore.antt =====
-- internal/app/vault.go: capturing and restoring the secret fields of an account.
use agy_swap.Prelude.{
  String, ◌≡◌, refl, ◌∙◌, Bool, true, false, List, [], ◌∷◌, Option, none, some, if◌then◌else◌, ◌==◌,
  eq_iff, member, arith,
}
use agy_swap.Value.{Value, Account, Fields, get_field, get-set, get-delete, get-end}
use agy_swap.Vault.Secret.{
  secret_keys, capture_key, capture_keys, capture_secret_fields, restore_key, restore_keys,
  restore_secret_fields,
}

get-capture_key :
    (key j : String) (o : Option Value) (saved : Fields)
    → get_field j (capture_key key o saved) ≡ (
        if key == j
        then elim o [ none ↦ get_field j saved | some v ↦ some v ]
        else get_field j saved)
unfolding capture_key
get-capture_key key j none saved = ground arith
get-capture_key key j (some v) saved = get-set key j v saved

get-capture_keys :
    (keys : List String) (account : Account) (j : String)
    → get_field j (capture_keys keys account)
      ≡ (if member j keys then get_field j account else none)
unfolding capture_keys
get-capture_keys [] account j = get-end j
get-capture_keys (key ∷ keys) account j = ground (
  arith,
  get-capture_keys keys account j,
  eq_iff j key,
  eq_iff key j,
  get-capture_key key j (get_field key account) (capture_keys keys account),
)

get-restore_key :
    (key j : String) (o : Option Value) (account : Account)
    → get_field j (restore_key key o account) ≡ (if key == j then o else get_field j account)
unfolding restore_key
get-restore_key key j none account = get-delete key j account
get-restore_key key j (some v) account = get-set key j v account

get-restore_keys :
    (keys : List String) (account : Account) (saved : Fields) (j : String)
    → get_field j (restore_keys keys account saved)
      ≡ (if member j keys then get_field j saved else get_field j account)
unfolding restore_keys
get-restore_keys [] account saved j = refl
get-restore_keys (key ∷ keys) account saved j =
    let account' = restore_key key (get_field key saved) account in
    ground (
      arith,
      get-restore_keys keys account' saved j,
      eq_iff j key,
      eq_iff key j,
      get-restore_key key j (get_field key saved) account,
    )

-- Of the secret fields, only what was saved counts.
pub get-restore :
    (account other : Account) (saved : Fields) (key : String)
    → member key secret_keys ≡ true
    → get_field key (restore_secret_fields account saved)
      ≡ get_field key (restore_secret_fields other saved)
unfolding restore_secret_fields
get-restore account other saved key h = ground (
  arith,
  get-restore_keys secret_keys account saved key,
  get-restore_keys secret_keys other saved key,
)

-- Restoring what was captured of an account gives every secret field the value, or the absence, that
-- it had there, and leaves every other field as it is.
pub restore-capture :
    (account changed : Account) (key : String)
    → get_field key (restore_secret_fields changed (capture_secret_fields account))
      ≡ (if member key secret_keys then get_field key account else get_field key changed)
unfolding restore_secret_fields capture_secret_fields
restore-capture account changed key =
    get-restore_keys secret_keys changed (capture_keys secret_keys account) key
    ∙ rw (get-capture_keys secret_keys account key) (if_if (member key secret_keys))
  where
    if_if :
        (b : Bool)
        → (if b then (if b then get_field key account else none) else get_field key changed)
          ≡ (if b then get_field key account else get_field key changed)
    if_if true = refl
    if_if false = refl
