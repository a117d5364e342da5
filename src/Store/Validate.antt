-- ===== src/Store/Validate.antt =====
-- internal/app/store.go: `validateAccounts`. It changes the accounts as it goes, and the accounts that
-- it has changed stay changed when it refuses a later one: the map of accounts is part of the result.
pub mod Fields
pub mod Accepted
use Prim.Native.String.{◌++◌}
use agy_swap.Prelude.{
  String, Bool, true, false, List, [], ◌∷◌, Option, none, some, if◌then◌else◌, member, ◌==◌,
}
use agy_swap.Prelude.Map
use agy_swap.Prelude.Map.{Map}
use agy_swap.Value.{Value, Account, text, get_field, set_field, first_string}
use agy_swap.GoLib.{GoLib}
use agy_swap.Email.{normalize_email}
use agy_swap.Accounts.{Accounts}
use agy_swap.Errors.{GoError, Result, ok, err, plain, and_then}
use agy_swap.Store.Limits.{normalize_quota_limits}
use agy_swap.Store.Decode.{check_token, check_snapshot}

-- token, ok := account["token_data"].(string)
valid_token : GoLib → String → Option Value → Account → Result Account
unfolding check_token
valid_token go email (some (text token)) account = check_token go email token account
valid_token go email _ account = ok account

-- The account with its email and its name filled in.
unfoldable pub fill_names : String → Account → Account
fill_names email account =
    let named = set_field "email" (text email) account in
    set_field "name" (text (first_string (get_field "name" named) "Google User")) named

-- One account, once its email is known.
unfoldable pub validate_account : GoLib → String → Account → Result Account
unfolding valid_token check_snapshot fill_names
validate_account go email account =
    let named = fill_names email account in
    and_then (valid_token go email (get_field "token_data" named) named) (λ a.
      and_then (normalize_quota_limits go email a)
        (λ b. check_snapshot go email (get_field "quota_snapshot" b) b))

-- What a refusal leaves of the account that it refuses.
unfoldable pub refused_account : GoLib → String → Account → Account
unfolding valid_token fill_names
refused_account go email account =
    let named = fill_names email account in
    elim (and_then (valid_token go email (get_field "token_data" named) named)
      (λ a. normalize_quota_limits go email a)) [ ok b ↦ b | err e ↦ named ]

-- The error, if any, and the map.
unfoldable pub validate_keys :
    GoLib → List String → List String → Map Account → Option GoError × Map Account
unfolding refused_account
validate_keys go [] seen by_email = (none, by_email)
validate_keys go (key ∷ keys) seen by_email = elim (Map.get key by_email) [
  | none ↦ (some (plain "accounts.json contains an invalid account entry"), by_email)
  | some account ↦
      (let email = normalize_email go (first_string (get_field "email" account) key) in
        if email == ""
        then (some (plain ("invalid account email: " ++ go.quote key)), by_email)
        else if member email seen
        then (some (plain ("duplicate account email: " ++ email)), by_email)
        else elim (validate_account go email account) [
          | err e ↦ (some e, Map.insert key (refused_account go email account) by_email)
          | ok valid ↦ validate_keys go keys (email ∷ seen) (Map.insert key valid by_email)
        ])
]

unfoldable pub validate_accounts : GoLib → Accounts → Option GoError × Accounts
unfolding validate_keys
validate_accounts go accounts =
    let (e, by_email) = validate_keys go accounts.order [] accounts.by_email in
    (e, record accounts { by_email = by_email })
