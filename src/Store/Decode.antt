-- ===== src/Store/Decode.antt =====
-- internal/app/model.go: `decodeOrderedAccounts`. The JSON decoder is a parameter: what it reads is the
-- list of the keys and values of the object, in the order of the file.
pub mod Keyed
use Prim.Native.String.{◌++◌}
use agy_swap.Prelude.{
  String, Bool, true, false, not, ◌&&◌, List, [], ◌∷◌, Option, none, some, if◌then◌else◌, is_some,
  ◌==◌,
}
use agy_swap.Value.{Value, Account, Fields, null, text, object, get_field, set_field, first_string}
use agy_swap.GoLib.{GoLib}
use agy_swap.Email.{clean_text, normalize_email}
use agy_swap.Token.{decode_token, extract_email_hint}
use agy_swap.Accounts.{Accounts, new_accounts, get, set}
use agy_swap.Errors.{Result, ok, err, plain, and_then}
use agy_swap.Store.Limits.{normalize_quota_limits}
use agy_swap.Store.Snapshot.{normalize_quota_snapshot}

-- The two checks of a saved token.
unfoldable pub check_token : GoLib → String → String → Account → Result Account
check_token go email token account =
    if is_some (decode_token go token)
    then (let claimed = extract_email_hint go token in
        if not (claimed == "") && not (claimed == email)
        then err (plain ("saved token email does not match " ++ email))
        else ok account)
    else err (plain ("invalid saved token for " ++ email))

decode_saved_token : GoLib → String → Option Value → Account → Result Account
unfolding check_token
decode_saved_token go email none account = ok account
decode_saved_token go email (some null) account = ok account
decode_saved_token go email (some (text token)) account = check_token go email token account
decode_saved_token go email _ account = err (plain ("invalid saved token for " ++ email))

check_legacy : String → Option Value → Account → Result Account
check_legacy email none account = ok account
check_legacy email (some (object legacy)) account = ok account
check_legacy email _ account = err (plain ("invalid legacy quota for " ++ email))

unfoldable pub put_snapshot : Account → Result Fields → Result Account
put_snapshot account (err e) = err e
put_snapshot account (ok snapshot) = ok (set_field "quota_snapshot" (object snapshot) account)

unfoldable pub check_snapshot : GoLib → String → Option Value → Account → Result Account
unfolding put_snapshot
check_snapshot go email none account = ok account
check_snapshot go email (some raw) account =
    put_snapshot account (normalize_quota_snapshot go email raw)

or_google_user : String → String
or_google_user name = if name == "" then "Google User" else name

-- The account with its email and its name filled in.
named_account : GoLib → String → Account → Account
unfolding or_google_user
named_account go email account =
    let named = set_field "email" (text email) account in
    set_field "name"
      (text (or_google_user (clean_text go (first_string (get_field "name" named) "Google User"))))
      named

unfoldable pub decode_account : GoLib → String → Account → Result Account
unfolding named_account decode_saved_token check_legacy check_snapshot
decode_account go email account =
    let named = named_account go email account in
    and_then (decode_saved_token go email (get_field "token_data" named) named) (λ a.
      and_then (normalize_quota_limits go email a) (λ b.
        and_then (check_legacy email (get_field "legacy_quota" b) b)
          (λ c. check_snapshot go email (get_field "quota_snapshot" c) c)))

add_account : Accounts → String → Result Account → Result Accounts
add_account accounts email (err e) = err e
add_account accounts email (ok account) = ok (set accounts email account)

-- One turn of the loop.
unfoldable pub decode_entry : GoLib → Accounts → String → Value → Result Accounts
unfolding add_account
decode_entry go accounts key (object account) =
    let email = normalize_email go (first_string (get_field "email" account) key) in
    if email == ""
    then err (plain ("invalid account email: " ++ go.quote key))
    else if is_some (get accounts email)
    then err (plain ("duplicate account email: " ++ email))
    else add_account accounts email (decode_account go email account)
decode_entry go accounts key _ = err (plain "accounts.json contains an invalid account entry")

unfoldable pub decode_entries : GoLib → List (String × Value) → Accounts → Result Accounts
decode_entries go [] accounts = ok accounts
decode_entries go ((key, value) ∷ entries) accounts =
    and_then (decode_entry go accounts key value) (λ next. decode_entries go entries next)

unfoldable pub decode_ordered_accounts : GoLib → List (String × Value) → Result Accounts
decode_ordered_accounts go entries = decode_entries go entries new_accounts
