-- ===== src/Tests/DecodeTests.antt =====
-- Reading and checking accounts.json.
use agy_swap.Prelude.{
  is_nodup, map, true, String, ◌≡◌, refl, List, [], ◌∷◌, none, some, if◌then◌else◌, member, All,
}
use agy_swap.Prelude.Map
use agy_swap.Prelude.Map.{Map, get-empty, get-insert}
use agy_swap.Prelude.Text.{trim_space, strip_prefix, split}
use agy_swap.Value.{Value, Account, field, end, text, object, get_field, set_field}
use agy_swap.Email.{normalize_email, clean_text, is_email}
use agy_swap.Token.{decode_token, extract_email_hint, decode_jwt_claims}
use agy_swap.Accounts.{Accounts, new_accounts, get, set}
use agy_swap.Errors.{ok}
use agy_swap.Store.Decode.{decode_ordered_accounts, decode_entries, decode_entry, decode_account}
use agy_swap.Store.Decode.Keyed.{IsKeyed, decode_ordered_accounts-IsKeyed}
use agy_swap.Store.Limits.{normalize_quota_limits}
use agy_swap.Store.Validate.{validate_accounts, validate_keys, validate_account, fill_names}
use agy_swap.Store.Validate.Accepted.{IsAccepted, address_in, validate_accounts-All}
use agy_swap.Tests.Library.{go}

abbrev entries : List (String × Value)
entries = ("ann@x.io", object end) ∷ []

abbrev decoded : Accounts
decoded =
    set new_accounts "ann@x.io"
      (set_field "name" (text "Google User") (set_field "email" (text "ann@x.io") end))

read_entries : decode_ordered_accounts go entries ≡ ok decoded
unfolding decode_ordered_accounts decode_entries decode_entry decode_account get_field
    normalize_email clean_text is_email trim_space normalize_quota_limits get new_accounts set_field
read_entries = rw (get-empty {V = Account} "ann@x.io") refl

decode_ordered_accounts-IsKeyed_example : IsKeyed decoded
decode_ordered_accounts-IsKeyed_example =
    decode_ordered_accounts-IsKeyed go entries decoded read_entries

abbrev one : Accounts
one = record {
  order = "ann@x.io" ∷ [];
  by_email = Map.insert "ann@x.io" (field "token_data" (text "t") end) Map.empty;
  revision = 0;
  revision_hash = "";
}

ann-valid :
    (m : Map Account)
    → Map.get "ann@x.io" m ≡ some (field "token_data" (text "t") end)
    → (validate_keys go ("ann@x.io" ∷ []) [] m).0 ≡ none
unfolding validate_keys validate_account fill_names get_field set_field normalize_email clean_text
    is_email trim_space normalize_quota_limits decode_token strip_prefix extract_email_hint
    decode_jwt_claims split
ann-valid m h = rw (h, validate_keys) refl

one-valid : (validate_accounts go one).0 ≡ none
unfolding validate_accounts
one-valid =
    ann-valid one.by_email (
      get-insert "ann@x.io" "ann@x.io" (field "token_data" (text "t") end)
        (Map.empty {V = Account}))

validate_accounts-All_example :
    All (IsAccepted go one.by_email (validate_accounts go one).1.by_email) one.order
    × (is_nodup (map (address_in (validate_accounts go one).1.by_email) one.order) ≡ true)
    × (if member "bob@x.io" one.order
        then Unit
        else Map.get "bob@x.io" (validate_accounts go one).1.by_email
          ≡ Map.get "bob@x.io" one.by_email)
validate_accounts-All_example = validate_accounts-All go one "bob@x.io" refl one-valid
