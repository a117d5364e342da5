-- ===== src/Token.antt =====
-- internal/app/oauth.go and session_guard.go: what the program reads out of a saved token.
use Prim.Native.String.{◌++◌, len}
use agy_swap.Prelude.{
  ℕ, zero, suc, ◌+◌, ◌*◌, ◌%◌, String, Bool, true, false, not, ◌&&◌, ◌||◌, List, [], ◌∷◌, Option,
  none, some, if◌then◌else◌, ◌==◌, member,
}
use agy_swap.Prelude.Int.{ℤ, pos}
use agy_swap.Prelude.Text.{trim_space, strip_prefix, split}
use agy_swap.Value.{Value, Fields, boolean, get_field, get_map, get_string, first_string, text}
use agy_swap.Value.Numbers.{number_int}
use agy_swap.GoLib.{GoLib}
use agy_swap.Clock.{Time, parse_utc, before, second}
use agy_swap.Email.{normalize_email}

unfoldable pub decode_token : GoLib → String → Option Fields
decode_token go value =
    if value == "" then none else elim (strip_prefix "go-keyring-base64:" value) [
      | none ↦ go.decode_object value
      | some encoded ↦ elim (go.base64 encoded) [ none ↦ none | some raw ↦ go.decode_object raw ]
    ]

abbrev pub token_object : Option Fields → Option Fields
token_object none = none
token_object (some token) = get_map (get_field "token" token)

abbrev padding : ℕ → String
padding zero = ""
padding (suc zero) = "==="
padding (suc (suc zero)) = "=="
padding _ = "="

jwt_payload : List String → Option String
jwt_payload (header ∷ payload ∷ signature ∷ []) = some (payload ++ padding (len payload % 4))
jwt_payload _ = none

unfoldable pub decode_jwt_claims : GoLib → String → Option Fields
unfolding jwt_payload
decode_jwt_claims go jwt = elim (jwt_payload (split b'.' jwt)) [
  | none ↦ none
  | some payload ↦ elim (go.base64_url payload) [ none ↦ none | some raw ↦ go.unmarshal_object raw ]
]

abbrev is_true : Option Value → Bool
is_true (some (boolean b)) = b
is_true _ = false

-- getString(inner, "id_token"), or that of the token around it
abbrev id_token : Fields → String
id_token decoded =
    let outer = get_string decoded "id_token" in
    elim (token_object (some decoded)) [
      | none ↦ outer
      | some inner ↦ first_string (some (text (get_string inner "id_token"))) outer
    ]

unfoldable pub extract_email_hint : GoLib → String → String
extract_email_hint go token_data = elim (decode_token go token_data) [
  | none ↦ ""
  | some decoded ↦ elim (decode_jwt_claims go (id_token decoded)) [
    | none ↦ ""
    | some claims ↦
        (if member (get_string claims "iss")
              ("accounts.google.com" ∷ "https://accounts.google.com" ∷ [])
            && is_true (get_field "email_verified" claims)
          then normalize_email go (get_string claims "email")
          else "")
  ]
]

-- The Unix epoch.
abbrev unix_epoch : Time
unix_epoch = 62135596800 * second

unix_millis : Option ℤ → Option Time
unix_millis (some (pos (suc n))) = some (unix_epoch + suc n * 1000000)
unix_millis _ = none

unfoldable pub token_expiry : GoLib → Fields → Option Time
unfolding unix_millis
token_expiry go inner =
    let expiry = get_string inner "expiry" in
    if expiry == ""
    then unix_millis (number_int go (get_field "expiry_date" inner))
    else parse_utc go expiry

unfoldable pub token_refresh_token : GoLib → String → String
token_refresh_token go token_data = elim (token_object (decode_token go token_data)) [
  | none ↦ ""
  | some inner ↦ trim_space (get_string inner "refresh_token")
]

unfoldable pub hash_token : GoLib → String → String
hash_token go token =
    let trimmed = trim_space token in
    if trimmed == "" then "" else "sha256:" ++ go.sha256_hex trimmed

abbrev has_tokens : Option Fields → Bool
has_tokens none = false
has_tokens (some inner) =
    not (trim_space (get_string inner "access_token") == "")
    || not (trim_space (get_string inner "refresh_token") == "")

abbrev or_outer : Option Fields → Option Fields → Option Fields
or_outer none decoded = decoded
or_outer (some inner) decoded = some inner

unfoldable pub has_oauth_session : GoLib → String → Bool
has_oauth_session go token =
    let decoded = decode_token go token in has_tokens (or_outer (token_object decoded) decoded)

-- Both expiries are known and the candidate's is the earlier one.
abbrev expires_before : Option Time → Option Time → Bool
expires_before (some candidate) (some existing) = before candidate existing
expires_before _ _ = false

harvest_decoded : GoLib → Option Fields → Option Fields → Bool
harvest_decoded go existing none = false
harvest_decoded go none (some candidate) = not (get_string candidate "access_token" == "")
harvest_decoded go (some existing) (some candidate) =
    not (get_string candidate "access_token" == "")
    && not (expires_before (token_expiry go candidate) (token_expiry go existing))

unfoldable pub should_harvest_token : GoLib → String → String → Bool
unfolding harvest_decoded
should_harvest_token go existing candidate =
    if trim_space candidate == ""
    then false
    else if trim_space existing == ""
    then true
    else if hash_token go existing == hash_token go candidate
    then false
    else harvest_decoded go (token_object (decode_token go existing))
        (token_object (decode_token go candidate))
