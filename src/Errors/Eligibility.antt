-- ===== src/Errors/Eligibility.antt =====
-- internal/app/eligibility.go: what Google's answers say about an account that must be verified. JSON
-- into the struct of an error's details, and net/url, are parameters.
use Prim.Native.Char.{code}
use agy_swap.Prelude.{
  ℕ, String, Bool, true, false, not, ◌&&◌, ◌||◌, List, [], ◌∷◌, Option, none, some, if◌then◌else◌,
  ◌==◌, nat_eq, is_some,
}
use agy_swap.Prelude.Text.{trim_space, contains, has_suffix}
use agy_swap.Value.{
  Value, Account, Fields, text, boolean, object, end, field, get_field, get_map, get_string,
  get_slice, fields_or_end,
}
use agy_swap.GoLib.{GoLib}
use agy_swap.Clock.{Time, iso_time}
use agy_swap.Email.{clean_text}
use agy_swap.Errors.{Ineligible}

-- A detail of a google.rpc.Status.
pub record Detail : Type 0 where
  pub kind : String  -- "@type"
  pub reason : String
  pub metadata : String → String  -- "" for a missing key

-- What url.Parse gives.
pub record Url : Type 0 where
  pub scheme : String
  pub has_user : Bool
  pub hostname : String
  pub printed : String

pub record WebLib : Type 0 where
  pub details : String → Option (List Detail)  -- json.Unmarshal into the envelope
  pub marshal : Fields → Option String  -- json.Marshal
  pub parse_url : String → Option Url

verification_reason : GoLib → String → Bool
verification_reason go value =
    let reason = go.to_upper value in contains reason "VALIDATION" || contains reason "VERIF"

unfoldable pub verification_text : GoLib → String → String → Bool
unfolding verification_reason
verification_text go reason message =
    let lower = go.to_lower message in
    verification_reason go reason
    || contains lower "verify"
    || contains lower "validation"
    || contains lower "appeal"

-- firstNonEmpty of two texts
abbrev pub first_non_empty : String → String → String
first_non_empty a b =
    if not (trim_space a == "") then a else if not (trim_space b == "") then b else ""

has_dot : String → Bool
has_dot String.[] = false
has_dot (String.◌∷◌ c s) = nat_eq (code c) b'.' || has_dot s

-- A host of google.com, or below .google
is_google : String → Bool
unfolding has_dot
is_google host =
    host == "google.com"
    || has_suffix host ".google.com"
    || has_suffix host ".google" && has_dot host

checked_url : GoLib → Option Url → String
unfolding is_google
checked_url go none = ""
checked_url go (some u) =
    if not (u.scheme == "https") || u.has_user
    then ""
    else if is_google (go.to_lower u.hostname)
    then u.printed
    else ""

unfoldable pub safe_google_url : GoLib → WebLib → String → String
unfolding checked_url
safe_google_url go web raw = checked_url go (web.parse_url (trim_space raw))

-- An answer with this reason, message and link, if it asks for a verification.
hit : GoLib → WebLib → String → String → String → Option Ineligible
unfolding safe_google_url verification_text
hit go web reason message link =
    if link == "" && not (verification_text go reason message)
    then none
    else some (record {
      reason = clean_text go reason;
      message = message;
      url = safe_google_url go web link;
    })

from_details : GoLib → WebLib → List Detail → Option Ineligible
unfolding hit
from_details go web [] = none
from_details go web (d ∷ details) =
    let rest = from_details go web details in
    let link = first_non_empty (d.metadata "validation_url") (d.metadata "appeal_url") in
    let found = hit go web d.reason (clean_text go (d.metadata "uiMessage")) link in
    if not (d.kind == "") && not (has_suffix d.kind "/google.rpc.ErrorInfo")
    then rest
    else if is_some found
    then found
    else rest

details_or_none : GoLib → WebLib → Option (List Detail) → Option Ineligible
unfolding from_details
details_or_none go web none = none
details_or_none go web (some details) = from_details go web details

unfoldable pub eligibility_from_error_body : GoLib → WebLib → ℕ → String → Option Ineligible
unfolding details_or_none
eligibility_from_error_body go web status body =
    if not (nat_eq status 400) && not (nat_eq status 403)
    then none
    else details_or_none go web (web.details body)

body_or_none : GoLib → WebLib → Option String → Option Ineligible
unfolding eligibility_from_error_body
body_or_none go web none = none
body_or_none go web (some body) = eligibility_from_error_body go web 403 body

unfoldable pub eligibility_from_operation_error : GoLib → WebLib → Fields → Option Ineligible
unfolding body_or_none
eligibility_from_operation_error go web op_error =
    body_or_none go web (web.marshal (field "error" (object op_error) end))

-- raw.(map[string]any) of an `any` of a list, where only keys of it are read
abbrev tier_of : Value → Fields
tier_of raw = fields_or_end (get_map (some raw))

has_free_tier : GoLib → List Value → Bool
has_free_tier go [] = false
has_free_tier go (raw ∷ tiers) =
    clean_text go (get_string (tier_of raw) "id") == "free-tier" || has_free_tier go tiers

abbrev is_default : Option Value → Bool
is_default (some (boolean b)) = b
is_default _ = false

default_tier : GoLib → List Value → String
default_tier go [] = ""
default_tier go (raw ∷ tiers) =
    let rest = default_tier go tiers in
    let id = clean_text go (get_string (tier_of raw) "id") in
    if is_default (get_field "isDefault" (tier_of raw)) && not (id == "") then id else rest

unfoldable pub allowed_tier_id : GoLib → Fields → String
unfolding has_free_tier default_tier
allowed_tier_id go info =
    let tiers = get_slice (get_field "allowedTiers" info) in
    if has_free_tier go tiers then "free-tier" else default_tier go tiers

-- extractCloudProject of internal/app/quota.go
unfoldable pub extract_cloud_project : Option Value → String
extract_cloud_project (some (text s)) = trim_space s
extract_cloud_project (some (object m)) = trim_space (get_string m "id")
extract_cloud_project _ = ""

check_tier : GoLib → WebLib → Fields → Option Ineligible
unfolding hit
check_tier go web tier =
    let link = first_non_empty (get_string tier "validationUrl") (get_string tier "appealUrl") in
    let message = clean_text go (
      first_non_empty (get_string tier "reasonMessage")
        (get_string tier "validationErrorMessage")) in
    hit go web (get_string tier "reasonCode") message link

-- The first tier with a hit; with `free`, of the free tier and nameless ones only.
first_hit : GoLib → WebLib → Bool → List Value → Option Ineligible
unfolding check_tier
first_hit go web free [] = none
first_hit go web free (raw ∷ tiers) =
    let rest = first_hit go web free tiers in
    let id = go.to_lower (trim_space (get_string (tier_of raw) "tierId")) in
    let found = check_tier go web (tier_of raw) in
    if free && not (id == "") && not (id == "free-tier")
    then rest
    else if is_some found
    then found
    else rest

unfoldable pub eligibility_from_load : GoLib → WebLib → Fields → Option Ineligible
unfolding first_hit allowed_tier_id extract_cloud_project
eligibility_from_load go web info =
    let project = extract_cloud_project (get_field "cloudaicompanionProject" info) in
    let has_tier =
      is_some (get_map (get_field "currentTier" info))
      || is_some (get_map (get_field "paidTier" info)) in
    let tiers = get_slice (get_field "ineligibleTiers" info) in
    if not (project == "") && has_tier || not (allowed_tier_id go info == "")
    then none
    else elim (first_hit go web true tiers) [
      | none ↦ first_hit go web false tiers
      | some found ↦ some found
    ]

-- (*eligibilityError).record
unfoldable pub eligibility_record : GoLib → Time → Ineligible → Fields
eligibility_record go now e = field "state" (text "verify_required") (
    field "reason" (text e.reason) (
      field "message" (text e.message)
        (field "url" (text e.url) (field "checked_at" (text (iso_time go now)) end))))

unfoldable pub account_eligibility : GoLib → WebLib → Account → Option Ineligible
unfolding safe_google_url
account_eligibility go web account =
    let stored = fields_or_end (get_map (get_field "eligibility" account)) in
    if not (get_string stored "state" == "verify_required")
    then none
    else some (record {
      reason = clean_text go (get_string stored "reason");
      message = clean_text go (get_string stored "message");
      url = safe_google_url go web (get_string stored "url");
    })
