-- ===== src/Quota/Fetch.antt =====
-- internal/app/quota.go: `Fetch`, one read of an account's quota. Google's API and the
-- exchange of a token (accessTokenData of oauth.go, an HTTP call) are parameters over a state of their own. The
-- clock is read at the memo (`now`) and after the answers (`later`). `api` is the API for an access token. Diagnostics are off: they print, and load the model list earlier.
pub mod Remembered
use agy_swap.Prelude.{
  ℕ, ◌-◌, ◌+◌, String, Bool, not, List, [], ◌∷◌, Option, none, some, if◌then◌else◌, ◌==◌, map, suc,
  nat_eq,
}
use agy_swap.Prelude.Int.{ℤ, pos, negsuc}
use agy_swap.Value.{
  Value, Items, nil, cons, Fields, Account, text, number, object, array, end, field, get_field,
  get_map, get_slice, get_string, first_string, set_field, delete_field, fields_or_end,
}
use agy_swap.GoLib.{GoLib}
use agy_swap.Clock.{Time, parse_utc, iso_time}
use agy_swap.Email.{clean_text}
use agy_swap.Errors.{
  GoError, Ineligible, ineligible, plain, Result, ok, err, mark_eligibility_passed,
}
use agy_swap.Errors.Eligibility.{WebLib, eligibility_from_load, extract_cloud_project}
use agy_swap.Vault.{AccountVault}
use agy_swap.Vault.Secret.{account_token, remember_token_expiry}
use agy_swap.Session.Switch.{token_matches_email}
use agy_swap.Store.Snapshot.{normalize_quota_snapshot}
use agy_swap.Quota.Pools.{has_quota_group}
use agy_swap.Quota.Service.{
  QuotaService, QuotaProject, remembered_project, remember_project, forget_project,
}
use agy_swap.Quota.Onboard.{CloudApi, ineligible_or, onboard_project}
use agy_swap.Quota.Summary.{
  PoolBucket, PoolGroup, quota_groups_from_summary, gemini_group_from_models,
}
use agy_swap.Quota.Saved.{shift_quota_resets, group_items}

-- tierNames[id], or "" for an id that it does not have
abbrev tier_names : String → String
tier_names id =
    if id == "free-tier"
    then "Free"
    else if id == "g1-pro-tier"
    then "Google AI Pro"
    else if id == "g1-ultra-tier"
    then "Google AI Ultra"
    else if id == "g1-ultra-lite-tier"
    then "Google AI Ultra Lite"
    else ""

abbrev tier_name : GoLib → Fields → String → String
tier_name go tier id =
    let known = tier_names id in
    if known == "" then clean_text go (first_string (get_field "name" tier) id) else known

abbrev marked : GoError → GoError
marked e = elim (mark_eligibility_passed (some e)) [ none ↦ e | some m ↦ m ]

abbrev first_of_tiers : Option Fields → Option Fields → Option Fields
first_of_tiers none second = second
first_of_tiers (some tier) second = some tier

abbrev add_gemini : Option PoolGroup → List PoolGroup → List PoolGroup
add_gemini none groups = groups
add_gemini (some gemini) groups = gemini ∷ groups

-- What a read leaves behind.
pub record Reading (W : Type 0) : Type 0 where
  pub answer : Result Fields
  pub service : QuotaService
  pub cloud : W

checked_project : Fields → String → Option Fields → Result (String × Option Fields)
checked_project info project onboarded =
    if project == ""
    then err (plain "Google returned no Code Assist project")
    else ok (
      project,
      first_of_tiers (get_map (get_field "paidTier" info))
          (first_of_tiers (get_map (get_field "currentTier" info)) onboarded),
    )

after_onboarding : Fields → Result (String × Option Fields) → Result (String × Option Fields)
unfolding checked_project
after_onboarding info (err e) = err e
after_onboarding info (ok (project, tier)) = checked_project info project tier

snapshot_fields : GoLib → Time → String → String → List PoolGroup → Fields
unfolding group_items
snapshot_fields go now id name groups = field "observed_at" (text (iso_time go now)) (
    field "tier" (object (field "id" (text id) (field "name" (text name) end)))
      (field "groups" (array (group_items groups)) end))

module _ {W : Type 0} (go : GoLib) (web : WebLib) (api : CloudApi W) (now later : Time)
    (skew : ℤ) where
  eligible_project : Fields → Option Ineligible → W → Result (String × Option Fields) × W
  unfolding checked_project after_onboarding
  eligible_project info (some found) w = (err (ineligible found), w)
  eligible_project info none w =
      let project = extract_cloud_project (get_field "cloudaicompanionProject" info) in
      let (onboarded, w') = onboard_project go web api info w in
      if project == ""
      then (after_onboarding info onboarded, w')
      else (checked_project info project none, w)

  project_of_load : Result Fields → W → Result (String × Option Fields) × W
  unfolding eligible_project
  project_of_load (err e) w = (err (ineligible_or go web e), w)
  project_of_load (ok info) w = eligible_project info (eligibility_from_load go web info) w

  -- The project and the tier of an account that is not remembered.
  unfoldable pub load_project : W → Result (String × Option Fields) × W
  unfolding project_of_load
  load_project w =
      let (info, w') =
        api.post w "loadCodeAssist"
          (field "metadata" (object (field "ideType" (text "ANTIGRAVITY") end)) end) in
      project_of_load info w'

  keep_snapshot : String → QuotaService → W → Result Fields → Reading W
  keep_snapshot email q w (ok s) = record { answer = ok s; service = q; cloud = w }
  keep_snapshot email q w (err e) = record {
    answer = err (marked e);
    service = forget_project q email;
    cloud = w;
  }

  read_groups : String → String → String → List PoolGroup → QuotaService → W → Reading W
  unfolding keep_snapshot snapshot_fields
  read_groups email id name [] q w = record {
    answer = err (marked (plain "Google returned no quota groups"));
    service = q;
    cloud = w;
  }
  read_groups email id name (g ∷ groups) q w = keep_snapshot email q w (
      normalize_quota_snapshot go email
        (object (snapshot_fields go later id name (shift_quota_resets go skew (g ∷ groups)))))

  models_of : Result Fields → Option PoolGroup
  models_of (err e) = none
  models_of (ok list) = gemini_group_from_models go list later

  -- The model list is only asked for where the summary has no Gemini group.
  complete_groups : String → List PoolGroup → W → List PoolGroup × W
  unfolding models_of
  complete_groups project groups w =
      let (models, w') = api.post w "fetchAvailableModels" (field "project" (text project) end) in
      if has_quota_group (get_slice (some (array (group_items groups)))) "gemini"
      then (groups, w)
      else (add_gemini (models_of models) groups, w')

  -- `memo` is the project that was remembered or loaded.
  read_summary : String → Bool → QuotaProject → QuotaService → Result Fields → W → Reading W
  unfolding complete_groups read_groups
  read_summary email remembered memo q (err e) w = record {
    answer = err (marked (ineligible_or go web e));
    service = forget_project q email;
    cloud = w;
  }
  read_summary email remembered memo q (ok summary) w =
      let tier = fields_or_end memo.tier in
      let id = clean_text go (get_string tier "id") in
      let (groups, w') = complete_groups memo.project (quota_groups_from_summary go summary) w in
      let kept : QuotaService = if remembered then q else remember_project q later email memo in
      if id == ""
      then record {
        answer = err (marked (plain "Google returned no account tier"));
        service = forget_project q email;
        cloud = w;
      }
      else read_groups email id (tier_name go tier id) groups kept w'

  ask_summary : String → Bool → QuotaProject → QuotaService → W → Reading W
  unfolding read_summary
  ask_summary email remembered memo q w =
      let (summary, w') =
        api.post w "retrieveUserQuotaSummary" (field "project" (text memo.project) end) in
      read_summary email remembered memo q summary w'

  after_load : String → QuotaService → Result (String × Option Fields) → W → Reading W
  unfolding ask_summary
  after_load email q (err e) w = record { answer = err e; service = q; cloud = w }
  after_load email q (ok (project, tier)) w =
      ask_summary email Bool.false (record { project = project; tier = tier; at = later }) q w

  after_memo : String → QuotaService → W → Option QuotaProject → Reading W
  unfolding ask_summary after_load load_project
  after_memo email q w (some memo) = ask_summary email Bool.true memo q w
  after_memo email q w none = let (loaded, w') = load_project w in after_load email q loaded w'

  -- Fetch, once the account has a token of Google.
  unfoldable pub read_quota : String → QuotaService → W → Reading W
  unfolding after_memo
  read_quota email q w = after_memo email q w (remembered_project q now email)

pub record Fetched (S W : Type 0) : Type 0 where
  pub account : Account
  pub vault : S
  pub reading : Reading W

-- A refreshed token is kept in the account, not in the vault.
unfoldable pub keep_refreshed : GoLib → Account → String → String → Account
keep_refreshed go account token refreshed =
    if refreshed == token
    then account
    else remember_token_expiry go
        (delete_field "secret_ref" (set_field "token_data" (text refreshed) account)) refreshed

module _ {S W : Type 0} (go : GoLib) (web : WebLib) (api : String → CloudApi W) (now later : Time)
    (skew : ℤ) where
  -- The answer of accessTokenData: the access token, and the token data to keep.
  after_exchange : Account → String → QuotaService → Result (String × String) → S → W → Fetched S W
  unfolding keep_refreshed
  after_exchange account token q (err e) s w = record {
    account = account;
    vault = s;
    reading = record { answer = err e; service = q; cloud = w };
  }
  after_exchange account token q (ok (access, refreshed)) s w =
      let email = get_string account "email" in
      if token_matches_email go refreshed email
      then record {
        account = keep_refreshed go account token refreshed;
        vault = s;
        reading = read_quota go web (api access) now later skew email q w;
      }
      else record {
        account = account;
        vault = s;
        reading = record {
          answer = err (plain "refreshed token identity does not match the account");
          service = q;
          cloud = w;
        };
      }

  with_token :
      (W → String → Result (String × String) × W)
      → Account
      → QuotaService
      → Result String
      → S
      → W
      → Fetched S W
  unfolding after_exchange
  with_token exchange account q (err e) s w = record {
    account = account;
    vault = s;
    reading = record { answer = err e; service = q; cloud = w };
  }
  with_token exchange account q (ok token) s w =
      let (answer, w') = exchange w token in after_exchange account token q answer s w'

  unfoldable pub fetch :
      (W → String → Result (String × String) × W)
      → Option (AccountVault S)
      → Account
      → QuotaService
      → S
      → W
      → Fetched S W
  unfolding with_token
  fetch exchange vault account q s w =
      let (token, s') = account_token go vault s account in with_token exchange account q token s' w
