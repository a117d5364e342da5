-- ===== src/Quota/Refresh.antt =====
-- internal/app/quota.go: `refreshWhere`, which reads the quota of several accounts at once. The workers run
-- `Fetch` on copies of the accounts; what they return comes in any order, so the results are a list in the
-- order of their arrival. `progress` prints, and is not modelled.
pub mod Answered
use agy_swap.Prelude.{
  ℕ, ◌*◌, ◌-◌, String, Bool, true, false, not, ◌&&◌, ◌||◌, List, [], ◌∷◌, ◌++◌, Option, none, some,
  if◌then◌else◌, ◌==◌, ltb, is_some,
}
use agy_swap.Prelude.Map
use agy_swap.Prelude.Map.{Map}
use agy_swap.Value.{
  Value, Account, Fields, text, object, end, get_field, set_field, delete_field, get_string,
  fields_or_end,
}
use agy_swap.GoLib.{GoLib}
use agy_swap.Clock.{Time, second}
use agy_swap.Errors.{
  GoError, Ineligible, Result, ok, err, as_ineligible, should_clear_eligibility, error_text,
}
use agy_swap.Errors.Eligibility.{eligibility_record}
use agy_swap.Token.{hash_token}
use agy_swap.Accounts.{Accounts}
use agy_swap.Vault.{AccountVault}
use agy_swap.Vault.Secret.{
  Saved, save_account_secret, remember_token_expiry, restore_keys, delete_replaced_secrets,
}
use agy_swap.Vault.Migrate.{AccountStore}
use agy_swap.Quota.Schedule.{observed_at}
use agy_swap.Quota.Service.{QuotaService, note_read}

abbrev quota_cache : ℕ
quota_cache = 60 * second

abbrev quota_due_slack : ℕ
quota_due_slack = 5 * second

-- An age is not negative: `-` stops at 0, as the code does.
unfoldable pub quota_age : GoLib → Account → Time → Option ℕ
unfolding observed_at
quota_age go account now = elim (observed_at go account) [
  | none ↦ none
  | some observed ↦ some (now - observed)
]

-- The snapshot is young enough to be left as it is.
unfoldable pub is_cached : GoLib → Account → Time → Bool → Bool
unfolding quota_age
is_cached go account now force = elim (quota_age go account now) [
  | none ↦ false
  | some age ↦ not force && ltb age (quota_cache - quota_due_slack)
]

abbrev pub original_of : Map Account → String → Account
original_of by_email email = fields_or_end (Map.get email by_email)

-- The accounts that are read, in the order of the saved accounts.
unfoldable pub to_fetch :
    GoLib → Map Account → Time → Bool → (String → Bool) → List String → List String
unfolding is_cached
to_fetch go by_email now force pick [] = []
to_fetch go by_email now force pick (email ∷ emails) =
    let rest = to_fetch go by_email now force pick emails in
    if pick email && not (is_cached go (original_of by_email email) now force)
    then email ∷ rest
    else rest

-- What a worker returns: the copy of the account that it worked on, and a snapshot or an error.
pub record Answer : Type 0 where
  pub email : String
  pub account : Account
  pub read : Result Fields

pub record Refresh (S : Type 0) : Type 0 where
  pub by_email : Map Account
  pub errors : Map String
  pub replaced : List String
  pub changed : Bool
  pub service : QuotaService
  pub vault : S

abbrev copied_keys : List String
copied_keys = "secret_ref" ∷ "token_data" ∷ "token_hash" ∷ "access_expires_at" ∷ []

abbrev storage_message : String
storage_message = "Vault unavailable; refreshed token stored in private accounts file"

abbrev error_of : Result Fields → Option GoError
error_of (ok snapshot) = none
error_of (err e) = some e

-- The stored record of an account that must be verified.
with_eligibility : GoLib → Time → Option GoError → Option Ineligible → Account → Account × Bool
with_eligibility go now e (some found) original =
    (set_field "eligibility" (object (eligibility_record go now found)) original, true)
with_eligibility go now e none original =
    if should_clear_eligibility go e && is_some (get_field "eligibility" original)
    then (delete_field "eligibility" original, true)
    else (original, false)

abbrev ineligible_of : Option GoError → Option Ineligible
ineligible_of none = none
ineligible_of (some e) = as_ineligible e

module _ {S : Type 0} (go : GoLib) where
  -- The copy's new token is saved; the original takes over where it is kept.
  saved_copy : Option (AccountVault S) → Account → String → Refresh S → Account × Refresh S
  saved_copy none account token r = (
    remember_token_expiry go (set_field "token_hash" (text (hash_token go token)) account) token,
    r,
  )
  saved_copy (some v) account token r =
      let saved = save_account_secret go (some v) r.vault account token in
      (
        saved.account,
        record r {
          vault = saved.vault;
          replaced =
              if saved.stored && not (saved.replaced == "")
              then r.replaced ++ saved.replaced ∷ []
              else r.replaced;
          errors = if saved.stored then r.errors else Map.insert "storage" storage_message r.errors;
        },
      )

  with_new_token : Option (AccountVault S) → Answer → Account → Refresh S → Account × Refresh S
  unfolding saved_copy restore_keys
  with_new_token vault a original r =
      let updated = get_string a.account "token_data" in
      let (account, r') = saved_copy vault a.account updated r in
      if not (updated == "") && not (updated == get_string original "token_data")
      then (restore_keys copied_keys original account, record r' { changed = true })
      else (original, r)

  with_read : String → Result Fields → Account → Refresh S → Refresh S
  with_read email (err e) original r = record r {
    by_email = Map.insert email original r.by_email;
    errors = Map.insert email (error_text go e) r.errors;
  }
  with_read email (ok snapshot) original r = record r {
    by_email = Map.insert email (set_field "quota_snapshot" (object snapshot) original) r.by_email;
    changed = true;
  }

  -- The account, and what is known, before the answer itself is looked at.
  before_read : (ℕ → ℕ) → Option (AccountVault S) → Time → Answer → Refresh S → Account × Refresh S
  unfolding with_new_token with_eligibility
  before_read jitter vault now a r =
      let e = error_of a.read in
      let (original, r1) = with_new_token vault a (original_of r.by_email a.email) r in
      let (original', changed) = with_eligibility go now e (ineligible_of e) original in
      (
        original',
        record r1 {
          changed = r1.changed || changed;
          service = note_read jitter r1.service now a.email e;
        },
      )

  -- One turn of the loop over the results.
  unfoldable pub apply_answer :
      (ℕ → ℕ) → Option (AccountVault S) → Time → Answer → Refresh S → Refresh S
  unfolding before_read with_read
  apply_answer jitter vault now a r =
      let (original, r') = before_read jitter vault now a r in with_read a.email a.read original r'

  unfoldable pub apply_answers :
      (ℕ → ℕ) → Option (AccountVault S) → Time → List Answer → Refresh S → Refresh S
  unfolding apply_answer
  apply_answers jitter vault now [] r = r
  apply_answers jitter vault now (a ∷ answers) r =
      apply_answers jitter vault now answers (apply_answer jitter vault now a r)

-- Store.Save, which changes the accounts that it is given.
pub record QuotaStore (T : Type 0) : Type 0 where
  pub save : T → Accounts → Option GoError × (Accounts × T)

pub record Refreshed (S T : Type 0) : Type 0 where
  pub accounts : Accounts
  pub errors : Map String
  pub service : QuotaService
  pub vault : S
  pub store : T

module _ {S T : Type 0} (go : GoLib) (store : QuotaStore T) where
  delete_replaced : Option (AccountVault S) → S → List String → S
  delete_replaced none s refs = s
  delete_replaced (some v) s refs = delete_replaced_secrets v s refs

  save_refresh : Option (AccountVault S) → Accounts → T → Refresh S → Refreshed S T
  unfolding delete_replaced
  save_refresh vault accounts t r =
      let (failed, (accounts', t')) = store.save t (record accounts { by_email = r.by_email }) in
      let base : Refreshed S T = record {
        accounts = accounts';
        errors = r.errors;
        service = r.service;
        vault = r.vault;
        store = t';
      } in
      elim failed [
        | some e ↦ record base { errors = Map.insert "store" (error_text go e) r.errors }
        | none ↦ record base { vault = delete_replaced vault r.vault r.replaced }
      ]

  -- `work` is what the workers return for these accounts.
  unfoldable pub refresh_where :
      (ℕ → ℕ)
      → Option (AccountVault S)
      → (List String → List Answer)
      → Time
      → Bool
      → (String → Bool)
      → Accounts
      → QuotaService
      → S
      → T
      → Refreshed S T
  unfolding save_refresh apply_answers to_fetch
  refresh_where jitter vault work now force pick accounts q s t =
      let answers = work (to_fetch go accounts.by_email now force pick accounts.order) in
      let r = apply_answers go jitter vault now answers (record {
        by_email = accounts.by_email;
        errors = Map.empty;
        replaced = [];
        changed = false;
        service = q;
        vault = s;
      }) in
      if r.changed then save_refresh vault accounts t r else record {
        accounts = record accounts { by_email = r.by_email };
        errors = r.errors;
        service = r.service;
        vault = r.vault;
        store = t;
      }
