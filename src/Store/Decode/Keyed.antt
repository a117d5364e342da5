-- ===== src/Store/Decode/Keyed.antt =====
-- internal/app/model.go: what `decode_ordered_accounts` lets through.
use mathlib.Core.Path.{subst}
use agy_swap.Prelude.{
  String, ◌≡◌, refl, List, [], ◌∷◌, Option, none, some, is_some, ◌==◌, eq_iff, arith, Bool-cases,
  inl, inr,
}
use agy_swap.Prelude.Map.{get-empty}
use agy_swap.Value.{
  Value, Account, Fields, null, boolean, number, json_number, array, text, object, end, field,
  get_field, get_string, first_string, get-set, get-delete,
}
use agy_swap.GoLib.{GoLib}
use agy_swap.Email.{normalize_email}
use agy_swap.Accounts.{Accounts, new_accounts, get}
use agy_swap.Accounts.Laws.{
  IsConsistent, new-IsConsistent, set-IsConsistent, get-set as get-set_account,
}
use agy_swap.Errors.{Result, ok, err, and_then, Result-cases}
use agy_swap.Store.Limits.{normalize_quota_limits, limits_of, store_limits, normal_limits}
use agy_swap.Store.Snapshot.{normalize_quota_snapshot}
use agy_swap.Store.Decode.{
  check_token, decode_saved_token, check_legacy, put_snapshot, check_snapshot, named_account,
  decode_account, add_account, decode_entry, decode_entries, decode_ordered_accounts,
}

-- A result, if there is one, has the text `email` as its email.
abbrev HasEmail : String → Result Account → Type 0
HasEmail email (err e) = Unit
HasEmail email (ok account) = get_string account "email" ≡ email

and_then-HasEmail :
    (email : String) (r : Result Account) (f : Account → Result Account)
    → HasEmail email r
    → ((a : Account) → get_string a "email" ≡ email → HasEmail email (f a))
    → HasEmail email (and_then r f)
and_then-HasEmail email (err e) f h step = tt
and_then-HasEmail email (ok a) f h step = step a h

saved_token-HasEmail :
    (go : GoLib) (email : String) (v : Option Value) (a : Account)
    → get_string a "email" ≡ email
    → HasEmail email (decode_saved_token go email v a)
unfolding decode_saved_token check_token
saved_token-HasEmail go email v a h = ground arith

store_limits-HasEmail :
    (email : String) (r : Result Fields) (a : Account)
    → get_string a "email" ≡ email
    → HasEmail email (store_limits a r)
unfolding store_limits
store_limits-HasEmail email (err e) a h = tt
store_limits-HasEmail email (ok end) a h = rw (get-delete "quota_limits" "email" a) h
store_limits-HasEmail email (ok (field k v rest)) a h =
    rw (get-set "quota_limits" "email" (object (field k v rest)) a) h

limits-HasEmail :
    (go : GoLib) (email : String) (a : Account)
    → get_string a "email" ≡ email
    → HasEmail email (normalize_quota_limits go email a)
limits-HasEmail go email a h =
    unfold normalize_quota_limits in by_value (get_field "quota_limits" a)
  where
    by_value : (v : Option Value) → HasEmail email (limits_of go email a v)
    by_value none = unfold limits_of in h
    by_value (some null) = unfold limits_of in h
    by_value (some (boolean b)) = unfold limits_of in tt
    by_value (some (number n)) = unfold limits_of in tt
    by_value (some (json_number s)) = unfold limits_of in tt
    by_value (some (text s)) = unfold limits_of in tt
    by_value (some (array vs)) = unfold limits_of in tt
    by_value (some (object limits)) =
        unfold limits_of in store_limits-HasEmail email (normal_limits go email limits) a h

legacy-HasEmail :
    (email : String) (v : Option Value) (a : Account)
    → get_string a "email" ≡ email
    → HasEmail email (check_legacy email v a)
unfolding check_legacy
legacy-HasEmail email v a h = ground arith

snapshot-HasEmail :
    (go : GoLib) (email : String) (v : Option Value) (a : Account)
    → get_string a "email" ≡ email
    → HasEmail email (check_snapshot go email v a)
unfolding check_snapshot put_snapshot
snapshot-HasEmail go email none a h = h
snapshot-HasEmail go email (some raw) a h =
    elim (Result-cases (normalize_quota_snapshot go email raw)) [
      | inl (e, failed) ↦ rw failed tt
      | inr (s, done) ↦ rw (done, get-set "quota_snapshot" "email" (object s) a) h
    ]

named-HasEmail :
    (go : GoLib) (email : String) (account : Account)
    → get_string (named_account go email account) "email" ≡ email
unfolding named_account
named-HasEmail go email account = simp get-set refl

decode_account-HasEmail :
    (go : GoLib) (email : String) (account : Account)
    → HasEmail email (decode_account go email account)
unfolding decode_account
decode_account-HasEmail go email account =
    let named = named_account go email account in
    let snapshot : Account → Result Account =
      λ c. check_snapshot go email (get_field "quota_snapshot" c) c in
    let legacy : Account → Result Account =
      λ b. and_then (check_legacy email (get_field "legacy_quota" b) b) snapshot in
    let limits : Account → Result Account =
      λ a. and_then (normalize_quota_limits go email a) legacy in
    and_then-HasEmail email (decode_saved_token go email (get_field "token_data" named) named)
      limits
      (saved_token-HasEmail go email (get_field "token_data" named) named
        (named-HasEmail go email account))
      (λ a ha.
        and_then-HasEmail email (normalize_quota_limits go email a) legacy
          (limits-HasEmail go email a ha)
          (λ b hb.
            and_then-HasEmail email (check_legacy email (get_field "legacy_quota" b) b) snapshot
              (legacy-HasEmail email (get_field "legacy_quota" b) b hb)
              (λ c hc. snapshot-HasEmail go email (get_field "quota_snapshot" c) c hc)))

-- Every account is listed under the email that it holds.
pub record IsKeyed (accounts : Accounts) : Type 0 where
  pub consistent : IsConsistent accounts
  pub email_of :
      (email : String) (account : Account)
      → get accounts email ≡ some account
      → get_string account "email" ≡ email

abbrev IsKeyedResult : Result Accounts → Type 0
IsKeyedResult (err e) = Unit
IsKeyedResult (ok accounts) = IsKeyed accounts

new-IsKeyed : IsKeyed new_accounts
unfolding new_accounts get
new-IsKeyed = record {
  consistent = new-IsConsistent;
  email_of = λ email account h. absurd (ground (arith, get-empty {V = Account} email));
}

add-IsKeyed :
    (accounts : Accounts) (email : String) (r : Result Account)
    → IsKeyed accounts
    → HasEmail email r
    → IsKeyedResult (add_account accounts email r)
unfolding add_account
add-IsKeyed accounts email (err e) k h = tt
add-IsKeyed accounts email (ok account) k h = record {
  consistent = set-IsConsistent accounts email account k.consistent;
  email_of = λ j a at.
      ground (arith, h, k.email_of j a, get-set_account accounts email j account, eq_iff email j);
}

entry-IsKeyed :
    (go : GoLib) (accounts : Accounts) (key : String) (v : Value)
    → IsKeyed accounts
    → IsKeyedResult (decode_entry go accounts key v)
unfolding decode_entry
entry-IsKeyed go accounts key null k = tt
entry-IsKeyed go accounts key (boolean b) k = tt
entry-IsKeyed go accounts key (number n) k = tt
entry-IsKeyed go accounts key (json_number s) k = tt
entry-IsKeyed go accounts key (text s) k = tt
entry-IsKeyed go accounts key (array vs) k = tt
entry-IsKeyed go accounts key (object account) k =
    let email = normalize_email go (first_string (get_field "email" account) key) in
    elim (Bool-cases (email == "")) [
      | inl blank ↦ rw blank tt
      | inr named ↦ rw named (elim (Bool-cases (is_some (get accounts email))) [
        | inl known ↦ rw known tt
        | inr new ↦
            rw new (add-IsKeyed accounts email _ k (decode_account-HasEmail go email account))
      ])
    ]

entries-IsKeyed :
    (go : GoLib) (entries : List (String × Value)) (accounts : Accounts)
    → IsKeyed accounts
    → IsKeyedResult (decode_entries go entries accounts)
unfolding decode_entries
entries-IsKeyed go [] accounts k = k
entries-IsKeyed go ((key, v) ∷ entries) accounts k =
    elim (Result-cases (decode_entry go accounts key v)) [
      | inl (e, failed) ↦ rw failed tt
      | inr (next, done) ↦ rw done (
          entries-IsKeyed go entries next
            (subst IsKeyedResult done (entry-IsKeyed go accounts key v k)))
    ]

-- Accounts that are read from a file list every email once, hold an account for exactly the emails that
-- they list, and each account names the email under which it is listed, whatever the file said.
pub decode_ordered_accounts-IsKeyed :
    (go : GoLib) (entries : List (String × Value)) (accounts : Accounts)
    → decode_ordered_accounts go entries ≡ ok accounts
    → IsKeyed accounts
unfolding decode_ordered_accounts
decode_ordered_accounts-IsKeyed go entries accounts h =
    subst IsKeyedResult h (entries-IsKeyed go entries new_accounts new-IsKeyed)
