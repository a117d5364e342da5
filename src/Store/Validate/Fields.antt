-- ===== src/Store/Validate/Fields.antt =====
-- internal/app/store.go: which fields of an account `validateAccounts` changes.
use agy_swap.Prelude.{
  String, Bool, true, false, ◌&&◌, ◌||◌, Option, none, some, ◌≡◌, ◌⊎◌, inl, inr, refl, sym, ◌∙◌, ap,
  ◌==◌, arith, is_some, eq_iff,
}
use agy_swap.Value.{
  Value, Account, Fields, null, boolean, number, json_number, text, array, object, end, field,
  get_field, set_field, delete_field, get-set, get-delete,
}
use agy_swap.GoLib.{GoLib}
use agy_swap.Errors.{Result, ok, err, and_then, and_then-ok, ok-inj, Result-cases}
use agy_swap.Token.{decode_token, extract_email_hint}
use agy_swap.Store.Limits.{store_limits, limits_of, normal_limits, normalize_quota_limits}
use agy_swap.Store.Decode.{check_token, check_snapshot, put_snapshot}
use agy_swap.Store.Snapshot.{normalize_quota_snapshot}
use agy_swap.Store.Snapshot.Shape.{IsSnapshot, normalize_quota_snapshot-IsSnapshot}
use agy_swap.Store.Validate.{valid_token, fill_names, validate_account, refused_account}

-- The fields that a check completes or replaces.
abbrev pub is_checked_field : String → Bool
is_checked_field key =
    key == "email" || key == "name" || key == "quota_limits" || key == "quota_snapshot"

-- A saved token decodes, and names no other address than the account's.
abbrev pub is_saved_token : GoLib → String → Option Value → Bool
is_saved_token go email (some (text token)) =
    is_some (decode_token go token)
    && (extract_email_hint go token == "" || extract_email_hint go token == email)
is_saved_token go email _ = true

check_token-ok :
    (go : GoLib) (email token : String) (a b : Account)
    → check_token go email token a ≡ ok b
    → (a ≡ b) × (is_saved_token go email (some (text token)) ≡ true)
unfolding check_token
check_token-ok go email token a b h = (ground arith, ground arith)

valid_token-ok :
    (go : GoLib) (email : String) (o : Option Value) (a b : Account)
    → valid_token go email o a ≡ ok b
    → (a ≡ b) × (is_saved_token go email o ≡ true)
unfolding valid_token
valid_token-ok go email none a b h = (ok-inj a b h, refl)
valid_token-ok go email (some null) a b h = (ok-inj a b h, refl)
valid_token-ok go email (some (boolean x)) a b h = (ok-inj a b h, refl)
valid_token-ok go email (some (number x)) a b h = (ok-inj a b h, refl)
valid_token-ok go email (some (json_number x)) a b h = (ok-inj a b h, refl)
valid_token-ok go email (some (text x)) a b h = check_token-ok go email x a b h
valid_token-ok go email (some (array x)) a b h = (ok-inj a b h, refl)
valid_token-ok go email (some (object x)) a b h = (ok-inj a b h, refl)

store_limits-field :
    (a b : Account) (r : Result Fields) (key : String)
    → store_limits a r ≡ ok b
    → key == "quota_limits" ≡ false
    → get_field key b ≡ get_field key a
unfolding store_limits
store_limits-field a b (err e) key h ne = absurd (ground arith)
store_limits-field a b (ok end) key h ne =
    ap (get_field key) (sym (ok-inj (delete_field "quota_limits" a) b h))
    ∙ ground (
      arith,
      get-delete "quota_limits" key a,
      eq_iff "quota_limits" key,
      eq_iff key "quota_limits",
    )
store_limits-field a b (ok (field k v rest)) key h ne =
    ap (get_field key) (sym (ok-inj (set_field "quota_limits" (object (field k v rest)) a) b h))
    ∙ ground (
      arith,
      get-set "quota_limits" key (object (field k v rest)) a,
      eq_iff "quota_limits" key,
      eq_iff key "quota_limits",
    )

limits_of-field :
    (go : GoLib) (email : String) (a b : Account) (o : Option Value) (key : String)
    → limits_of go email a o ≡ ok b
    → key == "quota_limits" ≡ false
    → get_field key b ≡ get_field key a
unfolding limits_of
limits_of-field go email a b none key h ne = ap (get_field key) (sym (ok-inj a b h))
limits_of-field go email a b (some null) key h ne = ap (get_field key) (sym (ok-inj a b h))
limits_of-field go email a b (some (object m)) key h ne =
    store_limits-field a b (normal_limits go email m) key h ne
limits_of-field go email a b (some (boolean x)) key h ne = absurd (ground arith)
limits_of-field go email a b (some (number x)) key h ne = absurd (ground arith)
limits_of-field go email a b (some (json_number x)) key h ne = absurd (ground arith)
limits_of-field go email a b (some (text x)) key h ne = absurd (ground arith)
limits_of-field go email a b (some (array x)) key h ne = absurd (ground arith)

normalize_quota_limits-field :
    (go : GoLib) (email : String) (a b : Account) (key : String)
    → normalize_quota_limits go email a ≡ ok b
    → key == "quota_limits" ≡ false
    → get_field key b ≡ get_field key a
unfolding normalize_quota_limits
normalize_quota_limits-field go email a b key h ne = limits_of-field go email a b _ key h ne

-- The snapshot of an accepted account, if it has one, is well-formed; no other field is changed.
check_snapshot-ok :
    (go : GoLib) (email : String) (o : Option Value) (a b : Account)
    → check_snapshot go email o a ≡ ok b
    → ((o ≡ none) × (b ≡ a))
      ⊎ ((s : Fields) × (b ≡ set_field "quota_snapshot" (object s) a) × IsSnapshot go s)
unfolding check_snapshot put_snapshot
check_snapshot-ok go email none a b h = inl (refl, sym (ok-inj a b h))
check_snapshot-ok go email (some raw) a b h =
    elim (Result-cases (normalize_quota_snapshot go email raw)) [
      | inl (e, bad) ↦ absurd (ground arith)
      | inr (s, good) ↦
          inr (s, ground arith, normalize_quota_snapshot-IsSnapshot go email raw s good)
    ]

pub fill_names-field :
    (email : String) (account : Account) (key : String)
    → (key == "email" || key == "name") ≡ false
    → get_field key (fill_names email account) ≡ get_field key account
unfolding fill_names
fill_names-field email account key ne =
    let named = set_field "email" (text email) account in
    get-set "name" key _ named
    ∙ ground (
      arith,
      ne,
      get-set "email" key (text email) account,
      eq_iff "name" key,
      eq_iff key "name",
      eq_iff "email" key,
      eq_iff key "email",
    )

fill_names-email :
    (email : String) (account : Account)
    → get_field "email" (fill_names email account) ≡ some (text email)
unfolding fill_names
fill_names-email email account =
    get-set "name" "email" _ (set_field "email" (text email) account)
    ∙ get-set "email" "email" (text email) account

-- An account that is accepted: it has its address, its saved token fits, and its snapshot is well-formed.
pub record IsValid (go : GoLib) (email : String) (old new : Account) : Type 0 where
  pub address : get_field "email" new ≡ some (text email)
  pub token : is_saved_token go email (get_field "token_data" old) ≡ true
  pub same_token : get_field "token_data" new ≡ get_field "token_data" old
  pub snapshot :
      (get_field "quota_snapshot" new ≡ none)
      ⊎ ((s : Fields) × (get_field "quota_snapshot" new ≡ some (object s)) × IsSnapshot go s)

check_snapshot-field :
    (go : GoLib) (email : String) (o : Option Value) (a b : Account) (key : String)
    → check_snapshot go email o a ≡ ok b
    → key == "quota_snapshot" ≡ false
    → get_field key b ≡ get_field key a
check_snapshot-field go email o a b key h ne = elim (check_snapshot-ok go email o a b h) [
  | inl (missing, same) ↦ ap (get_field key) same
  | inr (s, set, good) ↦
      ap (get_field key) set
      ∙ ground (
        arith,
        get-set "quota_snapshot" key (object s) a,
        eq_iff "quota_snapshot" key,
        eq_iff key "quota_snapshot",
        ne,
      )
]

pub validate_account-field :
    (go : GoLib) (email : String) (old new : Account) (key : String)
    → validate_account go email old ≡ ok new
    → (key == "quota_limits" || key == "quota_snapshot") ≡ false
    → get_field key new ≡ get_field key (fill_names email old)
unfolding validate_account
validate_account-field go email old new key h ne =
    let named = fill_names email old in
    let (a, v, rest) =
      and_then-ok (valid_token go email (get_field "token_data" named) named) _ new h in
    let (b, n, last) = and_then-ok (normalize_quota_limits go email a) _ new rest in
    check_snapshot-field go email _ b new key last (ground arith)
    ∙ normalize_quota_limits-field go email a b key n (ground arith)
    ∙ ap (get_field key) (sym (valid_token-ok go email _ named a v).0)

snapshot_of-new :
    (go : GoLib) (email : String) (b new : Account)
    → check_snapshot go email (get_field "quota_snapshot" b) b ≡ ok new
    → (get_field "quota_snapshot" new ≡ none)
      ⊎ ((s : Fields) × (get_field "quota_snapshot" new ≡ some (object s)) × IsSnapshot go s)
snapshot_of-new go email b new h = elim (check_snapshot-ok go email _ b new h) [
  | inl (missing, same) ↦ inl (ap (get_field "quota_snapshot") same ∙ missing)
  | inr (s, set, good) ↦ inr (
    s,
    ap (get_field "quota_snapshot") set ∙ get-set "quota_snapshot" "quota_snapshot" (object s) b,
    good,
  )
]

pub validate_account-IsValid :
    (go : GoLib) (email : String) (old new : Account)
    → validate_account go email old ≡ ok new
    → IsValid go email old new
unfolding validate_account
validate_account-IsValid go email old new h =
    let named = fill_names email old in
    let (a, v, rest) =
      and_then-ok (valid_token go email (get_field "token_data" named) named) _ new h in
    let (b, n, last) = and_then-ok (normalize_quota_limits go email a) _ new rest in
    let token = fill_names-field email old "token_data" refl in
    record {
      address = validate_account-field go email old new "email" h refl ∙ fill_names-email email old;
      token = ap (is_saved_token go email) (sym token) ∙ (valid_token-ok go email _ named a v).1;
      same_token = validate_account-field go email old new "token_data" h refl ∙ token;
      snapshot = snapshot_of-new go email b new last;
    }

-- What a refusal leaves has the same fields, but for those that are completed or replaced.
pub refused_account-field :
    (go : GoLib) (email : String) (account : Account) (key : String)
    → is_checked_field key ≡ false
    → get_field key (refused_account go email account) ≡ get_field key account
unfolding refused_account
refused_account-field go email account key ne =
    let named = fill_names email account in
    let names = fill_names-field email account key (ground arith) in
    let checked =
      and_then (valid_token go email (get_field "token_data" named) named)
        (λ a. normalize_quota_limits go email a) in
    elim (Result-cases checked) [
      | inl (e, bad) ↦ rw (refused_account, bad) names
      | inr (b, good) ↦
          let (a, v, n) =
            and_then-ok (valid_token go email (get_field "token_data" named) named) _ b good in
          rw (refused_account, good)
            (normalize_quota_limits-field go email a b key n (ground arith)
              ∙ ap (get_field key) (sym (valid_token-ok go email _ named a v).0)
              ∙ names)
    ]
