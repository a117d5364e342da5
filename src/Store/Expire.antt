-- ===== src/Store/Expire.antt =====
-- internal/app/store.go: `migrateAndExpire` and `reconcileLogLimits`, for one account. The loops go
-- through Go maps: each turn looks at and changes its own entry only, so the order does not matter.
pub mod Fresh
use agy_swap.Prelude.{
  ℕ, ◌+◌, ◌*◌, ◌-◌, String, Bool, true, false, not, ◌&&◌, ◌||◌, List, [], ◌∷◌, Option, none, some,
  if◌then◌else◌, ltb, is_some, ◌==◌, nat_eq,
}
use agy_swap.Prelude.Int.{ℤ, pos, negsuc}
use agy_swap.Prelude.Map
use agy_swap.Prelude.Map.{Map}
use agy_swap.Value.{
  Value, Account, Fields, null, text, number, object, end, field, get_field, set_field,
  delete_field, get_map, get_string, fields_or_end,
}
use agy_swap.Value.Numbers.{number_int, unit}
use agy_swap.GoLib.{GoLib}
use agy_swap.Clock.{Time, parse_utc, after, before, minute}

-- 7 * 24 * time.Hour
abbrev pub max_limit_duration : ℕ
max_limit_duration = 7 * 24 * 60 * minute

abbrev pub quota_schema : ℕ
quota_schema = 2

abbrev pub legacy_keys : List String
legacy_keys =
    "limit_reset" ∷ "limit_reset_claude" ∷ "limit_reset_gemini" ∷ "claude_pct" ∷ "gemini_pct" ∷ []

-- The fields of older versions go into a map of their own: that map, and the account.
move_key : String → Option Value → Fields × Account → Fields × Account
move_key key none state = state
move_key key (some value) (legacy, account) = (set_field key value legacy, delete_field key account)

unfoldable pub move_legacy : List String → Fields × Account → Fields × Account
unfolding move_key
move_legacy [] state = state
move_legacy (key ∷ keys) state = move_legacy keys (move_key key (get_field key state.1) state)

keep_legacy : Fields → Account → Account
keep_legacy end account = account
keep_legacy (field key value rest) account =
    set_field "legacy_quota" (object (field key value rest)) account

abbrev is_schema : Option ℤ → Bool
is_schema (some (pos n)) = nat_eq n quota_schema
is_schema _ = false

unfoldable pub migrate_account : GoLib → Account → Account × Bool
unfolding move_legacy keep_legacy
migrate_account go account =
    if is_schema (number_int go (get_field "quota_schema" account))
    then (account, false)
    else let (legacy, moved) =
        move_legacy legacy_keys
          (fields_or_end (get_map (get_field "legacy_quota" account)), account) in
      (
        set_field "quota_schema" (number (pos (quota_schema * unit))) (keep_legacy legacy moved),
        true,
      )

-- A limit that is kept: it resets later than now, and in seven days at most.
unfoldable pub is_current : GoLib → Time → Value → Bool
is_current go now raw =
    elim (parse_utc go (get_string (fields_or_end (get_map (some raw))) "reset_at")) [
      | none ↦ false
      | some reset ↦ after reset now && not (ltb max_limit_duration (reset - now))
    ]

unfoldable pub expire_limits : GoLib → Time → Fields → Fields × Bool
unfolding is_current
expire_limits go now end = (end, false)
expire_limits go now (field key raw limits) =
    let (rest, changed) = expire_limits go now limits in
    if is_current go now raw then (field key raw rest, changed) else (rest, true)

-- `limits` is the map that the account holds, so what is deleted from it is deleted there.
put_limits : Option Fields → Account → Account
put_limits none account = delete_field "quota_limits" account
put_limits (some end) account = delete_field "quota_limits" account
put_limits (some (field key limit rest)) account =
    set_field "quota_limits" (object (field key limit rest)) account

expire_account : GoLib → Time → Option Fields → Account → Account × Bool
unfolding expire_limits put_limits
expire_account go now none account = (put_limits none account, false)
expire_account go now (some limits) account =
    let (kept, changed) = expire_limits go now limits in (put_limits (some kept) account, changed)

unfoldable pub migrate_and_expire : GoLib → Time → Account → Account × Bool
unfolding migrate_account expire_account
migrate_and_expire go now account =
    let (migrated, changed) = migrate_account go account in
    let (kept, expired) =
      expire_account go now (get_map (get_field "quota_limits" migrated)) migrated in
    (kept, changed || expired)

-- A time that cannot be parsed counts as the zero time.
abbrev time_or_zero : Option Time → Time
time_or_zero none = 0
time_or_zero (some t) = t

-- A limit read from a log that the log itself has overtaken. `evidence` gives the time of the last
-- event of a model, and `identity` is modelIdentity.
unfoldable pub is_outdated : GoLib → (String → String) → Map String → Fields → Bool
is_outdated go identity evidence limit =
    if get_string limit "source" == "log"
    then (elim (Map.get (identity (get_string limit "model")) evidence) [
      | none ↦ false
      | some event ↦ not (
          before (time_or_zero (parse_utc go event))
            (time_or_zero (parse_utc go (get_string limit "observed_at"))))
    ])
    else false

unfoldable pub drop_outdated : GoLib → (String → String) → Map String → Fields → Fields × Bool
unfolding is_outdated
drop_outdated go identity evidence end = (end, false)
drop_outdated go identity evidence (field key raw limits) =
    let (rest, changed) = drop_outdated go identity evidence limits in
    if is_outdated go identity evidence (fields_or_end (get_map (some raw)))
    then (rest, true)
    else (field key raw rest, changed)

-- Is the limit that was detected newer than the one that is stored?
unfoldable pub is_newer : GoLib → Option Fields → Fields → Bool
is_newer go none detected = true
is_newer go (some existing) detected = elim (parse_utc go (get_string existing "observed_at")) [
  | none ↦ true
  | some old ↦ after (time_or_zero (parse_utc go (get_string detected "observed_at"))) old
]

-- The limits that were detected, each as the map that LimitRecord.Map makes.
unfoldable pub merge_detected : GoLib → List (String × Fields) → Fields × Bool → Fields × Bool
unfolding is_newer
merge_detected go [] state = state
merge_detected go ((key, detected) ∷ rest) (limits, changed) = merge_detected go rest (
    if is_newer go (get_map (get_field key limits)) detected
    then (set_field key (object detected) limits, true)
    else (limits, changed))

unfoldable pub reconcile_log_limits :
    GoLib → (String → String) → List (String × Fields) → Map String → Account → Account × Bool
unfolding drop_outdated merge_detected put_limits
reconcile_log_limits go identity detected evidence account =
    let (limits, changed) = merge_detected go detected (
      drop_outdated go identity evidence
        (fields_or_end (get_map (get_field "quota_limits" account)))) in
    (put_limits (some limits) account, changed)
