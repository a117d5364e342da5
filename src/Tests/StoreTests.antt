-- ===== src/Tests/StoreTests.antt =====
-- accounts.json, its limits and snapshots, and the restore journal.
use agy_swap.Prelude.{
  ◌*◌, String, ◌≡◌, ◌⊎◌, refl, true, false, List, [], ◌∷◌, Option, none, some, if◌then◌else◌,
  nat_eq, is_some, take, ltb, leb, ◌&&◌, ◌+◌,
}
use agy_swap.Prelude.Int.{pos}
use agy_swap.Prelude.Map
use agy_swap.Prelude.Map.{get-empty, get-insert}
use agy_swap.Prelude.Text.{trim_space, strip_suffix}
use agy_swap.Value.{
  Value, Fields, field, end, text, number, array, object, cons, nil, get_field, get_string, get_map,
  fields_or_end,
}
use agy_swap.Value.Numbers.{unit}
use agy_swap.Clock.{second, minute, parse_utc, iso_time}
use agy_swap.Email.{clean_text}
use agy_swap.Accounts.{Accounts}
use agy_swap.Errors.{ok}
use agy_swap.Files.{written, replaced_then_failed}
use agy_swap.Quota.Pools.{valid_quota_id, valid_quota_window}
use agy_swap.Store.Snapshot.{
  normalize_quota_snapshot, normal_groups, normal_group, normal_buckets, normal_bucket,
}
use agy_swap.Store.Snapshot.Shape.{IsSnapshot, normalize_quota_snapshot-IsSnapshot}
use agy_swap.Store.Expire.{expire_limits}
use agy_swap.Store.Expire.Fresh.{is_map, expire_limits-current}
use agy_swap.Store.Disk as Saves
use agy_swap.Store.Disk.{Fate, File, save_unlocked, modified_at, content_of}
use agy_swap.Store.Disk.Saving.{is_current, save_unlocked-saved, save_unlocked-stale}
use agy_swap.Store.Validate.{validate_accounts}
use agy_swap.Store.Restore.{
  accounts, accounts_backup, settings, Files, Place, run, import_actions, import_writes,
  rollback_actions,
}
use agy_swap.Store.Restore.Crash.{
  recovered, settled, uncommitted, import_actions-crash, rollback_actions-crash,
}
use agy_swap.Tests.Library.{go}

abbrev raw_bucket : Value
raw_bucket = object (
    field "id" (text "b") (
      field "name" (text "Weekly") (
        field "window" (text "7d")
          (field "remaining_fraction" (number (pos 1)) (field "reset_at" (text "@") end)))))

abbrev raw_snapshot : Value
raw_snapshot = object (
    field "observed_at" (text "@") (
      field "tier" (object (field "id" (text "t") (field "name" (text "Pro") end))) (
        field "groups"
          (array (
            cons
              (object (
                field "id" (text "gemini") (
                  field "name" (text "Gemini")
                    (field "buckets" (array (cons raw_bucket nil)) end))))
              nil))
          end)))

abbrev snapshot : Fields
snapshot = field "observed_at" (text "time") (
    field "tier" (object (field "id" (text "t") (field "name" (text "Pro") end))) (
      field "groups"
        (array (
          cons
            (object (
              field "id" (text "gemini") (
                field "name" (text "Gemini") (
                  field "buckets"
                    (array (
                      cons
                        (object (
                          field "id" (text "b") (
                            field "name" (text "Weekly") (
                              field "window" (text "7d") (
                                field "remaining_fraction" (number (pos 1))
                                  (field "reset_at" (text "time") end))))))
                        nil))
                    end))))
            nil))
        end))

normal_snapshot : normalize_quota_snapshot go "a" raw_snapshot ≡ ok snapshot
unfolding normalize_quota_snapshot normal_groups normal_group normal_buckets normal_bucket get_field
    parse_utc iso_time clean_text trim_space valid_quota_id valid_quota_window strip_suffix unit
normal_snapshot = refl

normalize_quota_snapshot-IsSnapshot_example : IsSnapshot go snapshot
normalize_quota_snapshot-IsSnapshot_example =
    normalize_quota_snapshot-IsSnapshot go "a" raw_snapshot snapshot normal_snapshot

-- Two limits, which reset at seconds 1 and 3.
abbrev two_limits : Fields
two_limits =
    field "a" (object (field "reset_at" (text "@") end))
      (field "b" (object (field "reset_at" (text "@---") end)) end)

two_limits_map : is_map two_limits ≡ true
unfolding get_field
two_limits_map = refl

abbrev second_limit : Value
second_limit = object (field "reset_at" (text "@---") end)

second_limit_at : get_field "b" two_limits ≡ some second_limit
unfolding get_field
second_limit_at = refl

second_reset :
    parse_utc go (get_string (fields_or_end (get_map (some second_limit))) "reset_at")
    ≡ some (4 * second)
unfolding get_field parse_utc strip_suffix
second_reset = refl

expire_limits-current_example : get_field "b" (expire_limits go (2 * second) two_limits).0 ≡ (
    if ltb (2 * second) (4 * second) && leb (4 * second) (2 * second + 7 * 24 * 60 * minute)
    then some second_limit
    else none)
expire_limits-current_example =
    expire_limits-current go (2 * second) (4 * second) two_limits "b" second_limit two_limits_map
      second_limit_at second_reset

abbrev saved_text : Accounts → Option String
saved_text a = some "{}"

abbrev loaded : Accounts
loaded = record { order = []; by_email = Map.empty; revision = 5; revision_hash = "old" }

abbrev disk : Saves.Disk
disk = record { accounts = some (record { content = "old"; modified = 5 }); backup = none }

abbrev fate : Fate
fate = record {
  can_stat = true;
  can_read = true;
  backup_write = written;
  accounts_write = written;
  modified = 6;
  can_stat_again = true;
}

done : (save_unlocked go saved_text fate loaded disk).0 ≡ none
unfolding save_unlocked validate_accounts
done = refl

save_unlocked-saved_example :
    let checked = (validate_accounts go loaded).1 in
    let (a', d') = (save_unlocked go saved_text fate loaded disk).1 in
    ((validate_accounts go loaded).0 ≡ none)
    × (is_current go checked disk.accounts ≡ true)
    × (is_current go a' d'.accounts ≡ true)
    × (some (content_of d'.accounts) ≡ saved_text checked)
    × (if nat_eq (modified_at disk.accounts) 0
        then d'.backup ≡ disk.backup
        else d'.backup ≡ some (content_of disk.accounts))
save_unlocked-saved_example = save_unlocked-saved go saved_text fate loaded disk done

abbrev newer : Saves.Disk
newer = record { accounts = some (record { content = "new"; modified = 5 }); backup = none }

stale : is_current go (validate_accounts go loaded).1 newer.accounts ≡ false
unfolding validate_accounts
stale = refl

save_unlocked-stale_example :
    (is_some (save_unlocked go saved_text fate loaded newer).0 ≡ true)
    × ((save_unlocked go saved_text fate loaded newer).1.1 ≡ newer)
save_unlocked-stale_example = save_unlocked-stale go saved_text fate loaded newer stale

abbrev bad_fate : Fate
bad_fate = record fate { accounts_write = replaced_then_failed }

undone : is_some (save_unlocked go saved_text bad_fate loaded disk).0 ≡ true
unfolding save_unlocked validate_accounts
undone = refl

abbrev places : List Place
places = settings ∷ accounts ∷ accounts_backup ∷ []

abbrev before : Files
before = record { accounts_file = some "old"; backup_file = none; settings_file = none }

import_actions-crash_example :
    let d = run (take 3 (import_actions before "new" (some "s"))) (settled before) in
    let after = (run (import_writes before "new" (some "s")) (settled before)).files in
    (recovered places d ≡ settled before) ⊎ (recovered places d ≡ settled after)
import_actions-crash_example = import_actions-crash places before "new" (some "s") 3 refl

rollback_actions-crash_example :
    recovered places (
      run (take 2 (rollback_actions places before)) (record {
        files = record before { accounts_file = some "new" };
        journal = some (uncommitted before);
      }))
    ≡ settled before
rollback_actions-crash_example =
    rollback_actions-crash places places (record before { accounts_file = some "new" }) before 2
      refl refl
