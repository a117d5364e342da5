-- ===== src/Store/Limits.antt =====
-- internal/app/store.go: `normalizeQuotaLimits`. A Go map is gone through in an unknown order: here it
-- is the order of the fields. Only the choice between several errors depends on it.
use Prim.Native.Char.{code}
use Prim.Native.String.{◌++◌}
use agy_swap.Prelude.{
  String, Bool, not, ◌&&◌, ◌||◌, Option, none, some, if◌then◌else◌, nat_eq, ◌==◌,
}
use agy_swap.Value.{
  Value, Account, Fields, null, text, object, end, field, get_field, set_field, delete_field,
  get_map, get_string,
}
use agy_swap.GoLib.{GoLib}
use agy_swap.Clock.{Time, parse_utc, iso_time}
use agy_swap.Email.{clean_text}
use agy_swap.Errors.{Result, ok, err, plain}
use agy_swap.Quota.Pools.{is_quota_family}

-- strings.ReplaceAll(s, "\\", "/")
slashes : String → String
slashes String.[] = String.[]
slashes (String.◌∷◌ c s) = if nat_eq (code c) 92 then "/" ++ slashes s else String.◌∷◌ c (slashes s)

with_source_file : String → Fields → Fields
with_source_file name limit =
    if not (name == ".") && not (name == "")
    then set_field "source_file" (text name) limit
    else limit

abbrev pub is_source : String → Bool
is_source source = source == "log" || source == "manual"

timed_limit : GoLib → String → Fields → String → Option Time → Option Time → Result Fields
unfolding with_source_file slashes
timed_limit go email limit model (some reset) (some observed) = ok (
    with_source_file (go.base_name (slashes (clean_text go (get_string limit "source_file")))) (
      field "model" (text model) (
        field "family" (text (get_string limit "family")) (
          field "reset_at" (text (iso_time go reset)) (
            field "observed_at" (text (iso_time go observed))
              (field "source" (text (get_string limit "source")) end))))))
timed_limit go email limit model _ _ = err (plain ("invalid quota timestamp for " ++ email))

-- One turn of the loop.
unfoldable pub normal_limit : GoLib → String → Option Fields → Result Fields
unfolding timed_limit
normal_limit go email none = err (plain ("invalid quota limit for " ++ email))
normal_limit go email (some limit) =
    let model = clean_text go (get_string limit "model") in
    if model == ""
      || not (is_quota_family (get_string limit "family"))
      || not (is_source (get_string limit "source"))
    then err (plain ("invalid quota metadata for " ++ email))
    else timed_limit go email limit model (parse_utc go (get_string limit "reset_at"))
        (parse_utc go (get_string limit "observed_at"))

add_limit : String → Result Fields → Result Fields → Result Fields
add_limit key (err e) rest = err e
add_limit key (ok limit) (err e) = err e
add_limit key (ok limit) (ok rest) = ok (field key (object limit) rest)

unfoldable pub normal_limits : GoLib → String → Fields → Result Fields
unfolding add_limit
normal_limits go email end = ok end
normal_limits go email (field key raw rest) =
    add_limit key (normal_limit go email (get_map (some raw))) (normal_limits go email rest)

unfoldable pub store_limits : Account → Result Fields → Result Account
store_limits account (err e) = err e
store_limits account (ok end) = ok (delete_field "quota_limits" account)
store_limits account (ok (field key limit rest)) =
    ok (set_field "quota_limits" (object (field key limit rest)) account)

unfoldable pub limits_of : GoLib → String → Account → Option Value → Result Account
unfolding store_limits
limits_of go email account none = ok account
limits_of go email account (some null) = ok account
limits_of go email account (some (object limits)) =
    store_limits account (normal_limits go email limits)
limits_of go email account _ = err (plain ("invalid quota limits for " ++ email))

unfoldable pub normalize_quota_limits : GoLib → String → Account → Result Account
unfolding limits_of
normalize_quota_limits go email account =
    limits_of go email account (get_field "quota_limits" account)
