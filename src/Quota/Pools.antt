-- ===== src/Quota/Pools.antt =====
-- internal/app/pools.go, and `quotaGroups`, `quotaWait` of internal/app/display.go: the pools of an
-- account and the families of models that draw from them.
pub mod Overlap
use Prim.Native.Char.{Char, code}
use Prim.Native.String.{◌++◌}
use agy_swap.Prelude.{
  ℕ, zero, suc, ◌-◌, String, Bool, true, false, List, [], ◌∷◌, Option, none, some, ◌==◌, ◌&&◌, ◌||◌,
  if◌then◌else◌, leb, ltb, nat_eq, member,
}
use agy_swap.Prelude.Int.{ℤ, pos, ltb_ℤ}
use agy_swap.Prelude.Text.{has_prefix, trim_suffix}
use agy_swap.Clock.{Time, parse_utc}
use agy_swap.GoLib.{GoLib}
use agy_swap.Value.{
  Value, Account, Fields, get_field, get_map, get_slice, get_string, fields_or_end,
}
use agy_swap.Value.Numbers.{get_float}

abbrev pub pool_gemini : String
pool_gemini = "gemini"

abbrev pub pool_argon : String
pool_argon = "argon"

abbrev pub pool_third_party : String
pool_third_party = "third_party"

abbrev pub quota_families : List String
quota_families = "claude" ∷ "gemini" ∷ "gpt" ∷ "argon" ∷ []

abbrev pub is_quota_family : String → Bool
is_quota_family value = member value quota_families

-- [a-z0-9]
is_alnum : Char → Bool
is_alnum c = leb b'a' (code c) && leb (code c) b'z' || leb b'0' (code c) && leb (code c) b'9'

-- [a-z0-9_]{0,n} to the end of the text
name_tail : ℕ → String → Bool
unfolding is_alnum
name_tail n String.[] = true
name_tail zero (String.◌∷◌ c s) = false
name_tail (suc n) (String.◌∷◌ c s) =
    let rest = name_tail n s in if is_alnum c || nat_eq (code c) b'_' then rest else false

plain_name : ℕ → String → Bool
unfolding name_tail
plain_name n String.[] = false
plain_name n (String.◌∷◌ c s) = is_alnum c && name_tail n s

unfoldable pub valid_quota_id : String → Bool
unfolding plain_name
valid_quota_id = plain_name 31

unfoldable pub valid_quota_window : String → Bool
unfolding plain_name
valid_quota_window = plain_name 15

-- strings.NewReplacer("-", "_", ".", "_")
underscored : String → String
underscored String.[] = String.[]
underscored (String.◌∷◌ c s) =
    String.◌∷◌ (if nat_eq (code c) b'-' || nat_eq (code c) b'.' then "_" else c) (underscored s)

-- `to_lower` is strings.ToLower.
unfoldable pub quota_pool_for_bucket : (String → String) → String → String → String
unfolding valid_quota_id underscored
quota_pool_for_bucket to_lower id window =
    if has_prefix id "gemini-argon-"
    then pool_argon
    else if has_prefix id "gemini-"
    then pool_gemini
    else if has_prefix id "3p-"
    then pool_third_party
    else let name = underscored (to_lower (trim_suffix id ("-" ++ window))) in
      if valid_quota_id name then name else ""

unfoldable pub quota_groups : Account → List Value
quota_groups account =
    let snapshot = fields_or_end (get_map (get_field "quota_snapshot" account)) in
    get_slice (get_field "groups" snapshot)

-- getMap(raw), where the program only reads keys of it
abbrev pub as_map : Value → Fields
as_map raw = fields_or_end (get_map (some raw))

unfoldable pub has_quota_group : List Value → String → Bool
has_quota_group [] id = false
has_quota_group (raw ∷ groups) id = get_string (as_map raw) "id" == id || has_quota_group groups id

unfoldable pub family_pools : Account → String → List String
unfolding has_quota_group quota_groups
family_pools account family =
    if family == ""
    then pool_gemini ∷ pool_third_party ∷ []
    else if family == "claude" || family == "gpt" || family == pool_third_party
    then pool_third_party ∷ []
    else if family == pool_argon
    then (if has_quota_group (quota_groups account) pool_argon
        then pool_argon ∷ []
        else pool_gemini ∷ [])
    else family ∷ []

unfoldable pub pool_in_family : Account → String → String → Bool
pool_in_family account pool family = member pool (family_pools account family)

-- the loop over the pools of one family
overlap_any : Account → List String → String → Bool
overlap_any account [] family = false
overlap_any account (pool ∷ pools) family =
    pool_in_family account pool family || overlap_any account pools family

unfoldable pub families_overlap : Account → String → String → Bool
unfolding overlap_any pool_in_family
families_overlap account limit_family family =
    overlap_any account (family_pools account limit_family) family

-- The wait so far, over the buckets of a group that are used up. `reset.Sub(now) > maxWait` with a
-- wait that is not negative is read on numbers, where `-` stops at 0.
unfoldable pub bucket_wait : GoLib → Time → List Value → ℕ → ℕ
bucket_wait go now [] max_wait = max_wait
bucket_wait go now (raw ∷ buckets) max_wait =
    let b = as_map raw in
    let used_up : Bool = elim (get_float go (get_field "remaining_fraction" b)) [
      | none ↦ true
      | some f ↦ (if ltb_ℤ (pos 0) f then false else true)
    ] in
    let wait : ℕ = elim (parse_utc go (get_string b "reset_at")) [
      | none ↦ max_wait
      | some reset ↦ (if ltb max_wait (reset - now) then reset - now else max_wait)
    ] in
    bucket_wait go now buckets (if used_up then wait else max_wait)

group_wait : GoLib → Account → Time → String → List Value → ℕ → Bool → ℕ × Bool
unfolding bucket_wait pool_in_family
group_wait go account now family [] max_wait matched = (max_wait, matched)
group_wait go account now family (raw ∷ groups) max_wait matched =
    let group = as_map raw in
    let inside = pool_in_family account (get_string group "id") family in
    group_wait go account now family groups
      (if inside
        then bucket_wait go now (get_slice (get_field "buckets" group)) max_wait
        else max_wait)
      (if inside then true else matched)

unfoldable pub quota_wait : GoLib → Account → Time → String → ℕ × Bool
unfolding group_wait quota_groups
quota_wait go account now family = group_wait go account now family (quota_groups account) 0 false
