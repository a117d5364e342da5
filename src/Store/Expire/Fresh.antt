-- ===== src/Store/Expire/Fresh.antt =====
-- internal/app/store.go: which limits are left after `expire_limits`.
use agy_swap.Prelude.{
  Bool-cases, inl, inr, String, ◌≡◌, refl, Bool, true, false, Option, none, some, if◌then◌else◌,
  eq_iff, arith, ◌&&◌, ◌∙◌, ◌+◌, ◌*◌, ltb, leb,
}
use agy_swap.Value.{Value, Fields, end, field, get_field, get_string, get_map, fields_or_end}
use agy_swap.GoLib.{GoLib}
use agy_swap.Clock.{Time, parse_utc, minute}
use agy_swap.Store.Expire.{is_current, expire_limits}

abbrev pub kept : GoLib → Time → Option Value → Option Value
kept go now none = none
kept go now (some limit) = if is_current go now limit then some limit else none

-- Every key occurs once, as in a Go map.
abbrev pub is_map : Fields → Bool
is_map end = true
is_map (field key v rest) =
    (elim (get_field key rest) [ none ↦ true | some other ↦ false ]) && is_map rest

expire_limits-kept :
    (go : GoLib) (now : Time) (limits : Fields) (key : String)
    → is_map limits ≡ true
    → get_field key (expire_limits go now limits).0 ≡ kept go now (get_field key limits)
unfolding expire_limits get_field
expire_limits-kept go now end key h = refl
expire_limits-kept go now (field j v rest) key h =
    ground (arith, expire_limits-kept go now rest key, eq_iff j key)

-- In a map, where every key occurs once, a limit with a readable reset is left by the pass, with its value, just
-- if that reset is later than now and at most seven days away.
pub expire_limits-current :
    (go : GoLib) (now reset : Time) (limits : Fields) (key : String) (limit : Value)
    → is_map limits ≡ true
    → get_field key limits ≡ some limit
    → parse_utc go (get_string (fields_or_end (get_map (some limit))) "reset_at") ≡ some reset
    → get_field key (expire_limits go now limits).0
      ≡ (if ltb now reset && leb reset (now + 7 * 24 * 60 * minute) then some limit else none)
unfolding is_current
expire_limits-current go now reset limits key limit m at r =
    expire_limits-kept go now limits key m ∙ rw at (rw (is_current, r) (ground arith))

-- A second pass at the same time finds nothing to delete.
pub expire_limits_idem :
    (go : GoLib) (now : Time) (limits : Fields)
    → expire_limits go now (expire_limits go now limits).0
      ≡ ((expire_limits go now limits).0, false)
unfolding expire_limits
expire_limits_idem go now end = refl
expire_limits_idem go now (field key v rest) = elim (Bool-cases (is_current go now v)) [
  | inl current ↦ rw (current, current, expire_limits_idem go now rest) refl
  | inr late ↦ rw (late, expire_limits_idem go now rest) refl
]
