-- ===== src/Clock.antt =====
-- internal/app/model.go: times. A `time.Time` is the number of nanoseconds since Go's zero time
-- (year 1), so 0 is the zero time; a time before year 1 does not occur. A `time.Duration` is a
-- number of nanoseconds; the code's tests are on durations that are not negative.
-- The parsing of one layout and the formatting are the standard library's: parameters, `GoLib`.
use agy_swap.Prelude.{
  ℕ, ◌*◌, String, Bool, List, [], ◌∷◌, Option, none, some, ◌==◌, if◌then◌else◌, nat_eq, ltb,
}
use agy_swap.GoLib.{GoLib}
use agy_swap.Prelude.Text.{strip_suffix}
use Prim.Native.String.{◌++◌}

abbrev pub Time : Type 0
Time = ℕ

abbrev pub is_zero : Time → Bool
is_zero t = nat_eq t 0

-- t.After(u), t.Before(u)
abbrev pub after : Time → Time → Bool
after t u = ltb u t

abbrev pub before : Time → Time → Bool
before t u = ltb t u

abbrev pub second : ℕ
second = 1000000000

abbrev pub minute : ℕ
minute = 60 * second

first_layout : GoLib → List String → String → Option Time
first_layout go [] value = none
first_layout go (layout ∷ layouts) value = elim (go.parse_time layout value) [
  | none ↦ first_layout go layouts value
  | some t ↦ some t
]

abbrev pub layouts : List String
layouts =
    "2006-01-02T15:04:05.999999999Z07:00" ∷ "2006-01-02T15:04:05.999999999" ∷ "2006-01-02 15:04:05"
    ∷ []

unfoldable pub parse_utc : GoLib → String → Option Time
unfolding first_layout
parse_utc go value =
    if value == ""
    then none
    else first_layout go layouts
        (elim (strip_suffix value "Z") [ none ↦ value | some rest ↦ rest ++ "+00:00" ])

unfoldable pub iso_time : GoLib → Time → String
iso_time go t = go.format_time t
