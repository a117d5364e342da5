-- ===== src/Value/Numbers.antt =====
-- internal/app/model.go: `getFloat` and `numberInt`.
use agy_swap.Prelude.{ℕ, ◌+◌, ◌/◌, ◌%◌, ◌-◌, ◌^◌, Option, none, some, if◌then◌else◌, nat_eq}
use agy_swap.Prelude.Int.{ℤ, pos, negsuc}
use agy_swap.Value.{Value, number, json_number}
use agy_swap.GoLib.{GoLib}

abbrev pub get_float : GoLib → Option Value → Option ℤ
get_float go (some (number n)) = some n
get_float go (some (json_number s)) = go.parse_float s
get_float go _ = none

-- The number 1, in units of 2^-1074.
unfoldable pub unit : ℕ
unit = 2 ^ 1074

-- math.Trunc(n) == n, and then int64(n); a float64 beyond the int64 range does not occur.
unfoldable pub number_int : GoLib → Option Value → Option ℤ
number_int go (some (number (pos n))) = if nat_eq (n % unit) 0 then some (pos (n / unit)) else none
number_int go (some (number (negsuc n))) =
    if nat_eq ((n + 1) % unit) 0 then some (negsuc ((n + 1) / unit - 1)) else none
number_int go (some (json_number s)) = go.parse_int s
number_int go _ = none
