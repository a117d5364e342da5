-- ===== src/Tests/Library.antt =====
-- A small Go library for the tests: times are texts of the form "@" and a run of ticks, one for each
-- second, and ASCII letters are left as they are.
use agy_swap.Prelude.{ℕ, ◌+◌, String, false, Option, none, some, if◌then◌else◌, ◌==◌}
use agy_swap.Value.{text, field, end, object}
use agy_swap.Clock.{second}
use agy_swap.GoLib.{GoLib}

abbrev ticks : String → ℕ
ticks String.[] = 0
ticks (String.◌∷◌ c s) = second + ticks s

abbrev pub toy_time : String → Option ℕ
toy_time value = if value == "" then none else some (ticks value)

abbrev pub go : GoLib
go = record {
  parse_time = λ layout value. toy_time value;
  format_time = λ t. "time";
  parse_float = λ s. none;
  parse_int = λ s. none;
  to_lower = λ s. s;
  to_upper = λ s. s;
  is_format = λ c. false;
  decode_object = λ s.
      if s == ""
      then none
      else some (field "token" (object (field "access_token" (text s) end)) end);
  unmarshal_object = λ s. none;
  base64 = λ s. none;
  base64_url = λ s. none;
  sha256_hex = λ s. s;
  itoa = λ n. "429";
  quote = λ s. s;
  base_name = λ s. s;
}
