-- ===== src/GoLib.antt =====
-- The parts of Go's standard library that the program calls and that are parameters of the model:
-- unicode tables, JSON, base64, SHA-256 and the formatting of numbers.
use agy_swap.Prelude.{ℕ, String, Bool, Option}
use agy_swap.Prelude.Int.{ℤ}
use agy_swap.Value.{Fields}

pub record GoLib : Type 0 where
  pub parse_time : String → String → Option ℕ  -- time.Parse of a layout and a value, see Clock
  pub format_time : ℕ → String  -- Format(time.RFC3339Nano), in UTC
  pub parse_float : String → Option ℤ  -- json.Number's Float64, in units of 2^-1074
  pub parse_int : String → Option ℤ  -- strconv.ParseInt of a decimal int64
  pub to_lower : String → String  -- strings.ToLower
  pub to_upper : String → String  -- strings.ToUpper
  pub is_format : ℕ → Bool  -- unicode.In(r, unicode.Cf)
  pub decode_object : String → Option Fields  -- the first JSON value of a text, as a map
  pub unmarshal_object : String → Option Fields  -- json.Unmarshal into a map
  pub base64 : String → Option String  -- base64.StdEncoding.DecodeString
  pub base64_url : String → Option String  -- base64.URLEncoding.DecodeString
  pub sha256_hex : String → String  -- hex.EncodeToString of sha256.Sum256
  pub itoa : ℕ → String  -- fmt's %d
  pub quote : String → String  -- fmt's %q
  pub base_name : String → String  -- filepath.Base
