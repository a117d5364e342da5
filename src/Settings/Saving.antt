-- ===== src/Settings/Saving.antt =====
-- internal/app/settings.go: `readSettingsUnlocked`, `saveSettingsUnlocked`, `UpdateSettings`, `LoadSettings`
-- and `SaveSettings`, with the text of config.json as the state. The lock makes each operation one
-- step. What the file system answers is an argument; the JSON encoder and decoder are parameters.
pub mod Laws
pub mod Roundtrip
use agy_swap.Prelude.{String, Bool, true, false, not, ◌&&◌, Option, none, some, if◌then◌else◌, ◌==◌}
use agy_swap.GoLib.{GoLib}
use agy_swap.Clock.{Time, iso_time}
use agy_swap.Errors.{GoError, plain, wrapped, Result, ok, err, and_then}
use agy_swap.Files.{WriteOutcome, written, not_replaced, replaced_then_failed}
use agy_swap.Settings.{AppSettings, default_settings, normalize_settings}

-- What one operation meets: the recovery of a restore, the lock, whether a file can be read, and how
-- AtomicWrite ends.
pub record Weather : Type 0 where
  pub recovered : Option GoError
  pub locked : Option GoError
  pub first_read : Bool
  pub save_read : Bool
  pub write : WriteOutcome
  pub last_read : Bool

-- The JSON encoder and decoder of AppSettings.
pub record Codec : Type 0 where
  pub encode : AppSettings → Option String
  pub decode : String → Option AppSettings

abbrev pub read_error : GoError
read_error = plain "file system"

abbrev pub settings_conflict : GoError
settings_conflict = plain "config.json changed in another process; retry the command"

-- `none` is the nil slice, of a file that does not exist.
abbrev pub content_revision : GoLib → Option String → String
content_revision go none = ""
content_revision go (some content) = go.sha256_hex content

-- Either the nil error or an error.
abbrev then_try {ℓ} : {A : Type ℓ} → Option GoError → Result A → Result A
then_try none rest = rest
then_try (some e) rest = err e

module _ (go : GoLib) (clean : String → String) (json : Codec) where
  parse_settings : String → Option AppSettings → Result AppSettings
  parse_settings content none = err (wrapped "cannot parse config.json" (plain "json"))
  parse_settings content (some s) =
      normalize_settings go clean (record s { revision = go.sha256_hex content; loaded = true })

  unfoldable pub read_settings_unlocked : Bool → Option String → Result AppSettings
  unfolding parse_settings
  read_settings_unlocked false file = err (wrapped "cannot read config.json" read_error)
  read_settings_unlocked true none = ok (record default_settings { loaded = true })
  read_settings_unlocked true (some content) = parse_settings content (json.decode content)

  unfoldable pub load_settings : Weather → Option String → Result AppSettings
  unfolding read_settings_unlocked
  load_settings w file =
      then_try w.recovered (then_try w.locked (read_settings_unlocked w.first_read file))

  put_config : WriteOutcome → Option String → Option String → Option GoError × Option String
  put_config outcome none file = (some (plain "json"), file)
  put_config written (some payload) file = (none, some payload)
  put_config not_replaced (some payload) file = (some read_error, file)
  put_config replaced_then_failed (some payload) file = (some read_error, some payload)

  write_config :
      WriteOutcome → Time → Result AppSettings → Option String → Option GoError × Option String
  unfolding put_config
  write_config outcome now (err e) file = (some e, file)
  write_config outcome now (ok s) file =
      put_config outcome (json.encode (record s { updated_at = iso_time go now })) file

  unfoldable pub save_settings_unlocked :
      Weather → Time → AppSettings → Option String → Option GoError × Option String
  unfolding write_config
  save_settings_unlocked w now s file =
      if not w.save_read
      then (some read_error, file)
      else if s.loaded && not (s.revision == content_revision go file)
      then (some settings_conflict, file)
      else write_config w.write now (normalize_settings go clean s) file

  unfoldable pub save_settings :
      Weather → Time → AppSettings → Option String → Option GoError × Option String
  unfolding save_settings_unlocked
  save_settings w now s file = elim w.recovered [
    | some e ↦ (some e, file)
    | none ↦ elim w.locked [ some e ↦ (some e, file) | none ↦ save_settings_unlocked w now s file ]
  ]

  -- The settings are read back from the file after the write.
  read_back : Weather → Option GoError × Option String → Result AppSettings × Option String
  unfolding read_settings_unlocked
  read_back w (some e, file) = (err e, file)
  read_back w (none, file) = (read_settings_unlocked w.last_read file, file)

  save_changed :
      Weather → Time → Result AppSettings → Option String → Result AppSettings × Option String
  unfolding read_back save_settings_unlocked
  save_changed w now (err e) file = (err e, file)
  save_changed w now (ok s) file = read_back w (save_settings_unlocked w now s file)

  -- `change` is the caller's function, which returns the settings that it changed.
  unfoldable pub update_settings :
      (AppSettings → Result AppSettings)
      → Weather
      → Time
      → Option String
      → Result AppSettings × Option String
  unfolding load_settings save_changed
  update_settings change w now file =
      save_changed w now (and_then (load_settings w file) change) file
