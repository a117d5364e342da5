-- ===== src/Tests/SettingsTests.antt =====
-- The settings: one profile, one binding and one target.
use agy_swap.Prelude.{false, String, ◌≡◌, refl, false, [], ◌∷◌, none, some, All, true}
use agy_swap.Prelude.Int.{pos}
use agy_swap.Prelude.Text.{trim_space}
use agy_swap.Email.{normalize_email, clean_text, is_email}
use agy_swap.Clock.{iso_time}
use agy_swap.Errors.{ok, err, plain}
use agy_swap.Files.{written}
use agy_swap.Settings.{
  AppSettings, Profile, default_settings, normalize_settings, or_empty, contains_any,
}
use agy_swap.Settings.Normal.{IsSettings, normalize_settings-IsSettings}
use agy_swap.Settings.Stable.{IsSaved, IsClean}
use agy_swap.Settings.Saving.{Weather, Codec, read_settings_unlocked, save_settings_unlocked}
use agy_swap.Settings.Saving.Roundtrip.{IsJson, exported, stamped, read-save_settings}
use agy_swap.Tests.Library.{go}

abbrev clean : String → String
clean path = path

abbrev work : Profile
work = record {
  account = "a@b.c";
  family = "claude";
  policy = "sticky";
  reserve_accounts = "d@b.c" ∷ [];
  notify_threshold = pos 5;
  notify_threshold_set = false;
}

abbrev raw_settings : AppSettings
raw_settings = record default_settings {
  aliases = none;
  profiles = some (("work", record work { policy = "" }) ∷ []);
  bindings = some (record { path = " /p "; profile = "work"; mode = "" } ∷ []);
  targets = some (("ide", record { command = " ide "; enabled = false }) ∷ []);
}

abbrev settings : AppSettings
settings = record default_settings {
  profiles = some (("work", work) ∷ []);
  bindings = some (record { path = "/p"; profile = "work"; mode = "prompt" } ∷ []);
  targets = some (("ide", record { command = "ide"; enabled = false }) ∷ []);
}

raw_settings_normal : normalize_settings go clean raw_settings ≡ ok settings
unfolding normalize_settings normalize_email clean_text is_email trim_space contains_any
raw_settings_normal = refl

normalize_settings-IsSettings_example : IsSettings settings
normalize_settings-IsSettings_example =
    normalize_settings-IsSettings go clean raw_settings settings raw_settings_normal

settings_IsSaved : All (IsSaved go) (or_empty settings.profiles)
unfolding normalize_email clean_text is_email trim_space
settings_IsSaved = (record { account = refl; not_blank = refl; reserves = (refl, tt) }, tt)

settings_IsClean : All (IsClean clean) (or_empty settings.bindings)
unfolding trim_space
settings_IsClean = (record { path = refl }, tt)

-- A profile whose account is no e-mail address is saved with none, and is refused from then on.
abbrev nameless : AppSettings
nameless = record default_settings {
  profiles = some (("work", record work { account = "bob" }) ∷ []);
}

nameless_saved :
    normalize_settings go clean nameless
    ≡ ok (record default_settings { profiles = some (("work", record work { account = "" }) ∷ []) })
unfolding normalize_settings normalize_email clean_text is_email trim_space contains_any
nameless_saved = refl

nameless_refused :
    normalize_settings go clean
      (record default_settings { profiles = some (("work", record work { account = "" }) ∷ []) })
    ≡ err (plain "profiles require a name and account")
unfolding normalize_settings trim_space
nameless_refused = refl

abbrev json : Codec
json = record {
  encode = λ s. some "settings";
  decode = λ payload. some (exported (record settings { updated_at = iso_time go 0 }));
}

abbrev calm : Weather
calm = record {
  recovered = none;
  locked = none;
  first_read = true;
  save_read = true;
  write = written;
  last_read = true;
}

raw_saved : (save_settings_unlocked go clean json calm 0 raw_settings none).0 ≡ none
unfolding save_settings_unlocked normalize_settings normalize_email clean_text is_email trim_space
    contains_any
raw_saved = refl

json-IsJson : IsJson json (record settings { updated_at = iso_time go 0 })
json-IsJson = record { decode-encode = λ payload e. refl }

read-save_settings_example :
    (payload : String) × ((save_settings_unlocked go clean json calm 0 raw_settings none).1
      ≡ some payload)
    × (read_settings_unlocked go clean json true (some payload)
        ≡ ok (stamped go 0 payload settings))
read-save_settings_example =
    read-save_settings go clean json calm 0 raw_settings settings none json-IsJson
      raw_settings_normal settings_IsSaved settings_IsClean raw_saved
