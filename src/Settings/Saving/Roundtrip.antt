-- ===== src/Settings/Saving/Roundtrip.antt =====
-- internal/app/settings.go: settings that were saved, read back.
use agy_swap.Prelude.{
  String, true, false, List, [], ◌∷◌, Option, none, some, ◌≡◌, refl, sym, ◌∙◌, ap, arith, All,
  Option-cases, inl, inr,
}
use agy_swap.GoLib.{GoLib}
use agy_swap.Clock.{Time, iso_time}
use agy_swap.Errors.{ok, and_then-ok, ok-inj}
use agy_swap.Settings.{
  AppSettings, or_empty, normalize_settings, normal_schema, normal_policy, normal_notifications,
  normal_history, normal_ui, normal_entries, normal_profile, normal_binding, normal_target, each,
}
use agy_swap.Settings.Normal.{IsSettings, normalize_settings-IsSettings}
use agy_swap.Settings.Stable.{IsSaved, IsClean, normalize_settings-stable}
use agy_swap.Settings.Saving.{
  Weather, Codec, read_settings_unlocked, save_settings_unlocked, parse_settings,
}
use agy_swap.Settings.Saving.Laws.{save_settings_unlocked-saved}

-- `omitempty`: an empty map or slice is not written, and is nil when it is read.
abbrev pub omit_nil {ℓ} : {A : Type ℓ} → Option (List A) → Option (List A)
omit_nil (some (a ∷ l)) = some (a ∷ l)
omit_nil _ = none

-- What encoding/json writes: fields that are not exported are left out.
abbrev pub exported : AppSettings → AppSettings
exported s = record s {
  aliases = omit_nil s.aliases;
  tags = omit_nil s.tags;
  profiles = omit_nil s.profiles;
  bindings = omit_nil s.bindings;
  targets = omit_nil s.targets;
  revision = "";
  loaded = false;
}

-- encoding/json reads what it has written for these settings.
pub record IsJson (json : Codec) (s : AppSettings) : Type 0 where
  pub decode-encode :
      (payload : String) → json.encode s ≡ some payload → json.decode payload ≡ some (exported s)

or_empty-omit : {A : Type 0} (o : Option (List A)) → or_empty (omit_nil o) ≡ or_empty o
or_empty-omit none = refl
or_empty-omit (some []) = refl
or_empty-omit (some (a ∷ l)) = refl

-- Nothing is nil any more.
record IsFilled (s : AppSettings) : Type 0 where
  aliases : some (or_empty s.aliases) ≡ s.aliases
  tags : some (or_empty s.tags) ≡ s.tags
  profiles : some (or_empty s.profiles) ≡ s.profiles
  bindings : some (or_empty s.bindings) ≡ s.bindings
  targets : some (or_empty s.targets) ≡ s.targets

normal_entries-IsFilled :
    (go : GoLib) (clean : String → String) (given s : AppSettings)
    → some (or_empty given.aliases) ≡ given.aliases
    → some (or_empty given.tags) ≡ given.tags
    → normal_entries go clean given ≡ ok s
    → IsFilled s
unfolding normal_entries
normal_entries-IsFilled go clean given s a t h =
    let (profiles, _, h) =
      and_then-ok (each (normal_profile go given.policy.name) (or_empty given.profiles)) _ s h in
    let (bindings, _, h) =
      and_then-ok (each (normal_binding clean) (or_empty given.bindings)) _ s h in
    let (targets, _, h) = and_then-ok (each normal_target (or_empty given.targets)) _ s h in
    rw (sym (ok-inj _ s h))
      (record { aliases = a; tags = t; profiles = refl; bindings = refl; targets = refl })

normal_schema-filled :
    (go : GoLib) (given s : AppSettings)
    → normal_schema go given ≡ ok s
    → (some (or_empty s.aliases) ≡ s.aliases) × (some (or_empty s.tags) ≡ s.tags)
unfolding normal_schema
normal_schema-filled go given s h = (ground arith, ground arith)

normalize_settings-IsFilled :
    (go : GoLib) (clean : String → String) (given s : AppSettings)
    → normalize_settings go clean given ≡ ok s
    → IsFilled s
unfolding normalize_settings
normalize_settings-IsFilled go clean given s h =
    let (s1, a, h) = and_then-ok (normal_schema go given) _ s h in
    let (policy, _, h) = and_then-ok (normal_policy s1.notifications s1.policy) _ s h in
    let (notifications, _, h) = and_then-ok (normal_notifications s1.notifications) _ s h in
    let (history, _, h) = and_then-ok (normal_history s1.history) _ s h in
    let s2 : AppSettings = record s1 {
      policy = policy;
      notifications = notifications;
      history = history;
      ui = normal_ui s1.ui;
    } in
    let (aliases, tags) = normal_schema-filled go given s1 a in
    normal_entries-IsFilled go clean s2 s aliases tags h

-- The settings that a reader gets from a file with this text.
abbrev pub stamped : GoLib → Time → String → AppSettings → AppSettings
stamped go now payload t = record t {
  updated_at = iso_time go now;
  revision = go.sha256_hex payload;
  loaded = true;
}

exported-IsSettings :
    (go : GoLib) (now : Time) (payload : String) (t : AppSettings)
    → IsSettings t
    → IsSettings (record (exported t) {
      updated_at = iso_time go now;
      revision = go.sha256_hex payload;
      loaded = true;
    })
exported-IsSettings go now payload t a = record {
  schema = a.schema;
  policy = a.policy;
  notifications = a.notifications;
  history = a.history;
  ui = a.ui;
  profiles = rw (or_empty-omit t.profiles) a.profiles;
  bindings = rw (or_empty-omit t.bindings) a.bindings;
  targets = rw (or_empty-omit t.targets) a.targets;
}

read_written :
    (go : GoLib) (clean : String → String) (json : Codec) (now : Time) (t : AppSettings)
    (payload : String)
    → IsJson json (record t { updated_at = iso_time go now })
    → IsSettings t
    → IsFilled t
    → All (IsSaved go) (or_empty t.profiles)
    → All (IsClean clean) (or_empty t.bindings)
    → json.encode (record t { updated_at = iso_time go now }) ≡ some payload
    → read_settings_unlocked go clean json true (some payload) ≡ ok (stamped go now payload t)
unfolding read_settings_unlocked parse_settings
read_written go clean json now t payload law a f saved is_clean e =
    let u : AppSettings = record (exported t) {
      updated_at = iso_time go now;
      revision = go.sha256_hex payload;
      loaded = true;
    } in
    rw
      (
        law.decode-encode payload e,
        normalize_settings-stable go clean u (exported-IsSettings go now payload t a)
            (rw (or_empty-omit t.profiles) saved) (rw (or_empty-omit t.bindings) is_clean),
        or_empty-omit t.aliases,
        or_empty-omit t.tags,
        or_empty-omit t.profiles,
        or_empty-omit t.bindings,
        or_empty-omit t.targets,
        f.aliases,
        f.tags,
        f.profiles,
        f.bindings,
        f.targets,
      )
      refl

-- Settings that were saved are read back in their normal form, with the time of the save and as those of the
-- file, if their profiles name e-mail addresses and their bindings name clean paths.
pub read-save_settings :
    (go : GoLib) (clean : String → String) (json : Codec) (w : Weather) (now : Time)
    (s t : AppSettings) (file : Option String)
    → IsJson json (record t { updated_at = iso_time go now })
    → normalize_settings go clean s ≡ ok t
    → All (IsSaved go) (or_empty t.profiles)
    → All (IsClean clean) (or_empty t.bindings)
    → (save_settings_unlocked go clean json w now s file).0 ≡ none
    → (payload : String) × ((save_settings_unlocked go clean json w now s file).1 ≡ some payload)
      × (read_settings_unlocked go clean json true (some payload) ≡ ok (stamped go now payload t))
read-save_settings go clean json w now s t file law n saved is_clean h =
    let (_, (t', n', e, is)) = save_settings_unlocked-saved go clean json w now s file h in
    elim (Option-cases (save_settings_unlocked go clean json w now s file).1) [
      | inl missing ↦ absurd (ground arith)
      | inr (payload, p) ↦
          let q : t' ≡ t = ok-inj t' t (sym n' ∙ n) in
          (
            payload,
            p,
            read_written go clean json now t payload law
                (normalize_settings-IsSettings go clean s t n)
                (normalize_settings-IsFilled go clean s t n) saved is_clean
                (ap (λ x. json.encode (record x { updated_at = iso_time go now })) (sym q) ∙ e ∙ p),
          )
    ]
