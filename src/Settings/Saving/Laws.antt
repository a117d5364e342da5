-- ===== src/Settings/Saving/Laws.antt =====
-- internal/app/settings.go: what a save and an update leave in config.json.
use agy_swap.Prelude.{
  String, Bool, true, false, not, ◌&&◌, Option, none, ◌≡◌, inl, inr, ◌==◌, arith, is_some,
  Option-cases,
}
use agy_swap.GoLib.{GoLib}
use agy_swap.Clock.{Time, iso_time}
use agy_swap.Errors.{Result, ok, and_then, and_then-ok, Result-cases}
use agy_swap.Settings.{AppSettings, normalize_settings}
use agy_swap.Settings.Saving.{
  Weather, Codec, content_revision, read_settings_unlocked, load_settings, save_settings_unlocked,
  update_settings, put_config, write_config, read_back, save_changed,
}

module _ (go : GoLib) (clean : String → String) (json : Codec) where
  -- Settings that were read from a file which another process has replaced since are refused, and the
  -- file stays as it is.
  pub save_settings_unlocked-stale :
      (w : Weather) (now : Time) (s : AppSettings) (file : Option String)
      → s.loaded ≡ true
      → s.revision == content_revision go file ≡ false
      → (is_some (save_settings_unlocked go clean json w now s file).0 ≡ true)
        × ((save_settings_unlocked go clean json w now s file).1 ≡ file)
  unfolding save_settings_unlocked
  save_settings_unlocked-stale w now s file l h = (ground arith, ground arith)

  pub save_settings_unlocked-saved :
      (w : Weather) (now : Time) (s : AppSettings) (file : Option String)
      → (save_settings_unlocked go clean json w now s file).0 ≡ none
      → (s.loaded && not (s.revision == content_revision go file) ≡ false)
        × ((t : AppSettings) × (normalize_settings go clean s ≡ ok t)
            × (json.encode (record t { updated_at = iso_time go now })
                ≡ (save_settings_unlocked go clean json w now s file).1)
            × (is_some (save_settings_unlocked go clean json w now s file).1 ≡ true))
  unfolding save_settings_unlocked write_config put_config
  save_settings_unlocked-saved w now s file h =
      elim (Result-cases (normalize_settings go clean s)) [
        | inl (e, n) ↦ absurd (ground arith)
        | inr (t, n) ↦
            elim (Option-cases (json.encode (record t { updated_at = iso_time go now }))) [
              | inl e ↦ absurd (ground arith)
              | inr (payload, e) ↦ (ground arith, (t, n, ground arith, ground arith))
            ]
      ]

  read_settings_unlocked-ok :
      (can : Bool) (file : Option String) (s : AppSettings)
      → read_settings_unlocked go clean json can file ≡ ok s
      → read_settings_unlocked go clean json true file ≡ ok s
  unfolding read_settings_unlocked
  read_settings_unlocked-ok false file s h = absurd (ground arith)
  read_settings_unlocked-ok true file s h = h

  load_settings-ok :
      (w : Weather) (file : Option String) (s : AppSettings)
      → load_settings go clean json w file ≡ ok s
      → read_settings_unlocked go clean json true file ≡ ok s
  unfolding load_settings
  load_settings-ok w file s h = read_settings_unlocked-ok w.first_read file s (ground arith)

  read_back-ok :
      (w : Weather) (now : Time) (new r : AppSettings) (file : Option String)
      → (read_back go clean json w (save_settings_unlocked go clean json w now new file)).0 ≡ ok r
      → let saved = save_settings_unlocked go clean json w now new file in
        ((read_back go clean json w saved).1 ≡ saved.1)
        × (saved.0 ≡ none)
        × (read_settings_unlocked go clean json true saved.1 ≡ ok r)
  unfolding read_back
  read_back-ok w now new r file h =
      elim (Option-cases (save_settings_unlocked go clean json w now new file).0) [
        | inl e ↦ (ground arith, e, read_settings_unlocked-ok w.last_read _ r (ground arith))
        | inr (_, e) ↦ absurd (ground arith)
      ]

  -- An update that succeeds applied the caller's change to the settings that were in the file; the file holds
  -- their normal form with the time of the save, and the result is what the file now holds.
  pub update_settings-saved :
      (change : AppSettings → Result AppSettings) (w : Weather) (now : Time) (file : Option String)
      (r : AppSettings)
      → (update_settings go clean json change w now file).0 ≡ ok r
      → let file' = (update_settings go clean json change w now file).1 in
        (old : AppSettings) × (new : AppSettings) × (t : AppSettings) × (read_settings_unlocked go
            clean json true file
          ≡ ok old)
        × (change old ≡ ok new)
        × (normalize_settings go clean new ≡ ok t)
        × (json.encode (record t { updated_at = iso_time go now }) ≡ file')
        × (read_settings_unlocked go clean json true file' ≡ ok r)
  unfolding update_settings save_changed read_back
  update_settings-saved change w now file r h =
      elim (Result-cases (and_then (load_settings go clean json w file) change)) [
        | inl (_, e) ↦ absurd (ground arith)
        | inr (new, e) ↦
            let (old, l, c) = and_then-ok (load_settings go clean json w file) change new e in
            let b = read_back-ok w now new r file (ground arith) in
            let (_, (t, n, text, _)) = save_settings_unlocked-saved w now new file b.1 in
            (
              old,
              new,
              t,
              load_settings-ok w file old l,
              c,
              n,
              ground (arith, b, text),
              ground (arith, b),
            )
      ]
