-- ===== src/Settings/Stable.antt =====
-- internal/app/settings.go: settings that went through `normalizeSettings` once, given to it again.
use agy_swap.Prelude.{
  String, true, false, List, [], ◌∷◌, ◌≡◌, refl, ◌==◌, All, arith, eq_iff, member,
}
use agy_swap.Prelude.Text.{trim_space}
use agy_swap.GoLib.{GoLib}
use agy_swap.Email.{normalize_email}
use agy_swap.Errors.{Result, ok}
use agy_swap.Settings.{
  Profile, Binding, PolicyConfig, NotificationConfig, HistoryConfig, TargetConfig, UiConfig,
  AppSettings, state_schema, policies, modes, is_blank, outside, or_empty, with_maps,
  normalize_settings, normal_schema, normal_policy, normal_notifications, normal_history, normal_ui,
  normal_profile, normal_reserves, with_reserves, normal_binding, normal_target, normal_entries,
  each, with_cooldown,
}
use agy_swap.Settings.Normal.{IsPolicy, IsNotifications, IsHistory, IsUi, IsSettings}
use agy_swap.Settings.Entries.{IsProfile, IsBinding, IsTarget}

-- The account of a profile and its reserve accounts are e-mail addresses in their normal form.
pub record IsSaved (go : GoLib) (entry : String × Profile) : Type 0 where
  pub account : normalize_email go entry.1.account ≡ entry.1.account
  pub not_blank : is_blank entry.1.account ≡ false
  pub reserves : All (λ email. normalize_email go email ≡ email) entry.1.reserve_accounts

-- The path of a binding is what filepath.Clean makes of it.
pub record IsClean (clean : String → String) (b : Binding) : Type 0 where
  pub path : clean (trim_space b.path) ≡ b.path

member-not_empty :
    (s : String) (l : List String) → member "" l ≡ false → member s l ≡ true → s == "" ≡ false
member-not_empty s l h m = ground (arith, eq_iff s "")

policy-stable :
    (n : NotificationConfig) (p : PolicyConfig)
    → IsPolicy p
    → IsNotifications n
    → normal_policy n p ≡ ok p
unfolding normal_policy
policy-stable n p a b = rw (member-not_empty p.name policies refl a.named) (ground arith)

notifications-stable : (n : NotificationConfig) → IsNotifications n → normal_notifications n ≡ ok n
unfolding normal_notifications with_cooldown
notifications-stable n a = ground arith

history-stable : (h : HistoryConfig) → IsHistory h → normal_history h ≡ ok h
unfolding normal_history
history-stable h a = ground arith

ui-stable : (ui : UiConfig) → IsUi ui → normal_ui ui ≡ ui
unfolding normal_ui
ui-stable ui a = ground arith

binding-stable :
    (clean : String → String) (b : Binding)
    → IsBinding b
    → IsClean clean b
    → normal_binding clean b ≡ ok b
unfolding normal_binding
binding-stable clean b a c = rw (c.path, member-not_empty b.mode modes refl a.mode) (ground arith)

target-stable : (t : String × TargetConfig) → IsTarget t → normal_target t ≡ ok t
unfolding normal_target
target-stable (name, t) a = ground arith

reserves-stable :
    (go : GoLib) (emails : List String)
    → member "" emails ≡ false
    → All (λ email. normalize_email go email ≡ email) emails
    → normal_reserves go emails ≡ ok emails
unfolding normal_reserves
reserves-stable go [] m h = refl
reserves-stable go (e ∷ emails) m (h, rest) =
    ground (arith, reserves-stable go emails (ground arith) rest, eq_iff e "", eq_iff "" e)

profile-stable :
    (go : GoLib) (default : String) (entry : String × Profile)
    → IsProfile entry
    → IsSaved go entry
    → normal_profile go default entry ≡ ok entry
unfolding normal_profile with_reserves
profile-stable go default (name, p) a s =
    let r = reserves-stable go p.reserve_accounts a.reserves s.reserves in
    rw
      (
        s.account,
        r,
        member-not_empty p.policy policies refl a.policy,
        a.policy,
        a.named,
        s.not_blank,
      )
      (ground arith)

each-stable :
    {A : Type 0} {P Q : A → Type 0} (f : A → Result A) (l : List A)
    → ((a : A) → P a → Q a → f a ≡ ok a)
    → All P l
    → All Q l
    → each f l ≡ ok l
each-stable f [] step ps qs = refl
each-stable f (a ∷ l) step (p, ps) (q, qs) = rw (step a p q, each-stable f l step ps qs) refl

targets-stable : (l : List (String × TargetConfig)) → All IsTarget l → each normal_target l ≡ ok l
targets-stable [] ps = refl
targets-stable (t ∷ l) (p, ps) = rw (target-stable t p, targets-stable l ps) refl

normal_schema-stable :
    (go : GoLib) (s : AppSettings)
    → outside state_schema state_schema s.schema ≡ false
    → normal_schema go s ≡ ok (with_maps s)
unfolding normal_schema
normal_schema-stable go s h = ground arith

-- Settings of the form that `normalizeSettings` leaves, whose profiles name e-mail addresses and whose bindings
-- name clean paths, are accepted again and come back as they are, with an empty map for a nil one.
pub normalize_settings-stable :
    (go : GoLib) (clean : String → String) (s : AppSettings)
    → IsSettings s
    → All (IsSaved go) (or_empty s.profiles)
    → All (IsClean clean) (or_empty s.bindings)
    → normalize_settings go clean s ≡ ok (with_maps s)
unfolding normalize_settings normal_entries
normalize_settings-stable go clean s a saved is_clean =
    rw
      (
        normal_schema-stable go s a.schema,
        policy-stable s.notifications s.policy a.policy a.notifications,
        notifications-stable s.notifications a.notifications,
        history-stable s.history a.history,
        ui-stable s.ui a.ui,
        each-stable (normal_profile go s.policy.name) (or_empty s.profiles)
            (profile-stable go s.policy.name) a.profiles saved,
        each-stable (normal_binding clean) (or_empty s.bindings) (binding-stable clean) a.bindings
            is_clean,
        targets-stable (or_empty s.targets) a.targets,
      )
      refl
