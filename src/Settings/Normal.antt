-- ===== src/Settings/Normal.antt =====
-- internal/app/settings.go: what `normalizeSettings` accepts, and what it leaves as it is.
use agy_swap.Prelude.{String, true, false, List, [], ◌∷◌, ◌≡◌, sym, member, All, arith, inl, inr}
use agy_swap.Prelude.Int.{pos, negsuc, ltb_ℤ}
use agy_swap.GoLib.{GoLib}
use agy_swap.Errors.{Result, ok, and_then-ok, ok-inj, Result-cases}
use agy_swap.Settings.{
  PolicyConfig, NotificationConfig, HistoryConfig, UiConfig, AppSettings, state_schema, outside,
  or_empty, policies, has_no_cooldown, normalize_settings, normal_schema, normal_policy,
  normal_notifications, normal_history, normal_ui, normal_profile, normal_binding, normal_target,
  normal_entries, each, with_cooldown,
}
use agy_swap.Settings.Entries.{
  IsProfile, IsBinding, IsTarget, normal_profile-IsProfile, normal_binding-IsBinding,
  normal_target-IsTarget,
}

pub record IsPolicy (p : PolicyConfig) : Type 0 where
  pub named : member p.name policies ≡ true
  pub percent : outside (pos 0) (pos 100) p.min_remaining_pct ≡ false

pub record IsNotifications (n : NotificationConfig) : Type 0 where
  pub threshold : outside (pos 0) (pos 100) n.threshold ≡ false
  pub cooldown : ltb_ℤ n.cooldown_seconds (pos 0) ≡ false
  pub pause : has_no_cooldown n ≡ false

pub record IsHistory (h : HistoryConfig) : Type 0 where
  pub days : outside (pos 1) (pos 3650) h.retention_days ≡ false
  pub bytes : outside (pos 65536) (pos 268435456) h.max_bytes ≡ false

pub record IsUi (ui : UiConfig) : Type 0 where
  pub split : outside (negsuc 39) (pos 40) ui.split_offset ≡ false
  pub stack : outside (negsuc 39) (pos 40) ui.stack_offset ≡ false

normal_policy-IsPolicy :
    (n : NotificationConfig) (given p : PolicyConfig)
    → normal_policy n given ≡ ok p
    → IsPolicy p × (ltb_ℤ n.cooldown_seconds (pos 0) ≡ false)
unfolding normal_policy
normal_policy-IsPolicy n given p h = (ground arith, ground arith)

normal_notifications-IsNotifications :
    (given n : NotificationConfig)
    → ltb_ℤ given.cooldown_seconds (pos 0) ≡ false
    → normal_notifications given ≡ ok n
    → IsNotifications n
unfolding normal_notifications with_cooldown
normal_notifications-IsNotifications given n c h = ground arith

normal_history-IsHistory : (given h : HistoryConfig) → normal_history given ≡ ok h → IsHistory h
unfolding normal_history
normal_history-IsHistory given h e = ground arith

normal_ui-IsUi : (ui : UiConfig) → IsUi (normal_ui ui)
unfolding normal_ui
normal_ui-IsUi ui = ground arith

-- What each step accepts, a loop over them accepts everywhere.
each-All :
    {A : Type 0} {P : A → Type 0} (f : A → Result A) (l m : List A)
    → ((a b : A) → f a ≡ ok b → P b)
    → each f l ≡ ok m
    → All P m
each-All f [] m each_ok h = let q : m ≡ [] = ground arith in rw q tt
each-All f (a ∷ l) m each_ok h = elim (Result-cases (f a)) [
  | inl (_, e) ↦ absurd (ground arith)
  | inr (b, e) ↦ elim (Result-cases (each f l)) [
    | inl (_, e') ↦ absurd (ground arith)
    | inr (rest, e') ↦
        let q : m ≡ b ∷ rest = ground arith in rw q (each_ok a b e, each-All f l rest each_ok e')
  ]
]

-- The settings that the program works with.
pub record IsSettings (s : AppSettings) : Type 0 where
  pub schema : outside state_schema state_schema s.schema ≡ false
  pub policy : IsPolicy s.policy
  pub notifications : IsNotifications s.notifications
  pub history : IsHistory s.history
  pub ui : IsUi s.ui
  pub profiles : All IsProfile (or_empty s.profiles)
  pub bindings : All IsBinding (or_empty s.bindings)
  pub targets : All IsTarget (or_empty s.targets)

normal_entries-IsSettings :
    (go : GoLib) (clean : String → String) (given s : AppSettings)
    → outside state_schema state_schema given.schema ≡ false
    → IsPolicy given.policy
    → IsNotifications given.notifications
    → IsHistory given.history
    → IsUi given.ui
    → normal_entries go clean given ≡ ok s
    → IsSettings s
unfolding normal_entries
normal_entries-IsSettings go clean given s schema policy notifications history ui h =
    let (profiles, p, h) =
      and_then-ok (each (normal_profile go given.policy.name) (or_empty given.profiles)) _ s h in
    let (bindings, b, h) =
      and_then-ok (each (normal_binding clean) (or_empty given.bindings)) _ s h in
    let (targets, t, h) = and_then-ok (each normal_target (or_empty given.targets)) _ s h in
    rw (sym (ok-inj _ s h)) (record {
      schema = schema;
      policy = policy;
      notifications = notifications;
      history = history;
      ui = ui;
      profiles =
          each-All (normal_profile go given.policy.name) (or_empty given.profiles) profiles
            (normal_profile-IsProfile go given.policy.name) p;
      bindings =
          each-All (normal_binding clean) (or_empty given.bindings) bindings
            (normal_binding-IsBinding clean) b;
      targets = each-All normal_target (or_empty given.targets) targets normal_target-IsTarget t;
    })

normal_schema_lem :
    (go : GoLib) (given s : AppSettings)
    → normal_schema go given ≡ ok s
    → outside state_schema state_schema s.schema ≡ false
unfolding normal_schema
normal_schema_lem go given s h = ground arith

-- Settings that `normalizeSettings` accepts have the schema of this version and numbers within their bounds, and
-- each profile, binding and target of them is well formed. Only the account of a profile may be empty.
pub normalize_settings-IsSettings :
    (go : GoLib) (clean : String → String) (given s : AppSettings)
    → normalize_settings go clean given ≡ ok s
    → IsSettings s
unfolding normalize_settings
normalize_settings-IsSettings go clean given s h =
    let (s1, a, h) = and_then-ok (normal_schema go given) _ s h in
    let (policy, b, h) = and_then-ok (normal_policy s1.notifications s1.policy) _ s h in
    let (notifications, c, h) = and_then-ok (normal_notifications s1.notifications) _ s h in
    let (history, d, h) = and_then-ok (normal_history s1.history) _ s h in
    let (is_policy, cooldown) = normal_policy-IsPolicy s1.notifications s1.policy policy b in
    let s2 : AppSettings = record s1 {
      policy = policy;
      notifications = notifications;
      history = history;
      ui = normal_ui s1.ui;
    } in
    normal_entries-IsSettings go clean s2 s (normal_schema_lem go given s1 a) is_policy
      (normal_notifications-IsNotifications s1.notifications notifications cooldown c)
      (normal_history-IsHistory s1.history history d) (normal_ui-IsUi s1.ui) h
