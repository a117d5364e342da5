-- ===== src/Settings.antt =====
-- internal/app/settings.go: the settings, and `normalizeSettings`, which every read and every write of
-- config.json goes through. A Go map is an association list in the order of one `range` over it, and
-- `none` is the nil map or slice: only the choice between several errors depends on the order. The
-- functions return the settings that they change.
pub mod Entries
pub mod Normal
pub mod Stable
pub mod Saving
use Prim.Native.Char.{code}
use Prim.Native.String.{◌++◌}
use agy_swap.Prelude.{
  ℕ, zero, suc, String, Bool, true, false, not, ◌&&◌, ◌||◌, List, [], ◌∷◌, Option, none, some,
  if◌then◌else◌, nat_eq, ◌==◌, member,
}
use agy_swap.Prelude.Int.{ℤ, pos, negsuc, ltb_ℤ}
use agy_swap.Prelude.Text.{trim_space}
use agy_swap.GoLib.{GoLib}
use agy_swap.Email.{normalize_email}
use agy_swap.Errors.{plain, Result, ok, err, and_then}
use agy_swap.Quota.Pools.{is_quota_family}

-- A Go map with string keys.
abbrev pub Dict {ℓ} : Type ℓ → Type ℓ
Dict V = List (String × V)

pub record Profile : Type 0 where
  pub account : String
  pub family : String
  pub policy : String
  pub reserve_accounts : List String
  pub notify_threshold : ℤ
  pub notify_threshold_set : Bool

pub record Binding : Type 0 where
  pub path : String
  pub profile : String
  pub mode : String

pub record PolicyConfig : Type 0 where
  pub name : String
  pub min_remaining_pct : ℤ
  pub prefer_family : String
  pub allow_apply : Bool

pub record NotificationConfig : Type 0 where
  pub enabled : Bool
  pub threshold : ℤ
  pub reset : Bool
  pub auth_failure : Bool
  pub stale : Bool
  pub cooldown_seconds : ℤ

pub record HistoryConfig : Type 0 where
  pub enabled : Bool
  pub retention_days : ℤ
  pub max_bytes : ℤ

pub record StatuslineConfig : Type 0 where
  pub installed : Bool
  pub command : String

pub record TargetConfig : Type 0 where
  pub command : String
  pub enabled : Bool

pub record UiConfig : Type 0 where
  pub split_offset : ℤ
  pub stack_offset : ℤ

pub record AppSettings : Type 0 where
  pub schema : ℤ
  pub aliases : Option (Dict String)
  pub tags : Option (Dict (List String))
  pub profiles : Option (Dict Profile)
  pub bindings : Option (List Binding)
  pub policy : PolicyConfig
  pub notifications : NotificationConfig
  pub history : HistoryConfig
  pub statusline : StatuslineConfig
  pub targets : Option (Dict TargetConfig)
  pub ui : UiConfig
  pub updated_at : String
  pub revision : String
  pub loaded : Bool

abbrev pub state_schema : ℤ
state_schema = pos 1

abbrev default_notifications : NotificationConfig
default_notifications = record {
  enabled = false;
  threshold = pos 20;
  reset = false;
  auth_failure = false;
  stale = false;
  cooldown_seconds = pos 1800;
}

abbrev pub default_settings : AppSettings
default_settings = record {
  schema = state_schema;
  aliases = some [];
  tags = some [];
  profiles = some [];
  bindings = some [];
  policy = record {
    name = "sticky";
    min_remaining_pct = pos 10;
    prefer_family = "";
    allow_apply = false;
  };
  notifications = default_notifications;
  history = record { enabled = true; retention_days = pos 30; max_bytes = pos 8388608 };
  statusline = record { installed = false; command = "" };
  targets = some [];
  ui = record { split_offset = pos 0; stack_offset = pos 0 };
  updated_at = "";
  revision = "";
  loaded = false;
}

abbrev pub is_zero_int : ℤ → Bool
is_zero_int (pos zero) = true
is_zero_int _ = false

abbrev pub outside : ℤ → ℤ → ℤ → Bool
outside low high n = ltb_ℤ n low || ltb_ℤ high n

abbrev pub or_empty {ℓ} : {A : Type ℓ} → Option (List A) → List A
or_empty none = []
or_empty (some entries) = entries

abbrev pub policies : List String
policies = "sticky" ∷ "balanced" ∷ "round-robin" ∷ []

abbrev pub modes : List String
modes = "prompt" ∷ "recommend" ∷ "auto" ∷ "disabled" ∷ []

-- fmt's %d
abbrev int_text : GoLib → ℤ → String
int_text go (pos n) = go.itoa n
int_text go (negsuc n) = "-" ++ go.itoa (suc n)

-- Empty maps and slices for nil ones.
abbrev pub with_maps : AppSettings → AppSettings
with_maps s = record s {
  aliases = some (or_empty s.aliases);
  tags = some (or_empty s.tags);
  profiles = some (or_empty s.profiles);
  bindings = some (or_empty s.bindings);
  targets = some (or_empty s.targets);
}

unfoldable normal_schema : GoLib → AppSettings → Result AppSettings
normal_schema go s =
    let schema = if is_zero_int s.schema then state_schema else s.schema in
    if outside state_schema state_schema schema
    then err (plain ("unsupported config schema " ++ int_text go schema))
    else ok (with_maps (record s { schema = schema }))

unfoldable normal_policy : NotificationConfig → PolicyConfig → Result PolicyConfig
normal_policy notifications p =
    let name = if p.name == "" then "sticky" else p.name in
    if not (member name policies)
    then err (plain "policy must be sticky, balanced, or round-robin")
    else if ltb_ℤ notifications.cooldown_seconds (pos 0)
    then err (plain "notification cooldown must be non-negative")
    else if outside (pos 0) (pos 100) p.min_remaining_pct
    then err (plain "policy min_remaining_pct must be between 0 and 100")
    else ok (record p { name = name })

-- s.Notifications == (NotificationConfig{})
abbrev is_zero_config : NotificationConfig → Bool
is_zero_config n =
    not n.enabled
    && is_zero_int n.threshold
    && not n.reset
    && not n.auth_failure
    && not n.stale
    && is_zero_int n.cooldown_seconds

-- The pause between notifications is left to the default.
abbrev pub has_no_cooldown : NotificationConfig → Bool
has_no_cooldown n =
    is_zero_int n.cooldown_seconds && not n.enabled && not n.reset && not n.auth_failure

with_cooldown : NotificationConfig → NotificationConfig
with_cooldown n = if has_no_cooldown n then record n { cooldown_seconds = pos 1800 } else n

unfoldable normal_notifications : NotificationConfig → Result NotificationConfig
unfolding with_cooldown
normal_notifications given =
    let n = if is_zero_config given then default_notifications else given in
    if outside (pos 0) (pos 100) n.threshold
    then err (plain "notification threshold must be between 0 and 100")
    else ok (with_cooldown n)

unfoldable normal_history : HistoryConfig → Result HistoryConfig
normal_history h =
    let days = if is_zero_int h.retention_days then pos 30 else h.retention_days in
    let bytes = if is_zero_int h.max_bytes then pos 8388608 else h.max_bytes in
    if outside (pos 1) (pos 3650) days
    then err (plain "history retention_days must be between 1 and 3650")
    else if outside (pos 65536) (pos 268435456) bytes
    then err (plain "history max_bytes is outside the supported range")
    else ok (record h { retention_days = days; max_bytes = bytes })

unfoldable normal_ui : UiConfig → UiConfig
normal_ui ui = record {
  split_offset = if outside (negsuc 39) (pos 40) ui.split_offset then pos 0 else ui.split_offset;
  stack_offset = if outside (negsuc 39) (pos 40) ui.stack_offset then pos 0 else ui.stack_offset;
}

abbrev pub is_blank : String → Bool
is_blank s = trim_space s == ""

abbrev add {ℓ} : {A : Type ℓ} → Result A → Result (List A) → Result (List A)
add (err e) rest = err e
add (ok a) (err e) = err e
add (ok a) (ok rest) = ok (a ∷ rest)

normal_reserves : GoLib → List String → Result (List String)
normal_reserves go [] = ok []
normal_reserves go (email ∷ emails) =
    let reserve = normalize_email go email in
    let rest = normal_reserves go emails in
    if reserve == "" then err (plain "invalid reserve account") else add (ok reserve) rest

with_reserves : String → Profile → Result (List String) → Result (String × Profile)
with_reserves name p (err e) = err e
with_reserves name p (ok reserves) =
    if outside (pos 0) (pos 100) p.notify_threshold
    then err (plain ("profile " ++ name ++ " has invalid notify threshold"))
    else ok (name, record p { reserve_accounts = reserves })

-- One turn of the loop over the profiles.
unfoldable normal_profile : GoLib → String → String × Profile → Result (String × Profile)
unfolding normal_reserves with_reserves
normal_profile go default (name, p) =
    let policy = if p.policy == "" then default else p.policy in
    if is_blank name || is_blank p.account
    then err (plain "profiles require a name and account")
    else if not (p.family == "") && not (is_quota_family p.family)
    then err (plain ("profile " ++ name ++ " has invalid family"))
    else if not (member policy policies)
    then err (plain ("profile " ++ name ++ " has invalid policy"))
    else with_reserves name (record p { account = normalize_email go p.account; policy = policy })
        (normal_reserves go p.reserve_accounts)

-- One turn of the loop over the bindings; `clean` is filepath.Clean.
unfoldable normal_binding : (String → String) → Binding → Result Binding
normal_binding clean b =
    let path = clean (trim_space b.path) in
    let mode = if b.mode == "" then "prompt" else b.mode in
    if path == "." || path == ""
    then err (plain "binding path must be non-empty")
    else if not (member mode modes)
    then err (plain "binding mode must be prompt, recommend, auto, or disabled")
    else if is_blank b.profile
    then err (plain "binding profile must be non-empty")
    else ok (record b { path = path; mode = mode })

code_member : ℕ → List ℕ → Bool
code_member c [] = false
code_member c (d ∷ codes) = nat_eq c d || code_member c codes

-- strings.ContainsAny, for the characters with these codes
unfoldable pub contains_any : String → List ℕ → Bool
unfolding code_member
contains_any String.[] codes = false
contains_any (String.◌∷◌ c s) codes = code_member (code c) codes || contains_any s codes

abbrev pub not_in_name : List ℕ
not_in_name = 32 ∷ b'/' ∷ 92 ∷ 9 ∷ 13 ∷ 10 ∷ []

abbrev pub not_in_command : List ℕ
not_in_command = 9 ∷ 13 ∷ 10 ∷ []

-- One turn of the loop over the targets.
unfoldable normal_target : String × TargetConfig → Result (String × TargetConfig)
unfolding contains_any
normal_target (name, t) =
    if is_blank name
      || contains_any name not_in_name
      || is_blank t.command
      || contains_any t.command not_in_command
    then err (plain ("target " ++ name ++ " has an invalid executable mapping"))
    else ok (name, record t { command = trim_space t.command })

-- A loop that stops at the first error.
abbrev pub each {ℓ} : {A : Type ℓ} → (A → Result A) → List A → Result (List A)
each f [] = ok []
each f (a ∷ rest) = let others = each f rest in add (f a) others

unfoldable normal_entries : GoLib → (String → String) → AppSettings → Result AppSettings
unfolding normal_profile normal_binding normal_target
normal_entries go clean s =
    and_then (each (normal_profile go s.policy.name) (or_empty s.profiles)) (λ profiles.
      and_then (each (normal_binding clean) (or_empty s.bindings)) (λ bindings.
        and_then (each normal_target (or_empty s.targets)) (λ targets. ok (record s {
          profiles = some profiles;
          bindings = some bindings;
          targets = some targets;
        }))))

unfoldable pub normalize_settings : GoLib → (String → String) → AppSettings → Result AppSettings
unfolding normal_schema normal_policy normal_notifications normal_history normal_ui normal_entries
normalize_settings go clean given = and_then (normal_schema go given) (λ s.
    and_then (normal_policy s.notifications s.policy) (λ policy.
      and_then (normal_notifications s.notifications) (λ notifications.
        and_then (normal_history s.history) (λ history. normal_entries go clean (record s {
          policy = policy;
          notifications = notifications;
          history = history;
          ui = normal_ui s.ui;
        })))))
