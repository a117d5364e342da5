-- ===== src/Settings/Entries.antt =====
-- internal/app/settings.go: the profiles, bindings and targets of settings that are accepted.
use Prim.Native.Char.{code}
use agy_swap.Prelude.{
  ℕ, String, true, false, ◌&&◌, ◌||◌, List, [], ◌∷◌, ◌≡◌, refl, sym, ◌∙◌, eq_iff, ap, if◌then◌else◌,
  ◌==◌, member, arith, Bool-cases, inl, inr,
}
use agy_swap.Prelude.Int.{pos}
use agy_swap.Prelude.Text.{trim_space, trim_left, trim_right, is_space, trim_space_idem}
use agy_swap.GoLib.{GoLib}
use agy_swap.Email.{normalize_email}
use agy_swap.Errors.{ok, Result-cases}
use agy_swap.Quota.Pools.{is_quota_family}
use agy_swap.Settings.{
  Profile, Binding, TargetConfig, outside, policies, modes, is_blank, not_in_name, not_in_command,
  contains_any, normal_profile, normal_reserves, with_reserves, normal_binding, normal_target,
}

-- A profile: the account may be empty where it was no e-mail address.
pub record IsProfile (entry : String × Profile) : Type 0 where
  pub named : is_blank entry.0 ≡ false
  pub policy : member entry.1.policy policies ≡ true
  pub family : (entry.1.family == "" || is_quota_family entry.1.family) ≡ true
  pub reserves : member "" entry.1.reserve_accounts ≡ false
  pub threshold : outside (pos 0) (pos 100) entry.1.notify_threshold ≡ false

pub record IsBinding (b : Binding) : Type 0 where
  pub path : (b.path == "." || b.path == "") ≡ false
  pub mode : member b.mode modes ≡ true
  pub profile : is_blank b.profile ≡ false

pub record IsTarget (entry : String × TargetConfig) : Type 0 where
  pub named : is_blank entry.0 ≡ false
  pub name : contains_any entry.0 not_in_name ≡ false
  pub command : is_blank entry.1.command ≡ false
  pub line : contains_any entry.1.command not_in_command ≡ false
  pub trimmed : trim_space entry.1.command ≡ entry.1.command

normal_reserves-member :
    (go : GoLib) (given emails : List String)
    → normal_reserves go given ≡ ok emails
    → member "" emails ≡ false
unfolding normal_reserves
normal_reserves-member go [] emails h = ground arith
normal_reserves-member go (e ∷ given) emails h = elim (Result-cases (normal_reserves go given)) [
  | inl (_, f) ↦ absurd (ground arith)
  | inr (rest, f) ↦ ground (
    arith,
    normal_reserves-member go given rest f,
    eq_iff (normalize_email go e) "",
    eq_iff "" (normalize_email go e),
  )
]

with_reserves-ok :
    (name : String) (p : Profile) (reserves : List String) (entry : String × Profile)
    → with_reserves name p (ok reserves) ≡ ok entry
    → (outside (pos 0) (pos 100) p.notify_threshold ≡ false)
      × (entry ≡ (name, record p { reserve_accounts = reserves }))
unfolding with_reserves
with_reserves-ok name p reserves entry h = (ground arith, ground arith)

-- What the loop's step checks before it looks at the reserve accounts.
checked_profile :
    (go : GoLib) (default : String) (name : String) (given : Profile) (entry : String × Profile)
    → normal_profile go default (name, given) ≡ ok entry
    → let policy = if given.policy == "" then default else given.policy in
      (is_blank name ≡ false)
      × ((given.family == "" || is_quota_family given.family) ≡ true)
      × (member policy policies ≡ true)
      × (with_reserves name
            (record given { account = normalize_email go given.account; policy = policy })
            (normal_reserves go given.reserve_accounts)
          ≡ ok entry)
unfolding normal_profile
checked_profile go default name given entry h =
    (ground arith, ground arith, ground arith, ground arith)

pub normal_profile-IsProfile :
    (go : GoLib) (default : String) (given entry : String × Profile)
    → normal_profile go default given ≡ ok entry
    → IsProfile entry
unfolding with_reserves
normal_profile-IsProfile go default (name, given) entry h =
    let q : Profile = record given {
      account = normalize_email go given.account;
      policy = if given.policy == "" then default else given.policy;
    } in
    let (named, family, policy, rest) = checked_profile go default name given entry h in
    elim (Result-cases (normal_reserves go given.reserve_accounts)) [
      | inl (_, f) ↦ absurd (ground arith)
      | inr (reserves, f) ↦
          let (threshold, e) =
            with_reserves-ok name q reserves entry (sym (ap (with_reserves name q) f) ∙ rest) in
          let m = normal_reserves-member go given.reserve_accounts reserves f in
          rw e (record {
            named = named;
            policy = policy;
            family = family;
            reserves = m;
            threshold = threshold;
          })
    ]

pub normal_binding-IsBinding :
    (clean : String → String) (given b : Binding) → normal_binding clean given ≡ ok b → IsBinding b
unfolding normal_binding
normal_binding-IsBinding clean given b h = ground arith

contains_any-trim_left :
    (s : String) (codes : List ℕ)
    → contains_any s codes ≡ false
    → contains_any (trim_left s) codes ≡ false
unfolding contains_any trim_left
contains_any-trim_left String.[] codes h = refl
contains_any-trim_left (String.◌∷◌ c s) codes h = ground (arith, contains_any-trim_left s codes)

contains_any-trim_right :
    (s : String) (codes : List ℕ)
    → contains_any s codes ≡ false
    → contains_any (trim_right s) codes ≡ false
unfolding contains_any trim_right
contains_any-trim_right String.[] codes h = refl
contains_any-trim_right (String.◌∷◌ c s) codes h =
    elim (Bool-cases (is_space (code c) && trim_right s == String.[])) [
      | inl blank ↦ rw blank refl
      | inr kept ↦ rw kept (ground (arith, contains_any-trim_right s codes))
    ]

contains_any-trim_space :
    (s : String) (codes : List ℕ)
    → contains_any s codes ≡ false
    → contains_any (trim_space s) codes ≡ false
unfolding trim_space
contains_any-trim_space s codes h =
    contains_any-trim_left (trim_right s) codes (contains_any-trim_right s codes h)

pub normal_target-IsTarget :
    (given t : String × TargetConfig) → normal_target given ≡ ok t → IsTarget t
unfolding normal_target
normal_target-IsTarget (name, given) t h =
    ground
      (arith, contains_any-trim_space given.command not_in_command, trim_space_idem given.command)
