-- ===== src/Vault.antt =====
-- internal/app/vault.go: the stores of saved tokens. A vault is an interface over a state of its own;
-- the two results of Go's `Get`, a value and whether it was found, are an `Option`: every `Get` of the
-- program reports "found" only with a value that is not empty.
pub mod File
pub mod Hybrid
pub mod Secret
pub mod System
pub mod Migrate
use agy_swap.Prelude.{
  String, Bool, true, false, Option, none, some, ◌≡◌, ◌≢◌, ◌⊎◌, if◌then◌else◌, ◌==◌, not, ◌&&◌,
}
use agy_swap.Prelude.Text.{trim_space}

pub record AccountVault (S : Type 0) : Type 0 where
  pub get : S → String → Option String × S
  pub set : S → String → String → Bool × S
  pub delete : S → String → Bool × S

-- The value that a Get would return.
abbrev pub read : {S : Type 0} → AccountVault S → S → String → Option String
read v s ref = (v.get s ref).0

-- What a vault promises of Get and Set, and of one reference while another is changed: a trimmed token that was set under a trimmed reference is there; a Set, a
-- Delete or a Get of one reference changes nothing for another; a Set that fails leaves the token that
-- was there, or the new one; an empty token is never found; a Get looks at no white space
-- round the reference; and a blank reference takes no token.
pub record IsLawful {S : Type 0} (v : AccountVault S) : Type 0 where
  pub get-set :
      (s : S) (ref token : String)
      → trim_space ref ≡ ref
      → trim_space token ≡ token
      → (v.set s ref token).0 ≡ true
      → read v (v.set s ref token).1 ref ≡ some token
  pub get-set_failed :
      (s : S) (ref token : String)
      → trim_space token ≡ token
      → (v.set s ref token).0 ≡ false
      → (read v (v.set s ref token).1 ref ≡ read v s ref)
        ⊎ (read v (v.set s ref token).1 ref ≡ some token)
  pub get-set_ne :
      (s : S) (ref token other : String)
      → trim_space ref ≢ trim_space other
      → read v (v.set s ref token).1 other ≡ read v s other
  pub get-delete_ne :
      (s : S) (ref other : String)
      → trim_space ref ≢ trim_space other
      → read v (v.delete s ref).1 other ≡ read v s other
  pub set_blank : (s : S) (ref token : String) → trim_space ref ≡ "" → (v.set s ref token).0 ≡ false
  pub get-trim_space : (s : S) (ref : String) → read v s (trim_space ref) ≡ read v s ref
  pub not_empty : (s : S) (ref : String) → read v s ref ≢ some ""
  pub get-get : (s : S) (ref other : String) → read v (v.get s ref).1 other ≡ read v s other

-- What a vault promises of Delete: where `sure` says that the token of a reference was removed, it is not found any
-- more. A Delete that reports success is not always sure of it: that of `hybridVault` is not.
pub record IsForgetting {S : Type 0} (v : AccountVault S) (sure : S → String → Bool) : Type 0 where
  pub get-delete : (s : S) (ref : String) → sure s ref ≡ true → read v (v.delete s ref).1 ref ≡ none

-- A vault that takes a reference with white space round it for the trimmed one, in Set as in Get.
pub record IsTolerant {S : Type 0} (v : AccountVault S) : Type 0 where
  pub get-set_any :
      (s : S) (ref token : String)
      → trim_space token ≡ token
      → (v.set s ref token).0 ≡ true
      → read v (v.set s ref token).1 ref ≡ some token

-- The operating system's credential store, reached through platformVaultGet, Set and Delete: a
-- parameter.
pub record Platform (S : Type 0) : Type 0 where
  pub lookup : S → String → String × S  -- "" for a missing entry or an error
  pub store : S → String → String → Bool × S
  pub clear : S → String → Bool × S

-- val, val != ""
abbrev pub found : String → Option String
found value = if value == "" then none else some value

-- type osAccountVault
unfoldable pub os_account_vault : {S : Type 0} → Platform S → AccountVault S
os_account_vault p = record {
  get = λ s ref.
      let trimmed = trim_space ref in
      if trimmed == ""
      then (none, s)
      else let (value, s') = p.lookup s trimmed in (found value, s');
  set = λ s ref token.
      if not (trim_space ref == "") && not (token == "") then p.store s ref token else (false, s);
  delete = λ s ref. if trim_space ref == "" then (true, s) else p.clear s ref;
}
