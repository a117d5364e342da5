-- ===== src/Session/Owner.antt =====
-- internal/app/session_guard.go: `matchAccountByToken`, which finds the saved account that a token
-- belongs to; internal/app/cli.go: `localActiveEmail`, which looks only at accounts.json.
pub mod Saved
use agy_swap.Prelude.{
  String, Bool, true, false, not, ◌&&◌, ◌||◌, List, [], ◌∷◌, Option, none, some, if◌then◌else◌,
  ◌==◌, is_some, nat_eq,
}
use agy_swap.Prelude.Map
use agy_swap.Prelude.Map.{Map}
use agy_swap.Prelude.Text.{trim_space}
use agy_swap.Value.{Account, Fields, end, get_string, fields_or_end}
use agy_swap.GoLib.{GoLib}
use agy_swap.Email.{normalize_email}
use agy_swap.Errors.{Result, ok, err}
use agy_swap.Token.{hash_token, token_refresh_token, extract_email_hint}
use agy_swap.Vault.{AccountVault}
use agy_swap.Vault.Secret.{account_token}
use agy_swap.Accounts
use agy_swap.Accounts.{Accounts}
use agy_swap.Session.{SessionLib}

-- accounts.ByEmail[email], where a missing account is the nil map
abbrev pub saved_account : Accounts → String → Account
saved_account a email = fields_or_end (Map.get email a.by_email)

module _ (go : GoLib) (lib : SessionLib) (a : Accounts) where
  -- The first account whose saved token, or its hash, is this one.
  by_saved_token : String → String → List String → String
  by_saved_token token hash [] = ""
  by_saved_token token hash (email ∷ emails) =
      let rest = by_saved_token token hash emails in
      let account = saved_account a email in
      if get_string account "token_data" == token
        || not (hash == "") && get_string account "token_hash" == hash
      then email
      else rest

  by_claim : String → List String → String
  by_claim claimed [] = claimed
  by_claim claimed (email ∷ emails) =
      let rest = by_claim claimed emails in if lib.equal_fold email claimed then email else rest

  unfoldable pub has_refresh : String → Account → Bool
  has_refresh refresh account =
      let hash = hash_token go refresh in
      let stored = get_string account "token_data" in
      not (hash == "") && get_string account "refresh_hash" == hash
      || not (stored == "") && token_refresh_token go stored == refresh

  -- The only account with this refresh token; two of them are none.
  by_saved_refresh : String → List String → String → String
  unfolding has_refresh
  by_saved_refresh refresh [] matched = matched
  by_saved_refresh refresh (email ∷ emails) matched =
      let next = if has_refresh refresh (saved_account a email) then email else matched in
      let rest = by_saved_refresh refresh emails next in
      if has_refresh refresh (saved_account a email)
        && not (matched == "")
        && not (lib.equal_fold matched email)
      then ""
      else rest

  unfoldable pub local_active_email : String → String
  unfolding by_saved_token by_claim by_saved_refresh
  local_active_email current =
      let saved = by_saved_token current (hash_token go current) a.order in
      let claimed = extract_email_hint go current in
      let refresh = token_refresh_token go current in
      if current == ""
      then ""
      else if not (saved == "")
      then saved
      else if not (claimed == "")
      then by_claim claimed a.order
      else if refresh == ""
      then ""
      else by_saved_refresh refresh a.order ""

-- The token of an account, "" where there is none.
abbrev pub token_or_empty : Result String → String
token_or_empty (ok token) = token
token_or_empty (err e) = ""

module _ {S : Type 0} (go : GoLib) (lib : SessionLib) (vault : Option (AccountVault S))
    (a : Accounts) where
  -- The first account whose token is this one, or has its hash.
  by_token : String → List String → S → Option String × S
  by_token token [] s = (none, s)
  by_token token (email ∷ emails) s =
      let (found, s') = account_token go vault s (saved_account a email) in
      let stored = token_or_empty found in
      let hash = hash_token go token in
      let rest = by_token token emails s' in
      if not (stored == "") && (stored == token || not (hash == "") && hash_token go stored == hash)
      then (some (normalize_email go email), s')
      else rest

  -- The only account whose token has this refresh token.
  by_refresh : String → List String → String → S → String × S
  by_refresh refresh [] matched s = (matched, s)
  by_refresh refresh (email ∷ emails) matched s =
      let (found, s') = account_token go vault s (saved_account a email) in
      let stored = token_or_empty found in
      let same = not (stored == "") && token_refresh_token go stored == refresh in
      let rest =
        by_refresh refresh emails (if same then normalize_email go email else matched) s' in
      if same && not (matched == "") && not (lib.equal_fold matched email) then ("", s') else rest

  -- An account with this very token is the owner at once.
  or_by_refresh : String → Option String → S → String × S
  unfolding by_refresh
  or_by_refresh token (some owner) s = (owner, s)
  or_by_refresh token none s =
      let refresh = token_refresh_token go token in
      if refresh == "" then ("", s) else by_refresh refresh a.order "" s

  -- What the vault says, where accounts.json says nothing.
  match_in_vault : String → S → String × S
  unfolding by_token or_by_refresh
  match_in_vault token s =
      let (owner, s') = by_token token a.order s in or_by_refresh token owner s'

  unfoldable pub match_account_by_token : String → S → String × S
  unfolding match_in_vault local_active_email
  match_account_by_token value s =
      let token = trim_space value in
      let local = local_active_email go lib a token in
      if token == "" || nat_eq (Accounts.len a) 0
      then ("", s)
      else if not (local == "") && is_some (Accounts.get a local)
      then (normalize_email go local, s)
      else match_in_vault token s
