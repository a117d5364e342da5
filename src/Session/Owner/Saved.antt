-- ===== src/Session/Owner/Saved.antt =====
-- internal/app/session_guard.go: a token is only ever given to an account that is saved and has it.
use agy_swap.Prelude.{
  String, Bool, true, false, not, ◌&&◌, ◌||◌, List, [], ◌∷◌, Option, some, none, ◌≡◌, ◌⊎◌, inl, inr,
  refl, if◌then◌else◌, ◌==◌, arith, eq_refl, if-cases, is_some, member, nat_eq,
}
use agy_swap.Prelude.Text.{trim_space}
use agy_swap.GoLib.{GoLib}
use agy_swap.Value.{get_string}
use agy_swap.Email.{normalize_email}
use agy_swap.Errors.{Result, ok, err}
use agy_swap.Token.{hash_token, token_refresh_token, extract_email_hint}
use agy_swap.Accounts
use agy_swap.Accounts.{Accounts}
use agy_swap.Vault.{AccountVault}
use agy_swap.Vault.Secret.{account_token}
use agy_swap.Session.{SessionLib}
use agy_swap.Session.Owner.{
  by_token, by_refresh, or_by_refresh, match_in_vault, match_account_by_token, local_active_email,
  token_or_empty, saved_account, by_saved_token, by_claim, by_saved_refresh, has_refresh,
}

-- What accounts.json says of a token: the account holds it or its hash, or has its refresh token, or the token
-- itself names the address.
unfoldable pub is_claimed : GoLib → SessionLib → Accounts → String → String → Bool
is_claimed go lib a token email =
    let account = saved_account a email in
    let hash = hash_token go token in
    let claimed = extract_email_hint go token in
    let refresh = token_refresh_token go token in
    get_string account "token_data" == token
    || not (hash == "") && get_string account "token_hash" == hash
    || not (claimed == "") && (email == claimed || lib.equal_fold email claimed)
    || not (refresh == "") && has_refresh go lib a refresh account

-- A token of the vault is this one, or has its hash or its refresh token.
unfoldable pub is_same_login : GoLib → String → String → Bool
is_same_login go token stored =
    let hash = hash_token go token in
    let refresh = token_refresh_token go token in
    not (stored == "")
    && (stored == token
        || not (hash == "") && hash_token go stored == hash
        || not (refresh == "") && token_refresh_token go stored == refresh)

-- There is no owner, or the address is that of a saved account, in its normal form, and the account has the token:
-- by accounts.json, or by the token that the vault gives for it.
unfoldable pub IsOwner :
    {S : Type 0}
    → GoLib
    → SessionLib
    → Option (AccountVault S)
    → Accounts
    → String
    → String
    → Type 0
IsOwner {S = S} go lib vault a token owner =
    (owner ≡ "")
    ⊎ ((email : String) × (is_some (Accounts.get a email) || member email a.order ≡ true)
        × (owner ≡ normalize_email go email)
        × ((is_claimed go lib a token email ≡ true)
            ⊎ ((s : S) × (stored : String) × ((account_token go vault s (saved_account a email)).0
                  ≡ ok stored)
                × (is_same_login go token stored ≡ true))))

and-right : (a b c : Bool) → (a && b) ≡ true → (b || c) ≡ true
and-right a b c h = ground arith

and-left : (a b : Bool) → (not a && b) ≡ true → a ≡ false
and-left a b h = ground arith

stored_token : (r : Result String) → token_or_empty r == "" ≡ false → r ≡ ok (token_or_empty r)
stored_token (ok token) h = refl
stored_token (err e) h = absurd (ground (arith, eq_refl ""))

module _ (go : GoLib) (lib : SessionLib) (a : Accounts) where
  by_saved_token-is_claimed :
      (token : String) (emails : List String)
      → let r = by_saved_token go lib a token (hash_token go token) emails in
        r == "" ≡ false → is_claimed go lib a token r ≡ true
  unfolding by_saved_token is_claimed
  by_saved_token-is_claimed token [] h = absurd (ground (arith, eq_refl ""))
  by_saved_token-is_claimed token (email ∷ emails) h =
      ground (arith, by_saved_token-is_claimed token emails)

  by_claim-named :
      (claimed : String) (emails : List String)
      → let r = by_claim go lib a claimed emails in
        (r == claimed || lib.equal_fold r claimed) ≡ true
  unfolding by_claim
  by_claim-named claimed [] = ground (arith, eq_refl claimed)
  by_claim-named claimed (email ∷ emails) = ground (arith, by_claim-named claimed emails)

  by_saved_refresh-has_refresh :
      (refresh : String) (emails : List String) (matched : String)
      → (matched == "" || has_refresh go lib a refresh (saved_account a matched)) ≡ true
      → let r = by_saved_refresh go lib a refresh emails matched in
        (r == "" || has_refresh go lib a refresh (saved_account a r)) ≡ true
  unfolding by_saved_refresh
  by_saved_refresh-has_refresh refresh [] matched h = h
  by_saved_refresh-has_refresh refresh (email ∷ emails) matched h =
      let held = has_refresh go lib a refresh (saved_account a email) in
      let next = if held then email else matched in
      let P : String → Type 0 =
        λ r. (r == "" || has_refresh go lib a refresh (saved_account a r)) ≡ true in
      if-cases P (held && not (matched == "") && not (lib.equal_fold matched email)) "" _
        (λ ambiguous. refl)
        (λ other.
          by_saved_refresh-has_refresh refresh emails next
            (if-cases P held email matched (λ yes. ground (arith, yes)) (λ no. h)))

  local_active_email-is_claimed :
      (token : String)
      → local_active_email go lib a token == "" ≡ false
      → is_claimed go lib a token (local_active_email go lib a token) ≡ true
  unfolding local_active_email is_claimed
  local_active_email-is_claimed token h =
      let claimed = extract_email_hint go token in
      let refresh = token_refresh_token go token in
      let P : String → Type 0 = λ r. r == "" ≡ false → is_claimed go lib a token r ≡ true in
      if-cases P (token == "") "" _ (λ blank h. absurd (ground (arith, eq_refl "")))
        (λ full.
          if-cases P (not (by_saved_token go lib a token (hash_token go token) a.order == "")) _ _
            (λ found. by_saved_token-is_claimed token a.order)
            (λ unsaved.
              if-cases P (not (claimed == "")) _ _
                (λ named h.
                  unfold is_claimed in ground (arith, named, by_claim-named claimed a.order))
                (λ nameless.
                  if-cases P (refresh == "") "" _ (λ none h. absurd (ground (arith, eq_refl "")))
                    (λ present h.
                      unfold is_claimed in
                      ground (
                        arith,
                        present,
                        h,
                        by_saved_refresh-has_refresh refresh a.order "" refl,
                      )))))
        h

module _ {S : Type 0} (go : GoLib) (lib : SessionLib) (vault : Option (AccountVault S))
    (a : Accounts) where
  -- The owner that a search of the vault has found, if any.
  FoundOwner : String → Option String → Type 0
  FoundOwner token none = Unit
  FoundOwner token (some owner) = IsOwner go lib vault a token owner

  by_token-IsOwner :
      (token : String) (emails : List String) (s : S)
      → ((email : String) → member email emails ≡ true → member email a.order ≡ true)
      → FoundOwner token (by_token go lib vault a token emails s).0
  unfolding by_token IsOwner is_same_login FoundOwner
  by_token-IsOwner token [] s h = tt
  by_token-IsOwner token (email ∷ emails) s h =
      let found = (account_token go vault s (saved_account a email)).0 in
      if-cases (λ (r : Option String × S). FoundOwner token r.0) _
        (some (normalize_email go email), _) _
        (λ same. inr (
          email,
          ground (arith, h email (ground (arith, eq_refl email))),
          refl,
          inr (s, token_or_empty found, stored_token found (ground arith), ground arith),
        ))
        (λ other.
          by_token-IsOwner token emails (account_token go vault s (saved_account a email)).1
            (λ e m. h e (ground arith)))

  by_refresh-IsOwner :
      (token : String) (emails : List String) (matched : String) (s : S)
      → ((email : String) → member email emails ≡ true → member email a.order ≡ true)
      → token_refresh_token go token == "" ≡ false
      → IsOwner go lib vault a token matched
      → IsOwner go lib vault a token
          (by_refresh go lib vault a (token_refresh_token go token) emails matched s).0
  unfolding by_refresh IsOwner is_same_login
  by_refresh-IsOwner token [] matched s h full m = m
  by_refresh-IsOwner token (email ∷ emails) matched s h full m =
      let refresh = token_refresh_token go token in
      let here : (is_some (Accounts.get a email) || member email a.order) ≡ true =
        ground (arith, h email (ground (arith, eq_refl email))) in
      let (found, s') = account_token go vault s (saved_account a email) in
      let stored = token_or_empty found in
      let same = not (stored == "") && token_refresh_token go stored == refresh in
      let next = if same then normalize_email go email else matched in
      if-cases (λ (r : String × S). IsOwner go lib vault a token r.0)
        (same && not (matched == "") && not (lib.equal_fold matched email)) ("", s')
        (by_refresh go lib vault a refresh emails next s') (λ ambiguous. inl refl)
        (λ other.
          by_refresh-IsOwner token emails next s' (λ e m'. h e (ground arith)) full
            (if-cases (IsOwner go lib vault a token) same (normalize_email go email) matched
              (λ t. inr (
                email,
                here,
                refl,
                inr (s, stored, stored_token found (ground arith), ground (arith, full, t)),
              ))
              (λ differs. m)))

  or_by_refresh-IsOwner :
      (token : String) (owner : Option String) (s : S)
      → FoundOwner token owner
      → IsOwner go lib vault a token (or_by_refresh go lib vault a token owner s).0
  unfolding or_by_refresh FoundOwner
  or_by_refresh-IsOwner token (some owner) s h = h
  or_by_refresh-IsOwner token none s h =
      let refresh = token_refresh_token go token in
      if-cases (λ (r : String × S). IsOwner go lib vault a token r.0) (refresh == "") ("", s) _
        (λ no_refresh. unfold IsOwner in inl refl)
        (λ full. by_refresh-IsOwner token a.order "" s (λ e m. m) full (unfold IsOwner in inl refl))

  match_in_vault-IsOwner :
      (token : String) (s : S)
      → IsOwner go lib vault a token (match_in_vault go lib vault a token s).0
  unfolding match_in_vault
  match_in_vault-IsOwner token s =
      or_by_refresh-IsOwner token _ _ (by_token-IsOwner token a.order s (λ e m. m))

  -- The owner that matchAccountByToken finds for a token is a saved account, in the normal form of its address,
  -- which has the token: accounts.json holds the token, its hash or its refresh token for it, or the token names
  -- the address, or the vault gives a token for it that is this one or has its hash or its refresh token. Otherwise
  -- the answer is the empty text.
  pub match_account_by_token-IsOwner :
      (value : String) (s : S)
      → IsOwner go lib vault a (trim_space value) (match_account_by_token go lib vault a value s).0
  unfolding match_account_by_token
  match_account_by_token-IsOwner value s =
      let local = local_active_email go lib a (trim_space value) in
      let token = trim_space value in
      if-cases (λ (r : String × S). IsOwner go lib vault a token r.0)
        (token == "" || nat_eq (Accounts.len a) 0) ("", s)
        (if not (local == "") && is_some (Accounts.get a local)
          then (normalize_email go local, s)
          else match_in_vault go lib vault a token s)
        (λ blank. unfold IsOwner in inl refl)
        (λ other.
          if-cases (λ (r : String × S). IsOwner go lib vault a token r.0)
            (not (local == "") && is_some (Accounts.get a local)) (normalize_email go local, s)
            (match_in_vault go lib vault a (trim_space value) s)
            (λ here.
              unfold IsOwner in
              inr (
                local,
                and-right (not (local == "")) (is_some (Accounts.get a local))
                    (member local a.order) here,
                refl,
                inl (
                    local_active_email-is_claimed go lib a token
                      (and-left (local == "") (is_some (Accounts.get a local)) here)),
              ))
            (λ elsewhere. match_in_vault-IsOwner (trim_space value) s))
