-- ===== src/Vault/Secret/Survival.antt =====
-- internal/app/vault.go: reading a token back after it was saved.
use mathlib.Core.Bool.{false≢true}
use agy_swap.Prelude.{
  sym, ◌∙◌, String, ◌≡◌, ◌≢◌, refl, false, Option, none, some, ◌==◌, inl, inr, arith, Bool-cases,
  ne→==-false,
}
use agy_swap.Prelude.Text.{trim_space, trim_space_idem}
use agy_swap.Value.{
  Account, Fields, text, get_field, delete_field, get_string, get-set, get-delete, field_laws,
}
use agy_swap.GoLib.{GoLib}
use agy_swap.Email.{normalize_email}
use agy_swap.Email.Trimmed.{IsLowering, normalize_email-trimmed, account-trimmed}
use agy_swap.Clock.{Time}
use agy_swap.Errors.{ok}
use agy_swap.Token.{token_expiry, token_object, decode_token, token_refresh_token, hash_token}
use agy_swap.Vault.{AccountVault, IsLawful, read}
use agy_swap.Vault.Secret.{
  account_token, token_of_ref, save_account_secret, store_in_vault, keep_in_file,
  remember_token_expiry, remember_expiry, set_expiry, account_secret_ref,
}

-- `remember_token_expiry` changes nothing but its two fields.
get-set_expiry :
    (go : GoLib) (account : Account) (expiry : Option Time) (key : String)
    → "access_expires_at" == key ≡ false
    → get_field key (set_expiry go account expiry) ≡ get_field key account
unfolding set_expiry
get-set_expiry go account none key h = rw (get-delete "access_expires_at" key account, h)
get-set_expiry go account (some t) key h = rw (get-set "access_expires_at" key _ account, h)

get-remember_expiry :
    (go : GoLib) (account : Account) (inner : Option Fields) (key : String)
    → "access_expires_at" == key ≡ false
    → get_field key (remember_expiry go account inner) ≡ get_field key account
get-remember_expiry go account none key h =
    unfold remember_expiry in rw (get-delete "access_expires_at" key account, h)
get-remember_expiry go account (some inner) key h =
    unfold remember_expiry in get-set_expiry go account (token_expiry go inner) key h

get-remember :
    (go : GoLib) (account : Account) (token key : String)
    → "access_expires_at" == key ≡ false
    → "refresh_hash" == key ≡ false
    → get_field key (remember_token_expiry go account token) ≡ get_field key account
unfolding remember_token_expiry
get-remember go account token key h r =
    rw (get-remember_expiry go _ (token_object (decode_token go token)) key h) (
      ground (
        arith,
        get-delete "refresh_hash" key account,
        get-set "refresh_hash" key (text (hash_token go (token_refresh_token go token))) account,
      ))

get-keep_in_file :
    (go : GoLib) (account : Account) (token : String)
    → get_string (keep_in_file go account token) "token_data" ≡ token
unfolding keep_in_file
get-keep_in_file go account token =
    rw (get-remember go _ token "token_data" refl refl) (simp field_laws)

-- Where `account_token` finds a token.
account_token_in_file :
    {S : Type 0} (go : GoLib) (vault : Option (AccountVault S)) (s : S) (account : Account)
    (token : String)
    → get_string account "secret_ref" ≡ ""
    → get_string account "token_data" ≡ token
    → token ≢ ""
    → (account_token go vault s account).0 ≡ ok token
unfolding account_token
account_token_in_file go vault s account token no_ref here h =
    rw (no_ref, here, ne→==-false token "" h)

account_token_in_vault :
    {S : Type 0} (go : GoLib) (v : AccountVault S) (s : S) (account : Account) (ref token : String)
    → get_string account "secret_ref" ≡ ref
    → ref ≢ ""
    → read v s ref ≡ some token
    → token ≢ ""
    → (account_token go (some v) s account).0 ≡ ok token
unfolding account_token token_of_ref
account_token_in_vault go v s account ref token at h here h' =
    rw (at, ne→==-false ref "" h) (ground (arith, here, ne→==-false token "" h'))

keep_in_file_found :
    {S : Type 0} (go : GoLib) (vault : Option (AccountVault S)) (s : S) (account : Account)
    (token : String)
    → token ≢ ""
    → (account_token go vault s (delete_field "secret_ref" (keep_in_file go account token))).0
      ≡ ok token
keep_in_file_found go vault s account token h =
    account_token_in_file go vault s _ token (simp get-delete)
      (rw (get-delete "secret_ref" "token_data" (keep_in_file go account token))
        (get-keep_in_file go account token))
      h

store_in_vault_found :
    {S : Type 0} (go : GoLib) (v : AccountVault S) (s : S) (account : Account)
    (email token : String)
    → IsLawful v
    → trim_space (account_secret_ref go email) ≡ account_secret_ref go email
    → trim_space token ≡ token
    → token ≢ ""
    → let saved = store_in_vault go v s account email token in
      (account_token go (some v) saved.vault saved.account).0 ≡ ok token
unfolding store_in_vault trim_space
store_in_vault_found go v s account email token lawful kept trimmed h =
    let ref = account_secret_ref go email in
    elim (Bool-cases (v.set s ref token).0) [
      | inr failed ↦
          rw failed (keep_in_file_found go (some v) (v.set s ref token).1 account token h)
      | inl done ↦ rw done (
          account_token_in_vault go v (v.set s ref token).1 _ ref token
            (rw (get-delete "token_data" "secret_ref" _)
              (rw (get-remember go _ token "secret_ref" refl refl) (simp field_laws)))
            (λ blank. false≢true (sym (lawful.set_blank s ref token (rw blank refl)) ∙ done))
            (lawful.get-set s ref token kept trimmed done) h)
    ]

pub account_secret_ref-trimmed :
    (go : GoLib) (email : String)
    → IsLowering go
    → trim_space (account_secret_ref go email) ≡ account_secret_ref go email
unfolding account_secret_ref trim_space
account_secret_ref-trimmed go email lowering =
    let e = normalize_email go email in
    elim (Bool-cases (e == "")) [
      | inl blank ↦ rw blank refl
      | inr kept ↦ rw kept (account-trimmed e (normalize_email-trimmed go email lowering))
    ]

-- Whatever vault there is and whatever it answers, the account that comes out of
-- `save_account_secret` still gives the token that was saved, in trimmed form: from the vault if it
-- took the token, and from the account itself if not. The vault is lawful, the token is not blank, and
-- lower-casing a trimmed text leaves it trimmed.
pub save-account_token :
    {S : Type 0} (go : GoLib) (v : AccountVault S) (s : S) (account : Account) (token : String)
    → IsLowering go
    → IsLawful v
    → trim_space token ≢ ""
    → let saved = save_account_secret go (some v) s account token in
      let unsaved = save_account_secret go none s account token in
      ((account_token go (some v) saved.vault saved.account).0 ≡ ok (trim_space token))
      × ((account_token {S = S} go none unsaved.vault unsaved.account).0 ≡ ok (trim_space token))
unfolding save_account_secret
save-account_token go v s account token lowering lawful h =
    let t = trim_space token in
    let b = ne→==-false t "" h in
    (
      elim (Bool-cases (get_string account "email" == "")) [
        | inl anonymous ↦ rw (anonymous, b) (keep_in_file_found go (some v) s account t h)
        | inr named ↦
            rw (named, b)
              (store_in_vault_found go v s account (get_string account "email") t lawful
                (account_secret_ref-trimmed go (get_string account "email") lowering)
                (trim_space_idem token) h)
      ],
      rw b (keep_in_file_found go none s account t h),
    )
