-- ===== src/Quota/Refresh/Answered.antt =====
-- internal/app/quota.go: no account whose quota was read is forgotten.
use agy_swap.Prelude.{
  ℕ, String, false, not, ◌&&◌, List, [], ◌∷◌, ◌++◌, Option, none, some, ◌≡◌, refl, ◌∙◌, ap, ◌==◌,
  member, map, arith, eq_iff, eq_refl, Bool-cases, inl, inr, if-cases,
}
use agy_swap.Prelude.Map
use agy_swap.Prelude.Map.{Map, get-insert}
use agy_swap.Value.{Account, Fields, object, get_field, get_string, set_field, get-set}
use agy_swap.GoLib.{GoLib}
use agy_swap.Clock.{Time}
use agy_swap.Errors.{Result, ok, err, error_text}
use agy_swap.Vault.{AccountVault}
use agy_swap.Vault.Secret.{save_account_secret}
use agy_swap.Quota.Refresh.{
  Answer, Refresh, original_of, saved_copy, with_new_token, before_read, with_read, apply_answer,
  apply_answers, storage_message,
}

module _ {S : Type 0} (go : GoLib) (jitter : ℕ → ℕ) (vault : Option (AccountVault S))
    (now : Time) where
  saved_copy-by_email :
      (v : Option (AccountVault S)) (account : Account) (token : String) (r : Refresh S)
      → (saved_copy go v account token r).1.by_email ≡ r.by_email
  unfolding saved_copy
  saved_copy-by_email none account token r = refl
  saved_copy-by_email (some v) account token r = refl

  saved_copy-errors :
      (v : Option (AccountVault S)) (account : Account) (token k : String) (r : Refresh S)
      → "storage" == k ≡ false
      → Map.get k (saved_copy go v account token r).1.errors ≡ Map.get k r.errors
  unfolding saved_copy
  saved_copy-errors none account token k r h = refl
  saved_copy-errors (some v) account token k r h =
      if-cases (λ (m : Map String). Map.get k m ≡ Map.get k r.errors)
        (save_account_secret go (some v) r.vault account token).stored r.errors
        (Map.insert "storage" storage_message r.errors) (λ stored. refl)
        (λ kept. rw (get-insert "storage" k storage_message r.errors, h) refl)

  with_new_token-kept :
      (a : Answer) (original : Account) (k : String) (r : Refresh S)
      → "storage" == k ≡ false
      → ((with_new_token go vault a original r).1.by_email ≡ r.by_email)
        × (Map.get k (with_new_token go vault a original r).1.errors ≡ Map.get k r.errors)
  unfolding with_new_token
  with_new_token-kept a original k r h =
      let updated = get_string a.account "token_data" in
      elim (Bool-cases (not (updated == "") && not (updated == get_string original "token_data"))) [
        | inl renewed ↦ rw renewed (
          saved_copy-by_email vault a.account updated r,
          saved_copy-errors vault a.account updated k r h,
        )
        | inr same ↦ rw same (refl, refl)
      ]

  with_read-other :
      (email k : String) (read : Result Fields) (original : Account) (r : Refresh S)
      → email == k ≡ false
      → (Map.get k (with_read go email read original r).by_email ≡ Map.get k r.by_email)
        × (Map.get k (with_read go email read original r).errors ≡ Map.get k r.errors)
  unfolding with_read
  with_read-other email k (err e) original r h = (
    rw (get-insert email k original r.by_email, h) refl,
    rw (get-insert email k (error_text go e) r.errors, h) refl,
  )
  with_read-other email k (ok snapshot) original r h = (
    rw (get-insert email k (set_field "quota_snapshot" (object snapshot) original) r.by_email, h)
        refl,
    refl,
  )

  -- The account has the snapshot that was read, or its error is reported.
  unfoldable pub IsAnswered : String → Result Fields → Refresh S → Type 0
  IsAnswered email (ok snapshot) r =
      get_field "quota_snapshot" (original_of r.by_email email) ≡ some (object snapshot)
  IsAnswered email (err e) r = Map.get email r.errors ≡ some (error_text go e)

  with_read-IsAnswered :
      (email : String) (read : Result Fields) (original : Account) (r : Refresh S)
      → IsAnswered email read (with_read go email read original r)
  unfolding with_read IsAnswered
  with_read-IsAnswered email (err e) original r =
      rw (get-insert email email (error_text go e) r.errors, eq_refl email) refl
  with_read-IsAnswered email (ok snapshot) original r =
      rw
        (
          get-insert email email (set_field "quota_snapshot" (object snapshot) original) r.by_email,
          eq_refl email,
          get-set "quota_snapshot" "quota_snapshot" (object snapshot) original,
        )
        refl

  IsAnswered-kept :
      (email : String) (read : Result Fields) (r r' : Refresh S)
      → Map.get email r'.by_email ≡ Map.get email r.by_email
      → Map.get email r'.errors ≡ Map.get email r.errors
      → IsAnswered email read r
      → IsAnswered email read r'
  unfolding IsAnswered
  IsAnswered-kept email (ok snapshot) r r' same errors a = rw same a
  IsAnswered-kept email (err e) r r' same errors a = errors ∙ a

  before_read-kept :
      (b : Answer) (k : String) (r : Refresh S)
      → "storage" == k ≡ false
      → ((before_read go jitter vault now b r).1.by_email ≡ r.by_email)
        × (Map.get k (before_read go jitter vault now b r).1.errors ≡ Map.get k r.errors)
  unfolding before_read
  before_read-kept b k r h = with_new_token-kept b (original_of r.by_email b.email) k r h

  apply_answer-other :
      (b : Answer) (k : String) (r : Refresh S)
      → "storage" == k ≡ false
      → b.email == k ≡ false
      → (Map.get k (apply_answer go jitter vault now b r).by_email ≡ Map.get k r.by_email)
        × (Map.get k (apply_answer go jitter vault now b r).errors ≡ Map.get k r.errors)
  unfolding apply_answer
  apply_answer-other b k r h ne =
      let (original, r') = before_read go jitter vault now b r in
      let (same, errors) = before_read-kept b k r h in
      let (w, w') = with_read-other b.email k b.read original r' ne in
      (w ∙ ap (λ m. Map.get k m) same, w' ∙ errors)

  settled_later :
      (answers : List Answer) (email : String) (read : Result Fields) (r : Refresh S)
      → "storage" == email ≡ false
      → member email (map (λ a. a.email) answers) ≡ false
      → IsAnswered email read r
      → IsAnswered email read (apply_answers go jitter vault now answers r)
  unfolding apply_answers
  settled_later [] email read r h m a = a
  settled_later (b ∷ answers) email read r h m a =
      let (same, errors) =
        apply_answer-other b email r h
          (ground (arith, eq_iff b.email email, eq_iff email b.email)) in
      settled_later answers email read (apply_answer go jitter vault now b r) h (ground arith)
        (IsAnswered-kept email read r (apply_answer go jitter vault now b r) same errors a)

  -- Whatever order the answers come in, an account that was read once ends with the snapshot that was read, or with
  -- its error in the result. (An account named "storage" is none: that name reports the vault.)
  pub apply_answers-IsAnswered :
      (before after : List Answer) (a : Answer) (r : Refresh S)
      → "storage" == a.email ≡ false
      → member a.email (map (λ b. b.email) after) ≡ false
      → IsAnswered a.email a.read (apply_answers go jitter vault now (before ++ a ∷ after) r)
  unfolding apply_answers
  apply_answers-IsAnswered [] after a r h m =
      settled_later after a.email a.read (apply_answer go jitter vault now a r) h m (
        let (original, r') = before_read go jitter vault now a r in
        unfold apply_answer in with_read-IsAnswered a.email a.read original r')
  apply_answers-IsAnswered (b ∷ before) after a r h m =
      apply_answers-IsAnswered before after a (apply_answer go jitter vault now b r) h m
