-- ===== src/Store/Disk/Saving.antt =====
-- internal/app/store.go: saving the accounts over a file that another process may have changed.
use agy_swap.Prelude.{
  refl, String, ◌≡◌, ◌⊎◌, Bool, true, false, ◌&&◌, Option, none, some, if◌then◌else◌, nat_eq, ◌==◌,
  eq_refl, arith, is_some, Option-cases, inl, inr, ◌||◌,
}
use agy_swap.Errors.{GoError}
use agy_swap.GoLib.{GoLib}
use agy_swap.Accounts.{Accounts}
use agy_swap.Store.Validate.{validate_accounts}
use agy_swap.Store.Disk.{
  File, Disk, Fate, modified_at, content_of, write_accounts, back_up, save_payload, save_checked,
  save_unlocked,
}

-- The accounts are those of the file: same modification time, and same text if the text is known.
abbrev pub is_current : GoLib → Accounts → Option File → Bool
is_current go a file =
    nat_eq a.revision (modified_at file)
    && (nat_eq (modified_at file) 0
        || a.revision_hash == ""
        || a.revision_hash == go.sha256_hex (content_of file))

payload_saved :
    (go : GoLib) (fate : Fate) (a : Accounts) (payload : Option String) (d : Disk)
    → (save_payload go fate a payload d).0 ≡ none
    → let (a', d') = (save_payload go fate a payload d).1 in
      (is_current go a d.accounts ≡ true)
      × (is_current go a' d'.accounts ≡ true)
      × (some (content_of d'.accounts) ≡ payload)
      × (if nat_eq (modified_at d.accounts) 0
          then d'.backup ≡ d.backup
          else d'.backup ≡ some (content_of d.accounts))
unfolding save_payload back_up write_accounts
payload_saved go fate a none d h = absurd (ground arith)
payload_saved go fate a (some payload) d h =
    (ground arith, ground (arith, eq_refl (go.sha256_hex payload)), ground arith, ground arith)

-- A save that succeeds replaced the very file that the accounts were read from, and left its text in the
-- backup if there was one; the file now holds the text of the accounts that were checked, and those are
-- the current ones, so that they can be saved again.
pub save_unlocked-saved :
    (go : GoLib) (encode : Accounts → Option String) (fate : Fate) (a : Accounts) (d : Disk)
    → (save_unlocked go encode fate a d).0 ≡ none
    → let checked = (validate_accounts go a).1 in
      let (a', d') = (save_unlocked go encode fate a d).1 in
      ((validate_accounts go a).0 ≡ none)
      × (is_current go checked d.accounts ≡ true)
      × (is_current go a' d'.accounts ≡ true)
      × (some (content_of d'.accounts) ≡ encode checked)
      × (if nat_eq (modified_at d.accounts) 0
          then d'.backup ≡ d.backup
          else d'.backup ≡ some (content_of d.accounts))
unfolding save_unlocked save_checked
save_unlocked-saved go encode fate a d h =
    let checked = (validate_accounts go a).1 in
    elim (Option-cases (validate_accounts go a).0) [
      | inr (e, refused) ↦ absurd (ground arith)
      | inl accepted ↦
          let p = payload_saved go fate checked (encode checked) d (ground arith) in
          (accepted, p.0, ground (arith, p), ground (arith, p), ground (arith, p))
    ]

-- Accounts that are not the file's, because another process has saved its own since, are refused, and
-- nothing on disk changes.
pub save_unlocked-stale :
    (go : GoLib) (encode : Accounts → Option String) (fate : Fate) (a : Accounts) (d : Disk)
    → is_current go (validate_accounts go a).1 d.accounts ≡ false
    → (is_some (save_unlocked go encode fate a d).0 ≡ true)
      × ((save_unlocked go encode fate a d).1.1 ≡ d)
unfolding save_unlocked save_checked save_payload back_up
save_unlocked-stale go encode fate a d h = (ground arith, ground arith)

-- A save that fails leaves accounts.json as it was, or holding the whole text of the accounts that were
-- checked.
pub save_unlocked-failed :
    (go : GoLib) (encode : Accounts → Option String) (fate : Fate) (a : Accounts) (d : Disk)
    → is_some (save_unlocked go encode fate a d).0 ≡ true
    → let d' = (save_unlocked go encode fate a d).1.1 in
      (d'.accounts ≡ d.accounts)
      ⊎ (some (content_of d'.accounts) ≡ encode (validate_accounts go a).1)
unfolding save_unlocked save_checked save_payload back_up write_accounts
save_unlocked-failed go encode fate a d h = ground arith

save_payload-by_email :
    (go : GoLib) (fate : Fate) (a : Accounts) (payload : Option String) (d : Disk)
    → (save_payload go fate a payload d).1.0.by_email ≡ a.by_email
unfolding save_payload back_up write_accounts
save_payload-by_email go fate a none d = ground arith
save_payload-by_email go fate a (some payload) d = ground arith

save_checked-by_email :
    (go : GoLib) (encode : Accounts → Option String) (fate : Fate) (e : Option GoError)
    (a : Accounts) (d : Disk)
    → (save_checked go encode fate (e, a) d).1.0.by_email ≡ a.by_email
unfolding save_checked
save_checked-by_email go encode fate none a d = save_payload-by_email go fate a (encode a) d
save_checked-by_email go encode fate (some e) a d = refl

-- The accounts that a save leaves in memory are those that the check left.
pub save_unlocked-by_email :
    (go : GoLib) (encode : Accounts → Option String) (fate : Fate) (a : Accounts) (d : Disk)
    → (save_unlocked go encode fate a d).1.0.by_email ≡ (validate_accounts go a).1.by_email
unfolding save_unlocked
save_unlocked-by_email go encode fate a d = save_checked-by_email go encode fate _ _ d
