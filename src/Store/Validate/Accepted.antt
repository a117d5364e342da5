-- ===== src/Store/Validate/Accepted.antt =====
-- internal/app/store.go: what `validate_accounts` makes sure of.
use agy_swap.Prelude.{
  eq_refl, ◌∙◌, String, ◌≡◌, true, false, List, [], ◌∷◌, none, some, if◌then◌else◌, member, ◌==◌,
  eq_iff, arith, All, is_nodup, map, refl, ap, Option-cases, Bool-cases, inl, inr,
}
use agy_swap.Prelude.Map
use agy_swap.Prelude.Map.{Map, get-insert}
use agy_swap.Value.{Account, get_field, get_string, text_of, first_string}
use agy_swap.GoLib.{GoLib}
use agy_swap.Email.{normalize_email}
use agy_swap.Accounts.{Accounts}
use agy_swap.Errors.{Result-cases}
use agy_swap.Store.Validate.Fields.{IsValid, validate_account-IsValid}
use agy_swap.Store.Validate.{validate_account, validate_keys, validate_accounts}

abbrev email_of : GoLib → String → Account → String
email_of go key account = normalize_email go (first_string (get_field "email" account) key)

-- Under `key` there was an account with a valid email, and there is now the account with that email: its saved
-- token is the old one, which decodes and names no other email, and its snapshot, if any, is well-formed.
pub record IsAccepted (go : GoLib) (before after : Map Account) (key : String) : Type 0 where
  pub old : Account
  pub new : Account
  pub was : Map.get key before ≡ some old
  pub has_email : email_of go key old == "" ≡ false
  pub valid : IsValid go (email_of go key old) old new
  pub is : Map.get key after ≡ some new

-- A key that is not listed keeps its account.
validate_keys_ne :
    (go : GoLib) (keys seen : List String) (m m' : Map Account) (j : String)
    → validate_keys go keys seen m ≡ (none, m')
    → member j keys ≡ false
    → Map.get j m' ≡ Map.get j m
unfolding validate_keys
validate_keys_ne go [] seen m m' j h out = ground arith
validate_keys_ne go (key ∷ keys) seen m m' j h out = elim (Option-cases (Map.get key m)) [
  | inl absent ↦ absurd (ground arith)
  | inr (account, at) ↦
      let email = email_of go key account in
      elim (Result-cases (validate_account go email account)) [
        | inl (e, failed) ↦ absurd (ground arith)
        | inr (new, valid) ↦ ground (
          arith,
          validate_keys_ne go keys (email ∷ seen) (Map.insert key new m) m' j,
          get-insert key j new m,
          eq_iff j key,
          eq_iff key j,
        )
      ]
]

-- What holds after the rest of the keys holds for the whole list: an earlier key is not among them.
later-IsAccepted :
    (go : GoLib) (key : String) (new : Account) (m m' : Map Account) (keys : List String)
    → member key keys ≡ false
    → All (IsAccepted go (Map.insert key new m) m') keys
    → All (IsAccepted go m m') keys
later-IsAccepted go key new m m' [] out h = tt
later-IsAccepted go key new m m' (j ∷ keys) out (here, there) = (
  record {
    old = here.old;
    new = here.new;
    was = ground (arith, here.was, get-insert key j new m, eq_iff key j, eq_iff j key);
    has_email = here.has_email;
    valid = here.valid;
    is = here.is;
  },
  later-IsAccepted go key new m m' keys (ground arith) there,
)

validate_keys-All :
    (go : GoLib) (keys seen : List String) (m m' : Map Account)
    → is_nodup keys ≡ true
    → validate_keys go keys seen m ≡ (none, m')
    → All (IsAccepted go m m') keys
unfolding validate_keys
validate_keys-All go [] seen m m' nodup h = tt
validate_keys-All go (key ∷ keys) seen m m' nodup h = elim (Option-cases (Map.get key m)) [
  | inl absent ↦ absurd (ground arith)
  | inr (account, at) ↦
      let email = email_of go key account in
      elim (Result-cases (validate_account go email account)) [
        | inl (e, failed) ↦ absurd (ground arith)
        | inr (new, valid) ↦
            let rest : validate_keys go keys (email ∷ seen) (Map.insert key new m) ≡ (none, m') =
              ground arith in
            (
              record {
                old = account;
                new = new;
                was = at;
                has_email = ground arith;
                valid = validate_account-IsValid go email account new valid;
                is =
                    validate_keys_ne go keys (email ∷ seen) (Map.insert key new m) m' key rest
                      (ground arith)
                    ∙ ground (arith, get-insert key key new m, eq_refl key);
              },
              later-IsAccepted go key new m m' keys (ground arith) (
                  validate_keys-All go keys (email ∷ seen) (Map.insert key new m) m' (ground arith)
                    rest),
            )
      ]
]

-- The email of the account under a key.
abbrev pub address_in : Map Account → String → String
address_in m key = elim (Map.get key m) [ none ↦ "" | some account ↦ get_string account "email" ]

unlisted :
    (f : String → String) (email : String) (seen keys : List String)
    → All (λ key. member (f key) (email ∷ seen) ≡ false) keys
    → (member email (map f keys) ≡ false) × All (λ key. member (f key) seen ≡ false) keys
unlisted f email seen [] h = (refl, tt)
unlisted f email seen (key ∷ keys) (h, hs) =
    let rest = unlisted f email seen keys hs in
    (
      ground (arith, h, rest.0, eq_iff email (f key), eq_iff (f key) email),
      (ground (arith, h), rest.1),
    )

-- Every key is given an email of its own, which was not seen before.
validate_keys-addresses :
    (go : GoLib) (keys seen : List String) (m m' : Map Account)
    → is_nodup keys ≡ true
    → validate_keys go keys seen m ≡ (none, m')
    → (is_nodup (map (address_in m') keys) ≡ true)
      × All (λ key. member (address_in m' key) seen ≡ false) keys
unfolding validate_keys
validate_keys-addresses go [] seen m m' nodup h = (refl, tt)
validate_keys-addresses go (key ∷ keys) seen m m' nodup h = elim (Option-cases (Map.get key m)) [
  | inl absent ↦ absurd (ground arith)
  | inr (account, at) ↦
      let email = email_of go key account in
      elim (Result-cases (validate_account go email account)) [
        | inl (e, failed) ↦ absurd (ground arith)
        | inr (new, valid) ↦
            let rest : validate_keys go keys (email ∷ seen) (Map.insert key new m) ≡ (none, m') =
              ground arith in
            let (nodups, unseen) =
              validate_keys-addresses go keys (email ∷ seen) (Map.insert key new m) m'
                (ground arith) rest in
            let here : Map.get key m' ≡ some new =
              validate_keys_ne go keys (email ∷ seen) (Map.insert key new m) m' key rest
                (ground arith)
              ∙ ground (arith, get-insert key key new m, eq_refl key) in
            let its : address_in m' key ≡ email =
              rw (address_in, here)
                (ap text_of (validate_account-IsValid go email account new valid).address) in
            let out = unlisted (address_in m') email seen keys unseen in
            let fresh : member email seen ≡ false = ground arith in
            (
              ground (arith, nodups, ap (λ x. member x (map (address_in m') keys)) its ∙ out.0),
              (ap (λ x. member x seen) its ∙ fresh, out.1),
            )
      ]
]

-- If accounts that list no key twice are accepted, then every key that they list had an account, with a valid
-- email, and has now the account with that email, in which the saved token is the old one, which decodes and
-- names no other email, and the snapshot, if any, is well-formed; no two of them have one email; and an account
-- that is not listed is as it was.
pub validate_accounts-All :
    (go : GoLib) (accounts : Accounts) (j : String)
    → is_nodup accounts.order ≡ true
    → (validate_accounts go accounts).0 ≡ none
    → All
        (IsAccepted go accounts.by_email (validate_accounts go accounts).1.by_email)
        accounts.order
      × (is_nodup (map (address_in (validate_accounts go accounts).1.by_email) accounts.order)
          ≡ true)
      × (if member j accounts.order
          then Unit
          else Map.get j (validate_accounts go accounts).1.by_email ≡ Map.get j accounts.by_email)
unfolding validate_accounts
validate_accounts-All go accounts j nodup h =
    let run = validate_keys go accounts.order [] accounts.by_email in
    let same : run ≡ (none, run.1) = ground arith in
    (
      validate_keys-All go accounts.order [] accounts.by_email run.1 nodup same,
      (validate_keys-addresses go accounts.order [] accounts.by_email run.1 nodup same).0,
      elim (Bool-cases (member j accounts.order)) [
        | inl listed ↦ rw listed tt
        | inr out ↦
            rw out (validate_keys_ne go accounts.order [] accounts.by_email run.1 j same out)
      ],
    )
