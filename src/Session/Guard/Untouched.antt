-- ===== src/Session/Guard/Untouched.antt =====
-- internal/app/session_guard.go: what `reconcileActiveSession` leaves alone.
use agy_swap.Prelude.{
  String, Bool, true, false, List, [], ◌∷◌, ◌++◌, some, ◌≡◌, refl, if◌then◌else◌, arith, if-cases,
  nat_eq,
}
use agy_swap.GoLib.{GoLib}
use agy_swap.Errors.{Result, ok}
use agy_swap.Token.{has_oauth_session}
use agy_swap.Accounts
use agy_swap.Accounts.{Accounts}
use agy_swap.Vault.{AccountVault}
use agy_swap.Vault.Migrate.{AccountStore}
use agy_swap.Session.{Paths, SessionLib, Faults, used, surface_tokens}
use agy_swap.Session.Switch.{CredentialBackend, Mode, Live}
use agy_swap.Session.Owner.{match_account_by_token}
use agy_swap.Session.Guard.{
  Kept, Found, if_any, visit, visit_each, after_visits, reconcile_loaded, reconcile_active_session,
}

if_any-same :
    {A B : Type 0} (a : A) (l : List String) (x y : A × B)
    → x.0 ≡ a
    → y.0 ≡ a
    → (if_any l x y).0 ≡ a
if_any-same a [] x y h g = g
if_any-same a (_ ∷ _) x y h g = h

module _ {S T : Type 0} (go : GoLib) (lib : SessionLib) (p : Paths) (f : Faults)
    (v : AccountVault S) (store : AccountStore T) where
  -- Once a session is found that nobody has saved, that stays known.
  visit_each-unsaved :
      {K : Type 0} (b : CredentialBackend K) (mode : Mode) (tokens : List String)
      (found : Found S T)
      → found.unsaved ≡ true
      → (visit_each go lib p f v store b mode tokens found).unsaved ≡ true
  unfolding visit_each visit
  visit_each-unsaved b mode [] found h = h
  visit_each-unsaved b mode (token ∷ tokens) found h =
      visit_each-unsaved b mode tokens (visit go lib p f v store b mode token found) (ground arith)

  visit-unsaved :
      {K : Type 0} (b : CredentialBackend K) (mode : Mode) (token : String) (found : Found S T)
      → (match_account_by_token go lib (some v) found.kept.accounts token found.kept.vault).0 ≡ ""
      → has_oauth_session go token ≡ true
      → (visit go lib p f v store b mode token found).unsaved ≡ true
  unfolding visit
  visit-unsaved b mode token found foreign session = rw foreign (ground arith)

  visit_each-append :
      {K : Type 0} (b : CredentialBackend K) (mode : Mode) (before after : List String)
      (found : Found S T)
      → visit_each go lib p f v store b mode (before ++ after) found
        ≡ visit_each go lib p f v store b mode after
            (visit_each go lib p f v store b mode before found)
  unfolding visit_each
  visit_each-append b mode [] after found = refl
  visit_each-append b mode (t ∷ before) after found =
      visit_each-append b mode before after (visit go lib p f v store b mode t found)

  after_visits-unsaved :
      {K : Type 0} (b : CredentialBackend K) (mode : Mode) (found : Found S T) (live : Live K)
      → found.unsaved ≡ true
      → (after_visits go lib p f v store b mode found live).0 ≡ live
  unfolding after_visits
  after_visits-unsaved b mode found live h = ground arith

  -- A session in one of the token files that belongs to no saved account, once the files before it have been
  -- seen to, keeps everything that Antigravity runs with as it is.
  pub reconcile_active_session-unsaved :
      {K : Type 0} (b : CredentialBackend K) (mode : Mode) (skip : Bool)
      (load : T → Result Accounts × T) (s : S) (t : T) (live : Live K) (before after : List String)
      (token : String) (accounts : Accounts)
      → used (surface_tokens lib p f live.files) ≡ before ++ token ∷ after
      → (load t).0 ≡ ok accounts
      → let start : Found S T = record {
        owners = [];
        unsaved = false;
        kept = record { accounts = accounts; vault = s; store = (load t).1 };
      } in
        let then_kept = (visit_each go lib p f v store b mode before start).kept in
        (match_account_by_token go lib (some v) then_kept.accounts token then_kept.vault).0 ≡ ""
        → has_oauth_session go token ≡ true
        → (reconcile_active_session go lib p f v store b mode skip load s t live).0 ≡ live
  unfolding reconcile_active_session reconcile_loaded after_visits
  reconcile_active_session-unsaved {K = K} b mode skip load s t live before after token accounts
        files loaded foreign session =
      let start : Found S T = record {
        owners = [];
        unsaved = false;
        kept = record { accounts = accounts; vault = s; store = (load t).1 };
      } in
      let reached = visit_each go lib p f v store b mode before start in
      let tokens = used (surface_tokens lib p f live.files) in
      let flag : (visit go lib p f v store b mode token reached).unsaved ≡ true =
        visit-unsaved b mode token reached foreign session in
      let all : (visit_each go lib p f v store b mode tokens start).unsaved ≡ true =
        rw (files, visit_each-append b mode before (token ∷ after) start)
          (unfold visit_each in
            visit_each-unsaved b mode after (visit go lib p f v store b mode token reached) flag) in
      let visited : (after_visits go lib p f v store b mode
            (visit_each go lib p f v store b mode tokens start) live).0
          ≡ live =
        after_visits-unsaved b mode (visit_each go lib p f v store b mode tokens start) live all in
      if_any-same live (if skip then [] else tokens)
        (reconcile_loaded go lib p f v store b mode tokens (load t).0 s (load t).1 live)
        (live, record { accounts = Accounts.new_accounts; vault = s; store = t })
        (rw loaded (
          if-cases (λ (r : Live K × Kept S T). r.0 ≡ live) (nat_eq (Accounts.len accounts) 0)
            (live, start.kept)
            (after_visits go lib p f v store b mode
              (visit_each go lib p f v store b mode tokens start) live)
            (λ none_saved. refl) (λ some_saved. visited)))
        refl
