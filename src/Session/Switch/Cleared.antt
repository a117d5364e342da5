-- ===== src/Session/Switch/Cleared.antt =====
-- internal/app/credentials.go: after a sign-out that meets no error, no session is left.
use agy_swap.Prelude.{
  String, true, List, [], ◌∷◌, none, ◌≡◌, refl, sym, ◌∙◌, if◌then◌else◌, member, arith, eq_iff,
  eq_refl, map, All,
}
use agy_swap.Prelude.Map
use agy_swap.Prelude.Map.{get-erase}
use agy_swap.GoLib.{GoLib}
use agy_swap.Token.{decode_token, has_oauth_session}
use agy_swap.Session.{
  Paths, SessionLib, Faults, SessionFiles, oauth_token_paths, session_file_paths, read_file,
  token_text, read_oauth_token_from_file, surface_tokens, best_token, read_oauth_token,
}
use agy_swap.Session.Writing.Rollback.{member-used}
use agy_swap.Session.Switch.{
  CredentialBackend, Mode, Live, remove_each, delete_oauth_files, current, clear_unlocked,
}

-- Every file can be removed.
pub record IsRemovable (f : Faults) : Type 0 where
  pub can_remove : (path : String) → f.can_remove path ≡ true

remove_each-get :
    (f : Faults) (paths : List String) (q : String) (files : SessionFiles)
    → IsRemovable f
    → ((remove_each f paths files).0 ≡ true)
      × (Map.get q (remove_each f paths files).1
          ≡ (if member q paths then none else Map.get q files))
unfolding remove_each
remove_each-get f [] q files r = (refl, refl)
remove_each-get f (path ∷ paths) q files r =
    let (done, gone) = remove_each-get f paths q (Map.erase path files) r in
    rw (r.can_remove path) (
      ground arith,
      gone ∙ rw (get-erase path q files) (ground (arith, eq_iff path q, eq_iff q path)),
    )

best_token-blank :
    (go : GoLib) (tokens : List String) → All (λ t. t ≡ "") tokens → best_token go tokens "" "" ≡ ""
unfolding best_token has_oauth_session decode_token
best_token-blank go [] h = refl
best_token-blank go (t ∷ tokens) (h, hs) = rw h (best_token-blank go tokens hs)

gone_tokens :
    (lib : SessionLib) (f : Faults) (files : SessionFiles) (paths : List String)
    → ((q : String) → member q paths ≡ true → Map.get q files ≡ none)
    → All (λ t. t ≡ "") (map (read_oauth_token_from_file lib f files) paths)
unfolding read_oauth_token_from_file read_file token_text
gone_tokens lib f files [] h = tt
gone_tokens lib f files (path ∷ paths) h =
    let e = h path (ground (arith, eq_refl path)) in
    (ground (arith, e), gone_tokens lib f files paths (λ q m. h q (ground arith)))

token_path-session :
    (p : Paths) (q : String)
    → member q (oauth_token_paths p) ≡ true
    → member q (session_file_paths p true) ≡ true
unfolding oauth_token_paths session_file_paths
token_path-session p q m =
    let tokens = p.oauth_token ∷ p.ide_oauth_token ∷ p.jetski_token ∷ [] in
    let all =
      p.oauth_token ∷ p.ide_oauth_token ∷ p.jetski_token ∷ p.oauth_credentials ∷ p.google_accounts
      ∷ [] in
    member-used q all ∙ ground (arith, sym (member-used q tokens) ∙ m)

-- A sign-out for which every file can be removed, and every entry of the credential store, reports success, and
-- no session is found any more.
pub clear_unlocked-done :
    {K : Type 0} (go : GoLib) (lib : SessionLib) (p : Paths) (f : Faults) (v : CredentialBackend K)
    (mode : Mode) (s : Live K)
    → IsRemovable f
    → ((k : K) → v.get (v.delete k).1 ≡ "")
    → ((clear_unlocked go lib p f v mode s).0 ≡ true)
      × (current go lib p f v mode (clear_unlocked go lib p f v mode s).1 ≡ "")
unfolding clear_unlocked current delete_oauth_files
clear_unlocked-done go lib p f v mode s r d =
    let files' = (delete_oauth_files p f s.files).1 in
    let paths = session_file_paths p true in
    let removed : (delete_oauth_files p f s.files).0 ≡ true =
      (remove_each-get f paths "" s.files r).0 in
    let empty : read_oauth_token go lib p f files' ≡ "" =
      unfold read_oauth_token surface_tokens in
      best_token-blank go _ (
        gone_tokens lib f files' (oauth_token_paths p)
          (λ q m. (remove_each-get f paths q s.files r).1 ∙ rw (token_path-session p q m) refl)) in
    let signed_out = (eq_iff (read_oauth_token go lib p f files') "").1 empty in
    let deleted = d s.keyring in (ground (arith, eq_refl ""), ground arith)
