-- ===== src/Session.antt =====
-- internal/app/credentials.go: the session that Antigravity runs with. It stands in up to three token
-- files, in the file of credentials, and in the file that names the active account; on some systems
-- also in the operating system's credential store, `CredentialBackend`.
-- The files are a map from paths to texts. What the file system lets a call do is an argument,
-- `Faults`. Marker files, the IDE's database and the signals to its processes are not modelled.
pub mod Writing
pub mod Switch
pub mod Owner
pub mod Guard
use Prim.Native.String.{◌++◌}
use agy_swap.Prelude.{
  String, Bool, false, not, ◌&&◌, List, [], ◌∷◌, Option, none, some, if◌then◌else◌, ◌==◌, map,
}
use agy_swap.Prelude.Map
use agy_swap.Prelude.Map.{Map}
use agy_swap.Value.{Fields, get_string}
use agy_swap.GoLib.{GoLib}
use agy_swap.Clock.{after}
use agy_swap.Email.{normalize_email}
use agy_swap.Files.{WriteOutcome}
use agy_swap.Token.{
  decode_token, token_object, token_expiry, token_refresh_token, hash_token, has_oauth_session,
}

-- The paths that the session uses; an empty one is not used.
pub record Paths : Type 0 where
  pub oauth_token : String
  pub ide_oauth_token : String
  pub jetski_token : String
  pub oauth_credentials : String
  pub google_accounts : String

-- The parts of the standard library that only the session needs.
pub record SessionLib : Type 0 where
  pub is_json : String → Bool  -- json.Unmarshal into an `any`
  pub encode_base64 : String → String  -- base64.StdEncoding.EncodeToString
  pub encode_json : Fields → Option String  -- what AtomicWriteJSON writes for a map
  pub equal_fold : String → String → Bool  -- strings.EqualFold

-- What the file system does at each path: reading, writing, writing in a roll-back, and removing.
pub record Faults : Type 0 where
  pub can_read : String → Bool
  pub write : String → WriteOutcome
  pub restore : String → WriteOutcome
  pub can_remove : String → Bool

abbrev pub SessionFiles : Type 0
SessionFiles = Map String

-- The paths that are not empty.
unfoldable pub used : List String → List String
used [] = []
used (path ∷ paths) = let rest = used paths in if path == "" then rest else path ∷ rest

unfoldable pub oauth_token_paths : Paths → List String
unfolding used
oauth_token_paths p = used (p.oauth_token ∷ p.ide_oauth_token ∷ p.jetski_token ∷ [])

unfoldable pub session_file_paths : Paths → Bool → List String
unfolding used oauth_token_paths
session_file_paths p include_google =
    let google = if include_google then p.google_accounts else "" in
    used (p.oauth_token ∷ p.ide_oauth_token ∷ p.jetski_token ∷ p.oauth_credentials ∷ google ∷ [])

-- os.ReadFile, without the difference between a missing file and one that cannot be read
unfoldable pub read_file : Faults → SessionFiles → String → Option String
read_file f files path = if f.can_read path then Map.get path files else none

token_text : SessionLib → Option String → String
token_text lib none = ""
token_text lib (some content) =
    if lib.is_json content then "go-keyring-base64:" ++ lib.encode_base64 content else ""

unfoldable pub read_oauth_token_from_file : SessionLib → Faults → SessionFiles → String → String
unfolding token_text read_file
read_oauth_token_from_file lib f files path =
    if path == "" then "" else token_text lib (read_file f files path)

fresher_decoded : GoLib → Option Fields → Option Fields → Bool
fresher_decoded go existing none = false
fresher_decoded go none (some candidate) = not (get_string candidate "access_token" == "")
fresher_decoded go (some existing) (some candidate) =
    not (get_string candidate "access_token" == "") && elim (token_expiry go existing) [
      | none ↦ false
      | some t ↦ elim (token_expiry go candidate) [ none ↦ false | some u ↦ after u t ]
    ]

unfoldable pub token_is_strictly_fresher : GoLib → String → String → Bool
unfolding fresher_decoded
token_is_strictly_fresher go existing candidate =
    if hash_token go existing == hash_token go candidate
    then false
    else fresher_decoded go (token_object (decode_token go existing))
        (token_object (decode_token go candidate))

-- The loop of `readOAuthToken`: the best token so far, and the refresh token of the first one.
best_token : GoLib → List String → String → String → String
unfolding token_is_strictly_fresher
best_token go [] best best_refresh = best
best_token go (candidate ∷ candidates) best best_refresh =
    if not (has_oauth_session go candidate)
    then best_token go candidates best best_refresh
    else if best == ""
    then best_token go candidates candidate (token_refresh_token go candidate)
    else best_token go candidates
        (if not (best_refresh == "")
            && token_refresh_token go candidate == best_refresh
            && token_is_strictly_fresher go best candidate
          then candidate
          else best)
        best_refresh

-- What stands in the token files, in their order.
unfoldable pub surface_tokens : SessionLib → Paths → Faults → SessionFiles → List String
unfolding read_oauth_token_from_file oauth_token_paths
surface_tokens lib p f files = map (read_oauth_token_from_file lib f files) (oauth_token_paths p)

unfoldable pub read_oauth_token : GoLib → SessionLib → Paths → Faults → SessionFiles → String
unfolding best_token surface_tokens
read_oauth_token go lib p f files = best_token go (surface_tokens lib p f files) "" ""

abbrev active_of : GoLib → Option Fields → String
active_of go none = ""
active_of go (some parsed) = normalize_email go (get_string parsed "active")

unfoldable pub stored_active_email : GoLib → Paths → Faults → SessionFiles → String
unfolding read_file
stored_active_email go p f files = elim (read_file f files p.google_accounts) [
  | none ↦ ""
  | some content ↦ active_of go (go.unmarshal_object content)
]
