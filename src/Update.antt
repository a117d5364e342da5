-- ===== src/Update.antt =====
-- internal/app/updater.go: where a release asset can be downloaded from. `NormalizedReleaseTag` is in
-- internal/client/updater.go.
pub mod Candidates
pub mod Version
use Prim.Native.Char.{code}
use Prim.Native.String.{◌++◌}
use agy_swap.Prelude.{
  String, Bool, true, false, not, ◌&&◌, ◌||◌, List, [], ◌∷◌, ◌++◌ as ◌<>◌, if◌then◌else◌, nat_eq,
  member, ◌==◌,
}
use agy_swap.Prelude.Text.{trim_space, has_prefix}

unfoldable pub normalized_release_tag : String → String
normalized_release_tag tag =
    let trimmed = trim_space tag in
    if not (trimmed == "") && not (has_prefix trimmed "v") then "v" ++ trimmed else trimmed

-- strings.TrimRight(s, "/")
trim_slashes : String → String
trim_slashes String.[] = String.[]
trim_slashes (String.◌∷◌ c s) =
    let rest = trim_slashes s in
    if nat_eq (code c) b'/' && rest == "" then String.[] else String.◌∷◌ c rest

-- type releaseCandidate: the address, and whether it is asked for with the header
-- "Accept: application/octet-stream" or with none.
pub record ReleaseCandidate : Type 0 where
  pub url : String
  pub accepts_binary : Bool

abbrev pub urls : List ReleaseCandidate → List String
urls [] = []
urls (c ∷ cs) = c.url ∷ urls cs

-- `add`; `seen` holds the addresses of `out`.
unfoldable pub add_candidate : String → Bool → List ReleaseCandidate → List ReleaseCandidate
add_candidate raw_url accepts_binary out =
    let u = trim_space raw_url in
    if u == ""
    then out
    else if member u (urls out)
    then out
    else out <> (record { url = u; accepts_binary = accepts_binary } ∷ [])

-- `mirror` is the environment variable AGY_SWAP_RELEASE_MIRROR.
add_mirror : String → String → String → List ReleaseCandidate → List ReleaseCandidate
unfolding add_candidate trim_slashes
add_mirror mirror tag asset_name out =
    let base = trim_slashes (trim_space mirror) in
    if base == ""
    then out
    else add_candidate (base ++ ("/" ++ asset_name)) false (
        if tag == ""
        then out
        else add_candidate (base ++ ("/" ++ (tag ++ ("/" ++ asset_name)))) false out)

unfoldable pub asset_candidate_urls :
    String → String → String → String → String → List ReleaseCandidate
unfolding add_candidate add_mirror
asset_candidate_urls mirror release_tag asset_name url api_url =
    let tag = normalized_release_tag release_tag in
    let out = add_mirror mirror tag asset_name (add_candidate url false []) in
    if api_url == "" then out else add_candidate api_url true out
