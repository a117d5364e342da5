-- ===== src/Update/Candidates.antt =====
-- internal/app/updater.go: the addresses that are tried.
use agy_swap.Prelude.{
  String, ◌≡◌, refl, Bool, true, false, List, [], ◌∷◌, ◌++◌, member, is_nodup, ◌==◌, eq_iff, arith,
  member-append, Bool-cases, inl, inr,
}
use agy_swap.Accounts.Laws.{is_nodup-snoc}
use agy_swap.Prelude.Text.{trim_space}
use Prim.Native.String.{◌++◌ as ◌++ₛ◌}
use agy_swap.Update.{
  ReleaseCandidate, urls, add_candidate, add_mirror, asset_candidate_urls, normalized_release_tag,
  trim_slashes,
}

-- No address is tried twice, and none is empty.
pub record AreDistinct (candidates : List ReleaseCandidate) : Type 0 where
  pub nodup : is_nodup (urls candidates) ≡ true
  pub no_blank : member "" (urls candidates) ≡ false

urls-append :
    (out : List ReleaseCandidate) (c : ReleaseCandidate)
    → urls (out ++ c ∷ []) ≡ urls out ++ c.url ∷ []
urls-append [] c = refl
urls-append (x ∷ xs) c = ground (arith, urls-append xs c)

add-AreDistinct :
    (url : String) (accepts_binary : Bool) (out : List ReleaseCandidate)
    → AreDistinct out
    → AreDistinct (add_candidate url accepts_binary out)
unfolding add_candidate
add-AreDistinct url accepts_binary out d =
    let c : ReleaseCandidate = record { url = trim_space url; accepts_binary = accepts_binary } in
    record {
      nodup = ground (arith, d.nodup, urls-append out c, is_nodup-snoc (trim_space url) (urls out));
      no_blank = ground (
        arith,
        d.no_blank,
        urls-append out c,
        member-append "" (urls out) (trim_space url ∷ []),
        eq_iff (trim_space url) "",
        eq_iff "" (trim_space url),
      );
    }

mirror-AreDistinct :
    (mirror tag asset_name : String) (out : List ReleaseCandidate)
    → AreDistinct out
    → AreDistinct (add_mirror mirror tag asset_name out)
unfolding add_mirror
mirror-AreDistinct mirror tag asset_name out d =
    let base = trim_slashes (trim_space mirror) in
    let plain = base ++ₛ ("/" ++ₛ asset_name) in
    let at_tag = base ++ₛ ("/" ++ₛ (tag ++ₛ ("/" ++ₛ asset_name))) in
    elim (Bool-cases (base == "")) [
      | inl none_set ↦ rw none_set d
      | inr set_to ↦ rw set_to (elim (Bool-cases (tag == "")) [
        | inl untagged ↦ rw untagged (add-AreDistinct plain false out d)
        | inr tagged ↦ rw tagged (
            add-AreDistinct plain false (add_candidate at_tag false out)
              (add-AreDistinct at_tag false out d))
      ])
    ]

-- Whatever the release and the mirror say, no address is tried twice and none is empty.
pub asset_candidate_urls-AreDistinct :
    (mirror release_tag asset_name url api_url : String)
    → AreDistinct (asset_candidate_urls mirror release_tag asset_name url api_url)
unfolding asset_candidate_urls
asset_candidate_urls-AreDistinct mirror release_tag asset_name url api_url =
    let tag = normalized_release_tag release_tag in
    let out =
      mirror-AreDistinct mirror tag asset_name (add_candidate url false [])
        (add-AreDistinct url false [] (record { nodup = refl; no_blank = refl })) in
    elim (Bool-cases (api_url == "")) [
      | inl none_given ↦ rw none_given out
      | inr given ↦ rw given (
          add-AreDistinct api_url true
            (add_mirror mirror tag asset_name (add_candidate url false [])) out)
    ]
