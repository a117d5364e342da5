-- ===== src/Tests/UpdateTests.antt =====
-- Versions of releases.
use agy_swap.Prelude.{◌≡◌, refl}
use agy_swap.Prelude.Text.{strip_prefix, trim_space, split}
use agy_swap.Errors.{ok}
use agy_swap.Update.Version.{compare_versions, numeric_identifier, less, greater}
use agy_swap.Update.Version.Ordered.{compare_versions_trans}

candidate_release : compare_versions "2.0.0-beta.2" "2.0.0-beta.11" ≡ ok less
unfolding compare_versions strip_prefix trim_space split numeric_identifier
candidate_release = refl

full_release : compare_versions "2.0.0-beta.11" "v2.0.0" ≡ ok less
unfolding compare_versions strip_prefix trim_space split numeric_identifier
full_release = refl

compare_versions_trans_example :
    (compare_versions "2.0.0-beta.2" "v2.0.0" ≡ ok less)
    × (compare_versions "v2.0.0" "2.0.0-beta.2" ≡ ok greater)
    × (compare_versions "2.0.0-beta.11" "2.0.0-beta.2" ≡ ok greater)
compare_versions_trans_example =
    compare_versions_trans "2.0.0-beta.2" "2.0.0-beta.11" "v2.0.0" candidate_release full_release
