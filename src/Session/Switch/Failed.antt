-- ===== src/Session/Switch/Failed.antt =====
-- internal/app/credentials.go: a switch that fails leaves the old session.
use agy_swap.Prelude.{
  String, Bool, true, false, ◌≡◌, ◌⊎◌, inl, inr, refl, sym, ◌∙◌, if◌then◌else◌, ◌==◌, arith, eq_iff,
  Bool-cases, is_some, if-cases,
}
use agy_swap.Prelude.Text.{trim_space}
use agy_swap.GoLib.{GoLib}
use agy_swap.Email.{normalize_email}
use agy_swap.Errors.{Result, ok, err}
use agy_swap.Session.{Paths, SessionLib, Faults, SessionFiles}
use agy_swap.Session.Writing.Rollback.{IsPlaced, IsUndoing, SameFiles, write_oauth_files-rollback}
use agy_swap.Session.Switch.{
  CredentialBackend, Mode, Live, write_files, apply_to_files, then_files, not_updated,
  apply_prepared, prepared_token, apply_unlocked,
}

-- What the program relies on of the credential store: a write of a trimmed token that reports a failure has left
-- the old token or the new one; `previous`, unless it is empty, can be written again; and a delete leaves no
-- token. A store may refuse an empty token, and may trim what it is given.
pub record IsBackend {K : Type 0} (v : CredentialBackend K) (previous : String) : Type 0 where
  pub get-set_failed :
      (k : K) (token : String)
      → trim_space token ≡ token
      → (v.set k token).0 ≡ false
      → (v.get (v.set k token).1 ≡ v.get k) ⊎ (v.get (v.set k token).1 ≡ token)
  pub put_back : (k : K) → previous == "" ≡ false → v.get (v.set k previous).1 ≡ previous
  pub get-delete : (k : K) → v.get (v.delete k).1 ≡ ""

-- The files are the old ones, and the credential store returns the old token.
pub record IsKept {K : Type 0} (v : CredentialBackend K) (files : SessionFiles) (old : String)
    (s : Live K) : Type 0 where
  pub same : SameFiles s.files files
  pub stored : v.get s.keyring ≡ old

module _ {K : Type 0} (go : GoLib) (lib : SessionLib) (p : Paths) (f : Faults)
    (v : CredentialBackend K) (mode : Mode) (placed : IsPlaced p) (undoing : IsUndoing f) where
  write_files-kept :
      (token email : String) (s : Live K)
      → (write_files go lib p f v mode token email s).0 ≡ false
      → SameFiles (write_files go lib p f v mode token email s).1.files s.files
  unfolding write_files
  write_files-kept token email s h =
      write_oauth_files-rollback go lib p f token email s.files placed undoing h

  then_files-IsKept :
      (token email previous : String) (updated : Bool) (s : Live K)
      → IsBackend v previous
      → (updated ≡ false → v.get s.keyring ≡ previous)
      → (then_files go lib p f v mode token email previous updated s).0 ≡ false
      → IsKept v s.files previous (then_files go lib p f v mode token email previous updated s).1
  unfolding then_files
  then_files-IsKept token email previous updated s b old h =
      let w = write_files-kept token email s in
      elim (Bool-cases (write_files go lib p f v mode token email s).0) [
        | inl done ↦ absurd (ground arith)
        | inr failed ↦ elim (Bool-cases updated) [
          | inr same ↦ rw (failed, same) (record { same = w failed; stored = old same })
          | inl changed ↦ elim (Bool-cases (previous == "")) [
            | inl empty ↦
                rw (failed, changed, empty)
                  (record {
                    same = w failed;
                    stored = b.get-delete s.keyring ∙ sym ((eq_iff previous "").0 empty);
                  })
            | inr full ↦
                rw (failed, changed, full)
                  (record { same = w failed; stored = b.put_back s.keyring full })
          ]
        ]
      ]

  not_updated-IsKept :
      (token email prepared previous : String) (s : Live K)
      → IsBackend v previous
      → (v.get s.keyring ≡ previous) ⊎ (v.get s.keyring ≡ prepared)
      → (not_updated go lib p f v mode token email prepared previous s).0 ≡ false
      → IsKept v s.files previous (not_updated go lib p f v mode token email prepared previous s).1
  unfolding not_updated
  not_updated-IsKept token email prepared previous s b old h =
      elim (Bool-cases (v.get s.keyring == prepared)) [
        | inl there ↦ rw there (
            then_files-IsKept token email previous true s b (λ e. absurd (ground arith))
              (ground arith))
        | inr missing ↦
            let unchanged : v.get s.keyring ≡ previous = elim old [
              | inl e ↦ e
              | inr e ↦ absurd (ground (arith, eq_iff (v.get s.keyring) prepared))
            ] in
            let as_before = (eq_iff (v.get s.keyring) previous).1 unchanged in
            let kept : IsKept v s.files previous s = record {
              same = λ q. refl;
              stored = unchanged;
            } in
            elim (Bool-cases (previous == "")) [
              | inr full ↦ rw (missing, full, as_before) kept
              | inl empty ↦
                  let blank : v.get s.keyring == "" ≡ true =
                    (eq_iff (v.get s.keyring) "").1 (unchanged ∙ (eq_iff previous "").0 empty) in
                  elim (Bool-cases (is_some mode.prepare)) [
                    | inr direct ↦
                        rw (missing, empty, blank, direct)
                          (then_files-IsKept token email previous false s b (λ e. unchanged)
                            (ground arith))
                    | inl required ↦ elim (Bool-cases mode.headless) [
                      | inr refused ↦ rw (missing, empty, blank, required, refused) kept
                      | inl headless ↦
                          rw (missing, empty, blank, required, headless)
                            (unfold write_files in
                              record {
                                same = write_files-kept token email s (ground arith);
                                stored = unchanged;
                              })
                    ]
                  ]
            ]
      ]

  apply_prepared-IsKept :
      (token email : String) (prepared : Result String) (s : Live K)
      → IsBackend v (v.get s.keyring)
      → ((x : String) → prepared ≡ ok x → trim_space x ≡ x)
      → (apply_prepared go lib p f v mode token email prepared s).0 ≡ false
      → IsKept v s.files
          (v.get s.keyring)
          (apply_prepared go lib p f v mode token email prepared s).1
  unfolding apply_prepared
  apply_prepared-IsKept token email (err e) s b trimmed h = record {
    same = λ q. refl;
    stored = refl;
  }
  apply_prepared-IsKept token email (ok prepared) s b trimmed h =
      let s1 : Live K = record s { keyring = (v.set s.keyring prepared).1 } in
      elim (Bool-cases (v.get s.keyring == prepared)) [
        | inl same ↦ rw same (
            unfold write_files in
            record { same = write_files-kept token email s (ground arith); stored = refl })
        | inr differs ↦ elim (Bool-cases (v.set s.keyring prepared).0) [
          | inl updated ↦
              rw (differs, updated)
                (then_files-IsKept token email (v.get s.keyring) true s1 b
                  (λ e. absurd (ground arith)) (ground arith))
          | inr failed ↦
              rw (differs, failed)
                (not_updated-IsKept token email prepared (v.get s.keyring) s1 b
                  (b.get-set_failed s.keyring prepared (trimmed prepared refl) failed)
                  (ground arith))
        ]
      ]

  apply_to_files-IsKept :
      (token email : String) (s : Live K)
      → (apply_to_files go lib p f v mode token email s).0 ≡ false
      → IsKept v s.files (v.get s.keyring) (apply_to_files go lib p f v mode token email s).1
  unfolding apply_to_files
  apply_to_files-IsKept token email s h =
      elim (Bool-cases (write_files go lib p f v mode token email s).0) [
        | inl done ↦ absurd (ground arith)
        | inr failed ↦ rw failed (
            unfold write_files in
            record { same = write_files-kept token email s failed; stored = refl })
      ]

-- A switch that fails leaves the files of the session as they were, and the credential store with the
-- token that it had: a token that cannot be read, an e-mail address that is none, a token of another account, a
-- store or a file that cannot be written. What is written to the store is trimmed, and the roll-back itself meets no
-- error: files can be restored, a token that is not empty written again, and an entry deleted.
pub apply_unlocked-failed :
    {K : Type 0} (go : GoLib) (lib : SessionLib) (p : Paths) (f : Faults) (v : CredentialBackend K)
    (mode : Mode) (token address : String) (s : Live K)
    → IsPlaced p
    → IsUndoing f
    → IsBackend v (v.get s.keyring)
    → ((prepared : String)
        → prepared_token token mode.prepare ≡ ok prepared
        → trim_space prepared ≡ prepared)
    → (apply_unlocked go lib p f v mode token address s).0 ≡ false
    → IsKept v s.files (v.get s.keyring) (apply_unlocked go lib p f v mode token address s).1
unfolding apply_unlocked
apply_unlocked-failed {K = K} go lib p f v mode token address s placed undoing b trimmed h =
    let email = normalize_email go address in
    let to_files = apply_to_files go lib p f v mode token email s in
    let prepared = prepared_token token mode.prepare in
    let to_store = apply_prepared go lib p f v mode token email prepared s in
    let P : Bool × Live K → Type 0 = λ r. r.0 ≡ false → IsKept v s.files (v.get s.keyring) r.1 in
    if-cases P _ (false, s) (if mode.file_store then to_files else to_store)
      (λ refused failed. record { same = λ q. refl; stored = refl })
      (λ accepted.
        if-cases P mode.file_store to_files to_store
          (λ in_files. apply_to_files-IsKept go lib p f v mode placed undoing token email s)
          (λ in_store.
            apply_prepared-IsKept go lib p f v mode placed undoing token email prepared s b
              trimmed))
      h
