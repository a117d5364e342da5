-- ===== src/Quota/Fetch/Remembered.antt =====
-- internal/app/quota.go: what a read of a quota returns and remembers.
use agy_swap.Prelude.{String, false, none, some, ◌≡◌, ◌==◌, ◌⊎◌}
use agy_swap.Prelude.Int.{ℤ}
use agy_swap.Prelude.Map
use agy_swap.Value.{Fields}
use agy_swap.GoLib.{GoLib}
use agy_swap.Clock.{Time}
use agy_swap.Errors.{ok}
use agy_swap.Errors.Eligibility.{WebLib}
use agy_swap.Store.Snapshot.Shape.{IsSnapshot}
use agy_swap.Quota.Service.{QuotaService, QuotaProject, remembered_project}
use agy_swap.Quota.Onboard.{CloudApi}
use agy_swap.Quota.Fetch.{load_project}

-- Where a memo comes from: it was remembered, or nothing was, and it is what the API gave for the account.
abbrev pub IsSource :
    {W : Type 0}
    → GoLib
    → WebLib
    → CloudApi W
    → Time
    → Time
    → ℤ
    → String
    → QuotaService
    → QuotaProject
    → Type 0
IsSource {W = W} go web api now later skew email q memo =
    (remembered_project q now email ≡ some memo)
    ⊎ ((remembered_project q now email ≡ none)
        × (w : W) × ((load_project go web api now later skew w).0 ≡ ok (memo.project, memo.tier))
        × (memo.at ≡ later))

-- A read that succeeded, from the service q to q'.
pub record IsFetched {W : Type 0} (go : GoLib) (web : WebLib) (api : CloudApi W) (now later : Time)
    (skew : ℤ) (email : String) (s : Fields) (q q' : QuotaService) : Type 0 where
  pub shape : IsSnapshot go s
  pub memo : QuotaProject
  pub remembered : Map.get email q'.projects ≡ some memo
  pub named : memo.project == "" ≡ false
  pub source : IsSource go web api now later skew email q memo
