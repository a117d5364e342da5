-- ===== src/Tests/FetchTests.antt =====
-- A read of a quota of one account.
use agy_swap.Prelude.{String, ◌+◌, none, if◌then◌else◌, ◌==◌, ℕ}
use agy_swap.Prelude.Int.{pos}
use agy_swap.Prelude.Map
use agy_swap.Value.{Fields, Account, field, end, text, array, object, number, cons, nil}
use agy_swap.Errors.{Result, ok}
use agy_swap.Errors.Eligibility.{WebLib}
use agy_swap.Quota.Onboard.{CloudApi}
use agy_swap.Quota.Service.{QuotaService}

abbrev web : WebLib
web = record { details = λ s. none; marshal = λ m. none; parse_url = λ s. none }

abbrev loaded : Fields
loaded =
    field "cloudaicompanionProject" (text "p")
      (field "paidTier" (object (field "id" (text "free-tier") end)) end)

abbrev bucket : Fields
bucket = field "bucketId" (text "gemini-weekly") (
    field "window" (text "weekly")
      (field "remainingFraction" (number (pos 2)) (field "resetTime" (text "@") end)))

abbrev group : Fields
group = field "buckets" (array (cons (object bucket) nil)) end

abbrev summary : Fields
summary = field "groups" (array (cons (object group) nil)) end

abbrev answer : String → Result Fields
answer method = if method == "loadCodeAssist" then ok loaded else ok summary

-- An API that counts its calls.
abbrev api : String → CloudApi ℕ
api access = record { post = λ n method body. (answer method, n + 1); get = λ n name. (ok end, n) }

abbrev exchange : ℕ → String → Result (String × String) × ℕ
exchange n token = (ok ("access", token), n)

abbrev account : Account
account = field "email" (text "a@b.c") (field "token_data" (text "t") end)

abbrev service : QuotaService
service = record { projects = Map.empty; backoffs = Map.empty }

abbrev saved_bucket : Fields
saved_bucket = field "id" (text "gemini-weekly") (
    field "name" (text "weekly") (
      field "window" (text "weekly")
        (field "remaining_fraction" (number (pos 2)) (field "reset_at" (text "time") end))))

abbrev saved_group : Fields
saved_group = field "id" (text "gemini") (
    field "name" (text "Model group")
      (field "buckets" (array (cons (object saved_bucket) nil)) end))

abbrev snapshot : Fields
snapshot = field "observed_at" (text "time") (
    field "tier" (object (field "id" (text "free-tier") (field "name" (text "Free") end)))
      (field "groups" (array (cons (object saved_group) nil)) end))
