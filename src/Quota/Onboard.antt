-- ===== src/Quota/Onboard.antt =====
-- internal/app/quota.go: `onboardProject`, which gives an account its Code Assist project, and
-- `ineligibleOr`. The calls of Google's API are parameters over a state of their own; a cancelled wait
-- is one of the answers of `get`.
pub mod Polled
use agy_swap.Prelude.{
  ℕ, zero, suc, ◌+◌, ◌≤◌, String, Bool, true, false, ◌||◌, Option, none, some, if◌then◌else◌, ◌==◌,
  ◌≡◌, refl, arith, nat_eq, Bool-cases, inl, inr,
}
use Prim.Native.String.{◌++◌}
use agy_swap.Value.{
  Value, Fields, text, boolean, object, end, field, get_field, get_map, get_string, fields_or_end,
}
use agy_swap.GoLib.{GoLib}
use agy_swap.Email.{clean_text}
use agy_swap.Errors.{GoError, cloud, ineligible, passed, plain, wrapped, Result, ok, err}
use agy_swap.Errors.Eligibility.{
  WebLib, eligibility_from_error_body, eligibility_from_operation_error, allowed_tier_id,
  extract_cloud_project,
}

pub record CloudApi (W : Type 0) : Type 0 where
  pub post : W → String → Fields → Result Fields × W  -- cloudPost: the method and the body
  pub get : W → String → Result Fields × W  -- a wait of `delay`, and cloudGet of the operation

-- errors.As(err, &cloud), with the status and the body
abbrev cloud_answer : GoError → Option (ℕ × String)
cloud_answer (cloud method status body) = some (status, body)
cloud_answer (ineligible e) = none
cloud_answer (passed e) = cloud_answer e
cloud_answer (plain message) = none
cloud_answer (wrapped prefix e) = cloud_answer e

unfoldable pub ineligible_or : GoLib → WebLib → GoError → GoError
ineligible_or go web e = elim (cloud_answer e) [
  | none ↦ e
  | some (status, body) ↦ elim (eligibility_from_error_body go web status body) [
    | none ↦ e
    | some found ↦ ineligible found
  ]
]

abbrev is_done : Option Value → Bool
is_done (some (boolean b)) = b
is_done _ = false

-- The loop ends with this operation: it is done, or it has no name to ask for.
unfoldable pub is_settled : Fields → Bool
is_settled op = is_done (get_field "done" op) || get_string op "name" == ""

-- Nothing is left to ask for.
abbrev pub settles : Result Fields → Bool
settles (err e) = true
settles (ok op) = is_settled op

module _ {W : Type 0} (go : GoLib) (web : WebLib) (api : CloudApi W) where
  -- At most `n` more polls.
  unfoldable pub poll_operation : ℕ → Result Fields → W → Result Fields × W
  unfolding is_settled
  poll_operation n (err e) w = (err (ineligible_or go web e), w)
  poll_operation zero (ok op) w = (ok op, w)
  poll_operation (suc n) (ok op) w =
      let (next, w') = api.get w (get_string op "name") in
      let rest = poll_operation n next w' in if is_settled op then (ok op, w) else rest

  operation_error : Fields → Result (String × Fields)
  operation_error op_error = elim (eligibility_from_operation_error go web op_error) [
    | some found ↦ err (ineligible found)
    | none ↦
        let message = clean_text go (get_string op_error "message") in
        if message == ""
        then err (plain "onboardUser failed")
        else err (plain ("onboardUser failed: " ++ message))
  ]

  operation_result : String → Result Fields → Result (String × Fields)
  unfolding operation_error
  operation_result tier (err e) = err e
  operation_result tier (ok op) = elim (get_map (get_field "error" op)) [
    | some op_error ↦ operation_error op_error
    | none ↦
        let response = fields_or_end (get_map (get_field "response" op)) in
        ok (
          extract_cloud_project (get_field "cloudaicompanionProject" response),
          field "id" (text tier) end,
        )
  ]

  abbrev onboard_body : String → Fields
  onboard_body tier =
      field "tierId" (text tier)
        (field "metadata" (object (field "ideType" (text "ANTIGRAVITY") end)) end)

  -- The project, and the tier that was asked for; `none` for a nil tier.
  unfoldable pub onboard_project : Fields → W → Result (String × Option Fields) × W
  unfolding poll_operation operation_result
  onboard_project info w =
      let tier = allowed_tier_id go info in
      let (op, w1) = api.post w "onboardUser" (onboard_body tier) in
      let (last, w2) = poll_operation 5 op w1 in
      if tier == "" then (ok ("", none), w) else elim (operation_result tier last) [
        | err e ↦ (err e, w2)
        | ok (project, onboarded) ↦ (ok (project, some onboarded), w2)
      ]
