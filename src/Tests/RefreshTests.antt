-- ===== src/Tests/RefreshTests.antt =====
-- Reads of quotas: an operation that is never done, and two answers.
use agy_swap.Prelude.{ℕ, ◌+◌, refl, false, [], ◌∷◌, none}
use agy_swap.Prelude.Map
use agy_swap.Prelude.Map.{Map}
use agy_swap.Value.{Fields, field, end, text}
use agy_swap.Errors.{ok, err, plain}
use agy_swap.Errors.Eligibility.{WebLib}
use agy_swap.Quota.Onboard.{CloudApi, poll_operation}
use agy_swap.Quota.Onboard.Polled.{IsPolled, logged, poll_operation-IsPolled}
use agy_swap.Quota.Refresh.{Answer, Refresh, apply_answers}
use agy_swap.Quota.Refresh.Answered.{IsAnswered, apply_answers-IsAnswered}
use agy_swap.Tests.Library.{go}

abbrev web : WebLib
web = record { details = λ s. none; marshal = λ m. none; parse_url = λ s. none }

abbrev pending : Fields
pending = field "name" (text "operation") end

-- An API that counts its calls, and never finishes.
abbrev slow : CloudApi ℕ
slow = record { post = λ n method body. (ok pending, n); get = λ n name. (ok pending, n + 1) }

poll_operation-IsPolled_example :
    let (result, s) = poll_operation go web (logged slow) 5 (ok pending) (0, ok pending ∷ []) in
    IsPolled go web 5 result s.1
poll_operation-IsPolled_example = poll_operation-IsPolled go web slow 5 (ok pending) 0

abbrev first_answer : Answer
first_answer = record { email = "a@b.c"; account = end; read = ok end }

abbrev second_answer : Answer
second_answer = record { email = "d@b.c"; account = end; read = err (plain "offline") }

abbrev before : Refresh ℕ
before = record {
  by_email = Map.insert "d@b.c" end (Map.insert "a@b.c" end Map.empty);
  errors = Map.empty;
  replaced = [];
  changed = false;
  service = record { projects = Map.empty; backoffs = Map.empty };
  vault = 0;
}

apply_answers-IsAnswered_example :
    IsAnswered go
      (λ d. 0)
      none
      0
      "a@b.c"
      (ok end)
      (apply_answers go (λ d. 0) none 0 (first_answer ∷ second_answer ∷ []) before)
unfolding apply_answers
apply_answers-IsAnswered_example =
    apply_answers-IsAnswered go (λ d. 0) none 0 [] (second_answer ∷ []) first_answer before refl
      refl
