-- ===== src/Quota/Onboard/Polled.antt =====
-- internal/app/quota.go: the polls of `onboardProject`.
use agy_swap.Prelude.{
  ℕ, zero, suc, ◌+◌, ◌≤◌, Bool, true, not, ◌&&◌, ◌||◌, List, [], ◌∷◌, ◌≡◌, refl, arith, nat_eq,
  length, if-cases,
}
use agy_swap.Value.{Fields, get_string}
use agy_swap.GoLib.{GoLib}
use agy_swap.Errors.{Result, ok, err}
use agy_swap.Errors.Eligibility.{WebLib}
use agy_swap.Quota.Onboard.{CloudApi, ineligible_or, is_settled, settles, poll_operation}

-- The API, with the answers of `get` written down, the last one first.
abbrev pub logged : {W : Type 0} → CloudApi W → CloudApi (W × List (Result Fields))
logged api = record {
  post = λ s method body. ((api.post s.0 method body).0, ((api.post s.0 method body).1, s.1));
  get = λ s name. ((api.get s.0 name).0, ((api.get s.0 name).1, (api.get s.0 name).0 ∷ s.1));
}

-- No answer of the list settles an operation.
abbrev pub unsettled : List (Result Fields) → Bool
unsettled [] = true
unsettled (answer ∷ log) = not (settles answer) && unsettled log

-- What is made of the last answer.
abbrev pub polled_answer : GoLib → WebLib → Result Fields → Result Fields
polled_answer go web (ok op) = ok op
polled_answer go web (err e) = err (ineligible_or go web e)

-- The log of a loop of at most n polls, with the result of the loop: the last answer gives the result and ends
-- the loop, or all n polls were made; and no answer before the last one was settled.
pub record IsPolled (go : GoLib) (web : WebLib) (n : ℕ) (result : Result Fields)
    (log : List (Result Fields)) : Type 0 where
  pub last : Result Fields
  pub earlier : List (Result Fields)
  pub whole : log ≡ last ∷ earlier
  pub answer : result ≡ polled_answer go web last
  pub bounded : length earlier ≤ n
  pub stops : (settles last || nat_eq (length earlier) n) ≡ true
  pub needed : unsettled earlier ≡ true

module _ {W : Type 0} (go : GoLib) (web : WebLib) (api : CloudApi W) where
  poll_operation-log :
      (n m : ℕ) (op : Result Fields) (w : W) (log : List (Result Fields))
      → unsettled log ≡ true
      → length log + n ≡ m
      → let (result, s) = poll_operation go web (logged api) n op (w, op ∷ log) in
        IsPolled go web m result s.1
  unfolding poll_operation
  poll_operation-log n m (err e) w log u sum = record {
    last = err e;
    earlier = log;
    whole = refl;
    answer = refl;
    bounded = omega (arith, sum);
    stops = refl;
    needed = u;
  }
  poll_operation-log zero m (ok op) w log u sum = record {
    last = ok op;
    earlier = log;
    whole = refl;
    answer = refl;
    bounded = omega (arith, sum);
    stops = ground (arith, sum);
    needed = u;
  }
  poll_operation-log (suc n) m (ok op) w log u sum =
      let next = api.get w (get_string op "name") in
      if-cases (λ (r : Result Fields × (W × List (Result Fields))). IsPolled go web m r.0 r.1.1)
        (is_settled op) (ok op, (w, ok op ∷ log)) _
        (λ settled. record {
          last = ok op;
          earlier = log;
          whole = refl;
          answer = refl;
          bounded = omega (arith, sum);
          stops = ground (arith, settled);
          needed = u;
        })
        (λ more.
          poll_operation-log n m next.0 next.1 (ok op ∷ log) (ground (arith, u, more))
            (omega (arith, sum)))

  -- The loop over the operation ends, however the API answers, with the last answer: after at most n polls, as soon
  -- as an answer is an error or an operation that is done or nameless, and not before that or before all n polls.
  pub poll_operation-IsPolled :
      (n : ℕ) (op : Result Fields) (w : W)
      → let (result, s) = poll_operation go web (logged api) n op (w, op ∷ []) in
        IsPolled go web n result s.1
  poll_operation-IsPolled n op w = poll_operation-log n n op w [] refl (omega arith)
