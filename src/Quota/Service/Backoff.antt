-- ===== src/Quota/Service/Backoff.antt =====
-- internal/app/quota.go and quota_schedule.go: how long an account backs off.
use native.Mathlib.Nat.{pow-suc}
use agy_swap.Prelude.{
  ℕ, zero, suc, ◌≢◌, ◌⊎◌, ◌+◌, ◌*◌, ◌-◌, ◌/◌, ◌^◌, ◌≤◌, ◌<◌, String, ◌≡◌, refl, Option, none, some,
  if◌then◌else◌, min, arith, eq_iff, eq_refl,
}
use agy_swap.Prelude.Map
use agy_swap.Prelude.Map.{map_laws, get-insert, get-erase}
use agy_swap.Clock.{Time, second, minute}
use agy_swap.Errors.{GoError, backs_off}
use agy_swap.Quota.Schedule.{quota_active_every, quota_backoff_max}
use agy_swap.Quota.Service.{
  QuotaBackoff, next_wait, fail, QuotaBackoffState, QuotaService, backoff_until, backoff_state,
  note_read,
}

-- The waits of one account that Google refuses again and again.
abbrev pub wait_after : ℕ → QuotaBackoff
wait_after zero = 0
wait_after (suc k) = next_wait (wait_after k)

doubled :
    (p : ℕ)
    → 0 < p
    → next_wait (min (20 * second * p) quota_backoff_max)
      ≡ min (20 * second * (p * 2)) quota_backoff_max
unfolding next_wait
doubled p h = ground arith

pow-pos : (k : ℕ) → 0 < 2 ^ k
pow-pos zero = omega arith
pow-pos (suc k) = rw (pow-suc 2 k) (omega (arith, pow-pos k))

-- After k + 1 refusals in a row the wait is 20 seconds times 2^k, and at most ten minutes.
pub wait_after_lem : (k : ℕ) → wait_after (suc k) ≡ min (20 * second * 2 ^ k) (10 * minute)
wait_after_lem zero = unfold next_wait in refl
wait_after_lem (suc k) = rw (wait_after_lem k, pow-suc 2 k) (doubled (2 ^ k) (pow-pos k))

-- What holds of the stored back-offs at time `now`.
abbrev pub IsBoundedState : Time → Option QuotaBackoffState → Type 0
IsBoundedState now none = Unit
IsBoundedState now (some state) =
    (quota_active_every ≤ state.backoff)
    × (state.backoff ≤ quota_backoff_max)
    × (state.until ≤ now + quota_backoff_max)

pub record IsBounded (now : Time) (q : QuotaService) : Type 0 where
  pub at_email : (email : String) → IsBoundedState now (Map.get email q.backoffs)

-- A wait that a stored or a new back-off state has.
abbrev IsWait : QuotaBackoff → Type 0
IsWait w = (w ≤ quota_backoff_max) × ((w ≡ 0) ⊎ (quota_active_every ≤ w))

-- One refusal: the new wait, and how long it lasts.
fail_bounds :
    (jitter : ℕ → ℕ) (now : Time) (w : QuotaBackoff)
    → ((d : ℕ) → jitter d ≤ d)
    → IsWait w
    → let (wait, until) = fail jitter w now in
      (quota_active_every ≤ wait)
      × (wait ≤ quota_backoff_max)
      × (until ≤ now + wait)
      × (now + (wait - wait / 4) ≤ until)
unfolding fail next_wait
fail_bounds jitter now w small b = ground (arith, small (next_wait w / 4))

backoff_state-IsWait :
    (q : QuotaService) (email : String) (now : Time)
    → IsBoundedState now (Map.get email q.backoffs)
    → IsWait (backoff_state q email).backoff
unfolding backoff_state
backoff_state-IsWait q email now b = ground arith

later-IsBounded :
    (earlier now : Time) (o : Option QuotaBackoffState)
    → earlier ≤ now
    → IsBoundedState earlier o
    → IsBoundedState now o
later-IsBounded earlier now none h b = tt
later-IsBounded earlier now (some state) h b = omega arith

-- A read, good or failed, of any account keeps every stored wait between 20 seconds and ten
-- minutes, and every back-off ends within ten minutes of the clock.
pub note_read-IsBounded :
    (jitter : ℕ → ℕ) (q : QuotaService) (earlier now : Time) (email : String) (err : Option GoError)
    → ((d : ℕ) → jitter d ≤ d)
    → earlier ≤ now
    → IsBounded earlier q
    → IsBounded now (note_read jitter q now email err)
unfolding note_read
note_read-IsBounded jitter q earlier now email none small h b = record {
  at_email = λ j.
      rw (get-erase email j q.backoffs)
        (ground (arith, later-IsBounded earlier now (Map.get j q.backoffs) h (b.at_email j)));
}
note_read-IsBounded jitter q earlier now email (some err) small h b =
    let new =
      fail_bounds jitter now (backoff_state q email).backoff small
        (backoff_state-IsWait q email earlier (b.at_email email)) in
    record {
      at_email = λ j. ground (
        arith,
        new,
        later-IsBounded earlier now (Map.get j q.backoffs) h (b.at_email j),
        get-insert email j
            (record {
              backoff = (fail jitter (backoff_state q email).backoff now).0;
              until = (fail jitter (backoff_state q email).backoff now).1;
            })
            q.backoffs,
      );
    }

-- After a read the account's back-off is over if the read was good; it ends at least 15 seconds and
-- at most ten minutes from now if Google refused it or failed; and it is what it was after any other
-- error. No other account's back-off changes.
pub note_read-backoff_until :
    (jitter : ℕ → ℕ) (q : QuotaService) (earlier now : Time) (email other : String) (err : GoError)
    → ((d : ℕ) → jitter d ≤ d)
    → IsBounded earlier q
    → email ≢ other
    → (backoff_until (note_read jitter q now email none) email ≡ 0)
      × (if backs_off err
          then (now + 15 * second ≤ backoff_until (note_read jitter q now email (some err)) email)
            × (backoff_until (note_read jitter q now email (some err)) email ≤ now + 10 * minute)
          else backoff_until (note_read jitter q now email (some err)) email
            ≡ backoff_until q email)
      × (backoff_until (note_read jitter q now email (some err)) other ≡ backoff_until q other)
      × (backoff_until (note_read jitter q now email none) other ≡ backoff_until q other)
unfolding note_read backoff_until
note_read-backoff_until jitter q earlier now email other err small b ne =
    let w = (backoff_state q email).backoff in
    let new =
      fail_bounds jitter now w small (backoff_state-IsWait q email earlier (b.at_email email)) in
    let state : QuotaBackoffState = record {
      backoff = (fail jitter w now).0;
      until = (fail jitter w now).1;
    } in
    (
      ground (arith, get-erase email email q.backoffs, eq_refl email),
      ground (arith, new, get-insert email email state q.backoffs, eq_refl email),
      ground (arith, get-insert email other state q.backoffs, eq_iff email other),
      ground (arith, get-erase email other q.backoffs, eq_iff email other),
    )
