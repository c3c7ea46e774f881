-- ===== src/Provider/Budget/Tests.antt =====
-- Runs of the token bucket of crates/provider/src/budget.rs at concrete inputs.
use datalens.Prelude.{
  ◌≡◌, refl, ◌+◌, ◌-◌, ◌*◌, ◌≤◌, ◌↔◌, ℕ, Bool, true, false, some, none, List, [], ◌∷◌, arith,
}
use datalens.Provider.Budget.{
  Budget, follow, backfill, taken, queued, try_acquire, has_higher, has_same, roll_day,
  daily_exhausted, scale, second, any_before, rank, queue_at, acquire_open, enqueue, wake_highest,
}
use datalens.Provider.Budget.Rate.{IsSound}
use datalens.Provider.Budget.Grants.{MayTake, cost, calls_of, used_today, try_acquire-taken}
use datalens.Provider.Budget.Events.{Call, Event, acquired, fired, gave_up, held, run}
use datalens.Provider.Budget.History.{InOrder, last_time, total_refills, run-rate}

-- Two tokens a second, at most four, one left, and three calls a day, of which one is made.
abbrev bucket : Budget
bucket = record {
  balance = 1000000;
  burst = 4000000;
  rps = 2;
  updated = 1000;
  not_before = 0;
  daily_limit = some 3;
  daily_used = 1;
  daily_day = 7;
  next_id = 5;
  waiters = [] ∷ [] ∷ [] ∷ [] ∷ (4 ∷ []) ∷ [];
  refill_armed = false;
}

bucket-IsSound : IsSound bucket 500001000
bucket-IsSound = record {
  within = omega arith;
  word = omega arith;
  past = omega arith;
  rate = omega arith;
  clock = omega arith;
}

abbrev hear : ℕ → Bool
hear w = true

abbrev call_at : ℕ → Call
call_at now = record {
  purpose = follow;
  deadline = none;
  now = now;
  asked = now;
  today = 7;
  woken = false;
}

-- Two passes of `acquire`, a pause, the timer, and a waiter of the last rank that gives up.
abbrev events : List Event
events =
    acquired hear (call_at 600000000)
    ∷ held 650000000
    ∷ acquired hear (call_at 700000000)
    ∷ fired hear 800000000
    ∷ gave_up hear backfill 4
    ∷ []

events-InOrder : InOrder 500001000 events
events-InOrder = (
  omega arith,
  omega arith,
  (
    omega arith,
    omega arith,
    (omega arith, omega arith, (omega arith, omega arith, (omega arith, omega arith, tt))),
  ),
)

run-rate_example :
    (run bucket events).1 * second
    ≤ 4000000 * second + (last_time 500001000 events - 1000 + total_refills events) * (2 * scale)
run-rate_example = run-rate bucket 500001000 events events-InOrder bucket-IsSound

bucket_taken : (try_acquire (λ w. true) bucket follow none 2000 7 false).1 ≡ taken
unfolding try_acquire roll_day daily_exhausted has_higher any_before rank has_same queue_at
    acquire_open
bucket_taken = refl

-- A waiter of a higher rank comes first, woken or not.
behind_head :
    (try_acquire hear
      (record bucket { waiters = (3 ∷ []) ∷ [] ∷ [] ∷ [] ∷ [] ∷ [] })
      follow
      none
      2000
      7
      true).1
    ≡ queued (record { id = 5; deadline = none })
unfolding try_acquire roll_day daily_exhausted has_higher any_before rank has_same queue_at
    acquire_open enqueue wake_highest
behind_head = refl

try_acquire-taken_example :
    let (b', r) = try_acquire hear bucket follow none 2000 7 false in
    ((r ≡ taken) ↔ MayTake bucket follow 7 false)
    × (b'.balance + cost r ≡ 1000000)
    × (b'.daily_used ≡ used_today bucket 7 + calls_of r)
try_acquire-taken_example = try_acquire-taken hear bucket follow none 2000 7 false
