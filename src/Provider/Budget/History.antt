-- ===== src/Provider/Budget/History.antt =====
-- What the token bucket of crates/provider/src/budget.rs gives over a history of events.
use datalens.Prelude.{
  ℕ, ◌+◌, ◌-◌, ◌*◌, ◌≤◌, ◌≡◌, Bool, false, List, [], ◌∷◌, arith, u64_max, mul_le, mul_sub_add,
  distribute,
}
use datalens.Provider.Budget.{
  Budget, Purpose, Acquired, taken, queued, failed, refill, try_acquire, arm_delay, refill_fired,
  wake_highest, remove, hold_until, scale, second,
}
use datalens.Provider.Budget.Rate.{IsSound, per_ns, refill-Earned}
use datalens.Provider.Budget.Grants.{cost, SameRate, try_acquire-cost}
use datalens.Provider.Budget.Events.{
  Call, Event, acquired, fired, gave_up, held, armed, acquire_once, give_up, after, run,
}

-- The time of an event that refills; another has the time of the one before.
abbrev pub time_of : ℕ → Event → ℕ
time_of now (acquired receives c) = c.now
time_of now (fired receives at) = at
time_of now (gave_up receives purpose id) = now
time_of now (held until) = now

-- How many refills an event makes.
abbrev pub refills : Event → ℕ
refills (acquired receives c) = 1
refills (fired receives at) = 1
refills (gave_up receives purpose id) = 0
refills (held until) = 0

abbrev pub total_refills : List Event → ℕ
total_refills [] = 0
total_refills (e ∷ es) = refills e + total_refills es

-- The refills come in the order of their times.
abbrev pub InOrder : ℕ → List Event → Type 0
InOrder now [] = Unit {0}
InOrder now (e ∷ es) =
    (now ≤ time_of now e) × (time_of now e ≤ u64_max) × InOrder (time_of now e) es

abbrev pub last_time : ℕ → List Event → ℕ
last_time now [] = now
last_time now (e ∷ es) = last_time (time_of now e) es

last_time-ge : (now : ℕ) (es : List Event) → InOrder now es → now ≤ last_time now es
last_time-ge now [] o = omega arith
last_time-ge now (e ∷ es) o = omega (arith, last_time-ge (time_of now e) es o.2)

IsSound-later :
    (b : Budget) (now later : ℕ) → now ≤ later → later ≤ u64_max → IsSound b now → IsSound b later
IsSound-later b now later h k v = ground (arith, v)

-- Nothing is paid in or out, and the rate is the same.
abbrev Steady : Budget → Budget → Type 0
Steady b b' = (b'.balance ≡ b.balance) × SameRate b b'

arm_delay-Steady : (b : Budget) → Steady b (arm_delay b).0
unfolding arm_delay
arm_delay-Steady b = ground arith

wake_highest-Steady : (receives : ℕ → Bool) (b : Budget) → Steady b (wake_highest receives b)
unfolding wake_highest
wake_highest-Steady receives b = ground arith

hold_until-Steady : (b : Budget) (until : ℕ) → Steady b (hold_until b until)
unfolding hold_until
hold_until-Steady b until = ground arith

armed-Steady : (receives : ℕ → Bool) (b : Budget) (r : Acquired) → Steady b (armed receives b r)
armed-Steady receives b taken = arm_delay-Steady b
armed-Steady receives b (queued parked) = arm_delay-Steady b
armed-Steady receives b (failed reason) = ground arith

give_up-Steady :
    (receives : ℕ → Bool) (b : Budget) (purpose : Purpose) (id : ℕ)
    → Steady b (give_up receives b purpose id)
unfolding give_up remove
give_up-Steady receives b purpose id =
    let b1 = (remove b purpose id).0 in
    ground (arith, wake_highest-Steady receives b1, arm_delay-Steady (wake_highest receives b1))

-- What a step may earn: what the time pays for, and a nanosecond's worth for each refill.
abbrev EarnedBy : ℕ → Budget → Budget → ℕ → Type 0
EarnedBy n b b' paid =
    ((b'.balance + paid) * second + b.updated * per_ns b
      ≤ b.balance * second + b'.updated * per_ns b + n * per_ns b)
    × (b'.rps ≡ b.rps)

Steady-Earned :
    (b b' : Budget) (now : ℕ) → Steady b b' → IsSound b now → IsSound b' now × EarnedBy 0 b b' 0
Steady-Earned b b' now s v = (ground (arith, v, s), (ground (arith, s), ground (arith, s)))

acquire_once-Earned :
    (receives : ℕ → Bool) (b : Budget) (c : Call)
    → IsSound b c.now
    → let (b', r) = acquire_once receives b c in IsSound b' c.now × EarnedBy 1 b b' (cost r)
unfolding acquire_once
acquire_once-Earned receives b c v =
    let (sound, earned, later, rps, burst) = refill-Earned b c.now v in
    let (b1, r) =
      try_acquire receives (refill b c.now) c.purpose c.deadline c.asked c.today c.woken in
    let (paid, same) =
      try_acquire-cost receives (refill b c.now) c.purpose c.deadline c.asked c.today c.woken in
    let steady = armed-Steady receives b1 r in
    (
      ground (arith, sound, same, steady),
      (ground (arith, earned, paid, same, steady), ground (arith, rps, same, steady)),
    )

refill_fired-Earned :
    (receives : ℕ → Bool) (b : Budget) (now : ℕ)
    → IsSound b now
    → let b' = (refill_fired receives b now).0 in IsSound b' now × EarnedBy 1 b b' 0
unfolding refill_fired
refill_fired-Earned receives b now v =
    let b0 = record b { refill_armed = false } in
    let (sound, earned, later, rps, burst) = refill-Earned b0 now (ground (arith, v)) in
    let woken = wake_highest-Steady receives (refill b0 now) in
    let steady = arm_delay-Steady (wake_highest receives (refill b0 now)) in
    (
      ground (arith, sound, woken, steady),
      (ground (arith, earned, woken, steady), ground (arith, rps, woken, steady)),
    )

after-Earned :
    (b : Budget) (now : ℕ) (e : Event)
    → IsSound b (time_of now e)
    → let (b', paid) = after b e in IsSound b' (time_of now e) × EarnedBy (refills e) b b' paid
unfolding after
after-Earned b now (acquired receives c) v = acquire_once-Earned receives b c v
after-Earned b now (fired receives at) v = refill_fired-Earned receives b at v
after-Earned b now (gave_up receives purpose id) v =
    Steady-Earned b (give_up receives b purpose id) now (give_up-Steady receives b purpose id) v
after-Earned b now (held until) v =
    Steady-Earned b (hold_until b until) now (hold_until-Steady b until) v

run-Earned :
    (b : Budget) (now : ℕ) (es : List Event)
    → InOrder now es
    → IsSound b now
    → let (b', spent) = run b es in
      IsSound b' (last_time now es)
      × ((b'.balance + spent) * second + b.updated * per_ns b
          ≤ b.balance * second + b'.updated * per_ns b + total_refills es * per_ns b)
unfolding run
run-Earned b now [] o v = (v, omega arith)
run-Earned b now (e ∷ es) o v =
    let (sound, (earned, rate)) =
      after-Earned b now e (IsSound-later b now (time_of now e) o.0 o.1 v) in
    let (last, rest) = run-Earned (after b e).0 (time_of now e) es o.2 sound in
    let same = rw rate at rest in
    (last, omega (arith, earned, same, distribute (refills e) (total_refills es) (per_ns b)))

-- The limiter's promise, from a bucket with a rate that is not over its burst and was not refilled for a
-- time to come: over any history of passes of `acquire`, firings of the refill timer, waiters that give
-- up and pauses, its refills in the order of their times, which fit a `u64`, what was taken (10^6 to a
-- token) is at most a full bucket, `rps` tokens for each second that passed, and a nanosecond's worth of
-- tokens for each refill, which the rounding of `refill` may give.
pub run-rate :
    (b : Budget) (now : ℕ) (es : List Event)
    → InOrder now es
    → IsSound b now
    → (run b es).1 * second
      ≤ b.burst * second + (last_time now es - b.updated + total_refills es) * (b.rps * scale)
run-rate b now es o v =
    let (sound, earned) = run-Earned b now es o v in
    let later : b.updated ≤ last_time now es = omega (arith, last_time-ge now es o, v.past) in
    omega (
      arith,
      earned,
      v.within,
      mul_sub_add b.updated (last_time now es) (per_ns b) later,
      mul_le (run b es).0.updated (last_time now es) (per_ns b) sound.past,
      distribute (last_time now es - b.updated) (total_refills es) (per_ns b),
    )
