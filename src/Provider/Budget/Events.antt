-- ===== src/Provider/Budget/Events.antt =====
-- What crates/provider/src/gateway.rs does with the token bucket of crates/provider/src/budget.rs: each event
-- is one step under the bucket's lock.
use datalens.Prelude.{ℕ, ◌+◌, Bool, Option, List, [], ◌∷◌, if◌then◌else◌}
use datalens.Provider.Budget.{
  Budget, Purpose, Acquired, taken, queued, failed, refill, try_acquire, arm_delay, refill_fired,
  wake_highest, remove, hold_until,
}
use datalens.Provider.Budget.Grants.{cost}

-- One pass of the loop of the gateway's `acquire`; it reads the time for the refill and for the deadline.
pub record Call : Type 0 where
  pub purpose : Purpose
  pub deadline : Option ℕ
  pub now : ℕ
  pub asked : ℕ
  pub today : ℕ
  pub woken : Bool

module _ (receives : ℕ → Bool) where
  abbrev pub armed : Budget → Acquired → Budget
  armed b taken = (arm_delay b).0
  armed b (queued parked) = (arm_delay b).0
  armed b (failed reason) = b

  -- The budget is refilled, asked for a token, and its timer is armed unless the call failed.
  unfoldable pub acquire_once : Budget → Call → Budget × Acquired
  acquire_once b c =
      let (b1, r) =
        try_acquire receives (refill b c.now) c.purpose c.deadline c.asked c.today c.woken in
      (armed b1 r, r)

  -- The end of `wait_turn` at the deadline: a waiter that was woken passes its turn on.
  unfoldable pub give_up : Budget → Purpose → ℕ → Budget
  give_up b purpose id =
      let (b1, still_queued) = remove b purpose id in
      if still_queued then b1 else (arm_delay (wake_highest receives b1)).0

-- What is done with the budget: a pass of `acquire`, the refill timer of `spawn_refill` at a time, a
-- waiter that gives up, or a pause until a time. Which receivers exist may differ from step to step.
pub data Event : Type 0 where
  acquired : (ℕ → Bool) → Call → Event
  fired : (ℕ → Bool) → ℕ → Event
  gave_up : (ℕ → Bool) → Purpose → ℕ → Event
  held : ℕ → Event

-- The budget after an event, and what the event took from it.
unfoldable pub after : Budget → Event → Budget × ℕ
unfolding acquire_once give_up
after b (acquired receives c) = let (b1, r) = acquire_once receives b c in (b1, cost r)
after b (fired receives now) = ((refill_fired receives b now).0, 0)
after b (gave_up receives purpose id) = (give_up receives b purpose id, 0)
after b (held until) = (hold_until b until, 0)

-- The budget after a history of events, and what they took together.
unfoldable pub run : Budget → List Event → Budget × ℕ
unfolding after
run b [] = (b, 0)
run b (e ∷ es) = let (b1, paid) = after b e in let (b2, spent) = run b1 es in (b2, paid + spent)
