-- ===== src/Provider/Budget.antt =====
-- crates/provider/src/budget.rs and the ranks of crates/provider/src/purpose.rs: the token bucket of
-- one chain. Instants and durations are nanoseconds. A waiter is its id; `receives id` says whether
-- its receiver still exists, which is what `tx.send(())` reports. The products of `refill` are
-- `u128` and are not cut: they fit for 10^15 seconds.
pub mod Rate
pub mod Queues
pub mod Grants
pub mod Events
pub mod History
mod Tests
use datalens.Prelude.{
  ℕ, zero, suc, ◌+◌, ◌-◌, ◌*◌, ◌/◌, min, max, Bool, true, false, not, ◌&&◌, ◌||◌, Option, none,
  some, List, [], ◌∷◌, ◌++◌, leb, ltb, ◌==◌, any, length, if◌then◌else◌, saturating_sub,
  saturating_mul, u64_max,
}

pub data Purpose : Type 0 where
  head reorg follow query_fill backfill : Purpose

unfoldable pub rank : Purpose → ℕ
rank head = 0
rank reorg = 1
rank follow = 2
rank query_fill = 3
rank backfill = 4

abbrev pub scale : ℕ
scale = 1000000

abbrev pub second : ℕ
second = 1000000000

pub data AcquireFail : Type 0 where
  daily throttled : AcquireFail

-- `waiters` has a queue for each rank, the first waiter first.
pub record Budget : Type 0 where
  pub balance : ℕ
  pub burst : ℕ
  pub rps : ℕ
  pub updated : ℕ
  pub not_before : ℕ
  pub daily_limit : Option ℕ
  pub daily_used : ℕ
  pub daily_day : ℕ
  pub next_id : ℕ
  pub waiters : List (List ℕ)
  pub refill_armed : Bool

pub new : ℕ → ℕ → Option ℕ → ℕ → Budget
new rps burst daily_limit now = record {
  balance = burst * scale;
  burst = burst * scale;
  rps = rps;
  updated = now;
  not_before = now;
  daily_limit = daily_limit;
  daily_used = 0;
  daily_day = 0;
  next_id = 1;
  waiters = [] ∷ [] ∷ [] ∷ [] ∷ [] ∷ [];
  refill_armed = false;
}

pub hold_until : Budget → ℕ → Budget
hold_until b until = if ltb b.not_before until then record b { not_before = until } else b

pub hold_delay : Budget → ℕ → Option ℕ
hold_delay b now =
    let delay = saturating_sub b.not_before now in if delay == 0 then none else some delay

-- `u64::try_from(n).unwrap_or(0)`
abbrev u64_or_zero : ℕ → ℕ
u64_or_zero n = if leb n u64_max then n else 0

-- The tail of `refill`, once something was earned.
credit : Budget → ℕ → ℕ → Budget
credit b now add =
    let balance = b.balance + u64_or_zero add in
    if leb b.burst balance then record b { balance = b.burst; updated = now } else record b {
      balance = balance;
      updated = b.updated + u64_or_zero (add * second / (b.rps * scale));
    }

pub refill : Budget → ℕ → Budget
unfolding credit
refill b now =
    if leb b.burst b.balance
    then record b { updated = now }
    else (let elapsed_ns = saturating_sub now b.updated in
        let earned = elapsed_ns * b.rps * scale / second in
        if elapsed_ns == 0
        then b
        else if earned == 0
        then b
        else credit b now (min earned (b.burst - b.balance)))

abbrev pub is_empty : List ℕ → Bool
is_empty [] = true
is_empty (w ∷ ws) = false

-- `self.waiters[..rank].iter().any(…)` and `self.waiters[rank]`.
any_before : ℕ → List (List ℕ) → Bool
any_before zero queues = false
any_before (suc r) [] = false
any_before (suc r) (q ∷ queues) = not (is_empty q) || any_before r queues

queue_at : ℕ → List (List ℕ) → List ℕ
queue_at r [] = []
queue_at zero (q ∷ queues) = q
queue_at (suc r) (q ∷ queues) = queue_at r queues

set_queue : ℕ → List ℕ → List (List ℕ) → List (List ℕ)
set_queue r new' [] = []
set_queue zero new' (q ∷ queues) = new' ∷ queues
set_queue (suc r) new' (q ∷ queues) = q ∷ set_queue r new' queues

pub has_higher : Budget → Purpose → Bool
unfolding any_before rank
has_higher b purpose = any_before (rank purpose) b.waiters

pub has_same : Budget → Purpose → Bool
unfolding queue_at rank
has_same b purpose = not (is_empty (queue_at (rank purpose) b.waiters))

pub has_waiters : Budget → Bool
has_waiters b = any (λ q. not (is_empty q)) b.waiters

pub roll_day : Budget → ℕ → Budget
roll_day b today =
    if b.daily_day == today then b else record b { daily_day = today; daily_used = 0 }

pub daily_exhausted : Budget → Bool
daily_exhausted b = elim b.daily_limit [ none ↦ false | some limit ↦ leb limit b.daily_used ]

module _ (receives : ℕ → Bool) where
  -- Pops until a waiter is told; the second part is that waiter.
  wake_queue : List ℕ → List ℕ × Option ℕ
  wake_queue [] = ([], none)
  wake_queue (w ∷ ws) = let rest = wake_queue ws in if receives w then (ws, some w) else rest

  wake_queues : List (List ℕ) → List (List ℕ) × Option ℕ
  unfolding wake_queue
  wake_queues [] = ([], none)
  wake_queues (q ∷ queues) =
      let (left, woken) = wake_queue q in
      let (others, later) = wake_queues queues in
      elim woken [ some w ↦ (left ∷ queues, some w) | none ↦ (left ∷ others, later) ]

  pub wake_highest : Budget → Budget
  unfolding wake_queues
  wake_highest b = record b { waiters = (wake_queues b.waiters).0 }

pub record Parked : Type 0 where
  pub id : ℕ
  pub deadline : Option ℕ

enqueue : Budget → Purpose → Option ℕ → Budget × Parked
unfolding queue_at set_queue rank
enqueue b purpose deadline = (
  record b {
    next_id = b.next_id + 1;
    waiters =
        set_queue (rank purpose) (queue_at (rank purpose) b.waiters ++ b.next_id ∷ []) b.waiters;
  },
  record { id = b.next_id; deadline = deadline },
)

pub data Acquired : Type 0 where
  taken : Acquired
  queued : Parked → Acquired
  failed : AcquireFail → Acquired

abbrev is_past : Option ℕ → ℕ → Bool
is_past none now = false
is_past (some deadline) now = leb deadline now

module _ (receives : ℕ → Bool) where
  -- The branch that takes a token.
  take_token : Budget → Budget
  take_token b =
      let paid = record b { balance = b.balance - scale; daily_used = b.daily_used + 1 } in
      if leb scale paid.balance then wake_highest receives paid else paid

  -- `try_acquire` after the daily cap was checked; `higher` and `same` are read before the wake.
  acquire_open : Budget → Purpose → Option ℕ → ℕ → Bool → Bool → Bool → Budget × Acquired
  unfolding take_token enqueue
  acquire_open b purpose deadline now woken higher same =
      let b1 = if higher && leb scale b.balance then wake_highest receives b else b in
      if leb scale b1.balance && (not higher && (woken || not same))
      then (take_token b1, taken)
      else if is_past deadline now
      then (b1, failed throttled)
      else (let (b2, parked) = enqueue b1 purpose deadline in (b2, queued parked))

  pub try_acquire : Budget → Purpose → Option ℕ → ℕ → ℕ → Bool → Budget × Acquired
  unfolding acquire_open roll_day daily_exhausted
  try_acquire b purpose deadline now today woken =
      let b0 = roll_day b today in
      if daily_exhausted b0
      then (b0, failed daily)
      else acquire_open b0 purpose deadline now woken (has_higher b0 purpose) (has_same b0 purpose)

remove_id : ℕ → List ℕ → List ℕ
remove_id id [] = []
remove_id id (w ∷ ws) = let rest = remove_id id ws in if w == id then rest else w ∷ rest

-- `queue.retain`, and whether the id was still queued.
pub remove : Budget → Purpose → ℕ → Budget × Bool
unfolding remove_id
remove b purpose id =
    let queue = queue_at (rank purpose) b.waiters in
    let kept = remove_id id queue in
    (
      record b { waiters = set_queue (rank purpose) kept b.waiters },
      not (length kept == length queue),
    )

delay_until_token : Budget → ℕ
delay_until_token b =
    if leb (saturating_mul scale 2) b.balance
    then 1000000
    else (let need = if leb scale b.balance then scale else scale - b.balance in
        let ns = max (need * second / (b.rps * scale)) 1000000 in
        if leb ns u64_max then ns else u64_max)

pub arm_delay : Budget → Budget × Option ℕ
unfolding delay_until_token has_waiters
arm_delay b =
    if b.refill_armed || not (has_waiters b)
    then (b, none)
    else (record b { refill_armed = true }, some (delay_until_token b))

pub refill_fired : (ℕ → Bool) → Budget → ℕ → Budget × Option ℕ
refill_fired receives b now =
    arm_delay (wake_highest receives (refill (record b { refill_armed = false }) now))
