-- ===== src/Provider/Ranges.antt =====
-- crates/provider/src/range.rs: the adaptive window of `eth_getLogs`. `states` has one entry for
-- each dataset; the entry of one dataset is modelled, with `none` before its first use.
use datalens.Prelude.{
  ℕ, ◌+◌, ◌*◌, ◌/◌, ◌≤◌, ◌<◌, ◌≡◌, ◌⊎◌, inl, inr, min, max, Option, none, some, arith, leb,
  if◌then◌else◌, saturating_mul, saturating_sub, u64_max, Bool-cases,
}
use datalens.Provider.Errors.{limit, Result, ok, err}

abbrev pub success_streak : ℕ
success_streak = 8

abbrev pub range_ttl_ms : ℕ
range_ttl_ms = 10 * 60 * 1000

pub record RangeState : Type 0 where
  pub current : ℕ
  pub successes : ℕ
  pub updated_ms : ℕ

pub record RangeBook : Type 0 where
  pub max_blocks : ℕ
  pub min_blocks : ℕ
  pub entry : Option RangeState

-- `RangeBook::new`
pub new : ℕ → ℕ → RangeBook
new max_blocks min_blocks = record {
  max_blocks = max_blocks;
  min_blocks = min_blocks;
  entry = none;
}

-- `successes` is a `u8`.
abbrev u8_saturating_add : ℕ → ℕ → ℕ
u8_saturating_add a b = min (a + b) 255

fresh_state : ℕ → ℕ → RangeState
fresh_state max_blocks now = record { current = max_blocks; successes = 0; updated_ms = now }

or_insert : Option RangeState → RangeState → RangeState
or_insert none fresh = fresh
or_insert (some s) fresh = s

-- `RangeBook::state`: the entry, made or reset when it is too old.
pub state : RangeBook → ℕ → RangeState
unfolding fresh_state or_insert
state book now =
    let s = or_insert book.entry (fresh_state book.max_blocks now) in
    if leb range_ttl_ms (saturating_sub now s.updated_ms)
    then fresh_state book.max_blocks now
    else s

abbrev with_state : RangeBook → RangeState → RangeBook
with_state book s = record book { entry = some s }

pub current : RangeBook → ℕ → ℕ × RangeBook
unfolding state
current book now = let s = state book now in (s.current, with_state book s)

pub record_success : RangeBook → ℕ → RangeBook
unfolding state
record_success book now =
    let s = state book now in
    let successes = u8_saturating_add s.successes 1 in
    with_state book (
      if leb success_streak successes
      then record {
        current = min (saturating_mul s.current 2) book.max_blocks;
        successes = 0;
        updated_ms = now;
      }
      else record { current = s.current; successes = successes; updated_ms = now })

pub record_limit : RangeBook → ℕ → ℕ → Result ℕ × RangeBook
unfolding state
record_limit book now failed_len =
    let s = state book now in
    let shrunk = max (min s.current (failed_len / 2)) book.min_blocks in
    (
      if leb failed_len book.min_blocks then err limit else ok shrunk,
      with_state book (record { current = shrunk; successes = 0; updated_ms = now }),
    )

-- The window lies between the configured bounds, which `Gateway::new` orders, and is never 0.
abbrev pub EntryWithin : RangeBook → Option RangeState → Type 0
EntryWithin book none = Unit {0}
EntryWithin book (some s) =
    (book.min_blocks ≤ s.current) × (s.current ≤ book.max_blocks) × (s.successes < success_streak)

pub record IsWithin (book : RangeBook) : Type 0 where
  pub positive : 0 < book.min_blocks
  pub bounds : book.min_blocks ≤ book.max_blocks
  pub word : book.max_blocks ≤ u64_max
  pub within : EntryWithin book book.entry

state_within :
    (book : RangeBook) (now : ℕ) → IsWithin book → EntryWithin book (some (state book now))
unfolding state
state_within book now v = ground (arith, v.within)

pub current-IsWithin :
    (book : RangeBook) (now : ℕ)
    → IsWithin book
    → IsWithin (current book now).1
      × (book.min_blocks ≤ (current book now).0)
      × ((current book now).0 ≤ book.max_blocks)
unfolding current
current-IsWithin book now v = ground (arith, state_within book now v)

pub record_success-IsWithin :
    (book : RangeBook) (now : ℕ) → IsWithin book → IsWithin (record_success book now)
unfolding record_success
record_success-IsWithin book now v = ground (arith, state_within book now v)

pub record_limit-IsWithin :
    (book : RangeBook) (now failed_len : ℕ)
    → IsWithin book
    → IsWithin (record_limit book now failed_len).1
unfolding record_limit
record_limit-IsWithin book now failed_len v = ground (arith, state_within book now v)

-- After a window of `failed_len` blocks was too large, in a book within its bounds: at the floor the error is passed on, and
-- otherwise the next window is strictly shorter, within the bounds, and is what the next read at
-- the same time returns.
pub record_limit-shrinks :
    (book : RangeBook) (now failed_len : ℕ)
    → IsWithin book
    → ((failed_len ≤ book.min_blocks) × ((record_limit book now failed_len).0 ≡ err limit))
      ⊎ ((shrunk : ℕ) × ((record_limit book now failed_len).0 ≡ ok shrunk)
          × ((current (record_limit book now failed_len).1 now).0 ≡ shrunk)
          × (shrunk < failed_len)
          × (book.min_blocks ≤ shrunk)
          × (shrunk ≤ book.max_blocks))
unfolding record_limit current state
record_limit-shrinks book now failed_len v =
    let w = state_within book now v in
    elim (Bool-cases (leb failed_len book.min_blocks)) [
      | inl floor ↦ inl (ground arith, rw floor)
      | inr above ↦ inr (
        max (min (state book now).current (failed_len / 2)) book.min_blocks,
        rw above,
        ground arith,
        ground arith,
        ground arith,
        ground (arith, w),
      )
    ]

-- The state that a read leaves is read again at the same time.
pub current_twice :
    (book : RangeBook) (now : ℕ) → (current (current book now).1 now).0 ≡ (current book now).0
unfolding current state
current_twice book now = ground arith

-- A book made with bounds that `Gateway::new` accepts keeps its window within them through every
-- operation, and what is read is within them.
pub book-IsWithin :
    (book : RangeBook) (max_blocks min_blocks now failed_len : ℕ)
    → 0 < min_blocks
    → min_blocks ≤ max_blocks
    → max_blocks ≤ u64_max
    → IsWithin book
    → IsWithin (new max_blocks min_blocks)
      × IsWithin (current book now).1
      × ((book.min_blocks ≤ (current book now).0) × ((current book now).0 ≤ book.max_blocks))
      × IsWithin (record_success book now)
      × IsWithin (record_limit book now failed_len).1
unfolding new
book-IsWithin book max_blocks min_blocks now failed_len positive ordered word v =
    let (kept, low, high) = current-IsWithin book now v in
    (
      record { positive = positive; bounds = ordered; word = word; within = tt },
      kept,
      (low, high),
      record_success-IsWithin book now v,
      record_limit-IsWithin book now failed_len v,
    )
