-- ===== src/Sdk/Cursor/Settle.antt =====
-- Which blocks `observe` of sdks/rust/src/cursor.rs settles.
use datalens.Prelude.{
  ℕ, ◌≤◌, ◌<◌, ◌≡◌, ◌⊎◌, inl, inr, Bool, true, false, some, List, [], ◌∷◌, arith, ltb,
  if◌then◌else◌, Option-cases,
}
use datalens.Core.Wire.{Segment}
use datalens.Sdk.Cursor.{
  QueryResponse, ProvisionalCursor, is_hot, first_hot, floor, settle, fork_point, hot_hashes,
  observe, next_served, merge_seen,
}
use datalens.Sdk.Cursor.Durable.{durably, advance-durably}

-- The block is before the first hot segment of the response.
abbrev pub before_hot : List Segment → ℕ → Bool
before_hot [] b = false
before_hot (s ∷ segments) b = if is_hot s.source then ltb b s.start else before_hot segments b

-- The block was asked for, and was served as durable or is before all that is hot.
abbrev pub SettledBy : QueryResponse → ℕ → Type 0
SettledBy r b =
    (r.requested.start ≤ b) × ((durably r.segments b ≡ true) ⊎ (before_hot r.segments b ≡ true))

first_hot-before :
    (segments : List Segment) (b start : ℕ)
    → first_hot segments ≡ some start
    → b < start
    → before_hot segments b ≡ true
unfolding first_hot
first_hot-before [] b start e h = cc e
first_hot-before (s ∷ segments) b start e h =
    ground (arith, e, h, first_hot-before segments b start)

floor-SettledBy : (r : QueryResponse) (b : ℕ) → r.requested.start ≤ b → b < floor r → SettledBy r b
unfolding floor
floor-SettledBy r b h k = elim (Option-cases (first_hot r.segments)) [
  | inl e ↦ (h, ground (arith, h, k, e, advance-durably r.requested.start b r.segments))
  | inr (start, e) ↦ (
    h,
    ground (
      arith,
      h,
      k,
      e,
      advance-durably r.requested.start b r.segments,
      first_hot-before r.segments b start e,
    ),
  )
]

settle-SettledBy :
    (c : ProvisionalCursor) (r : QueryResponse) (b : ℕ)
    → (c.settled ≤ (settle c r).settled)
      × (c.settled ≤ b → b < (settle c r).settled → SettledBy r b)
unfolding settle
settle-SettledBy c r b =
    (ground arith, λ h k. floor-SettledBy r b (ground (arith, h, k)) (ground (arith, h, k)))

pub observe-settled :
    (c : ProvisionalCursor) (r : QueryResponse) (b : ℕ)
    → (c.settled ≤ (observe c r).0.settled)
      × (c.settled ≤ b → b < (observe c r).0.settled → SettledBy r b)
unfolding observe
observe-settled c r b = elim (Option-cases (fork_point c r (hot_hashes r))) [
  | inl e ↦
      rw (e, observe)
        (settle-SettledBy
          (record c { next = next_served c.next r.served; seen = merge_seen (hot_hashes r) c.seen })
          r b)
  | inr (from, e) ↦ rw (e, observe) (omega arith, λ h k. absurd (omega (arith, h, k)))
]
