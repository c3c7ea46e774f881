-- ===== src/Engine/Plan/Grid.antt =====
-- `grid_span` and the segments of crates/engine/src/plan.rs.
use datalens.Prelude.{
  ℕ, ◌+◌, ◌*◌, ◌/◌, ◌≤◌, ◌<◌, ◌≡◌, Bool, ◌&&◌, Option, none, some, List, arith, leb, any, min,
  saturating_sub, saturating_mul, saturating_add, le_div_iff, div_lt_iff, le_mul, if◌then◌else◌, [],
  ◌∷◌,
}
use datalens.Core.Range.{new, BlockRange, IsValid, max_end, contains, align_chunks}
use datalens.Core.Range.Cells.{contains_opt, new_iff, contains-align_chunks, contains_new}
use datalens.Core.Finality.{Finality, as_i16}
use datalens.Core.Wire.{Heads, Segment}
use datalens.Engine.Plan.{durable_part, grid_span, durable_segments, fill_finality, row_finality}

-- The span of a request is its grid cells cut at the safe head: the blocks that `align_chunks`
-- names, up to `safe`.
pub contains-grid_span :
    (r : BlockRange) (chunk safe b : ℕ)
    → 0 < chunk
    → IsValid r
    → contains_opt (grid_span r chunk safe) b
      ≡ (any (λ c. contains c b) (align_chunks r chunk) && leb b safe)
unfolding grid_span
contains-grid_span r chunk safe b h v = ground (
  arith,
  contains-align_chunks r chunk b h v,
  le_div_iff (r.start / chunk) b chunk h,
  div_lt_iff b (r.end / chunk + 1) chunk h,
  le_mul (r.end / chunk + 1) chunk h,
  contains_new (r.start / chunk * chunk)
      (min (min (saturating_sub (saturating_mul (saturating_add (r.end / chunk) 1) chunk) 1) safe)
        max_end)
      b,
)

-- The finality of the segment that holds a block.
abbrev pub segment_finality : List Segment → ℕ → Option Finality
segment_finality [] b = none
segment_finality (s ∷ ss) b =
    if leb s.start b && leb b s.end then some s.finality else segment_finality ss b

-- The segments of a served range below the safe head hold exactly its blocks, each under the
-- finality that `row_finality` gives a row of that block.
pub segment_finality-durable_segments :
    (served : BlockRange) (heads : Heads) (b : ℕ)
    → served.end ≤ heads.safe
    → segment_finality (durable_segments served heads) b
      ≡ (if contains served b then some (row_finality b heads) else none)
unfolding durable_segments row_finality contains
segment_finality-durable_segments served heads b h = ground arith

-- A fill records the finality of its last row, and of no row a stronger one.
pub fill_finality-row_finality :
    (blocks : BlockRange) (heads : Heads) (b : ℕ)
    → blocks.end ≤ heads.safe
    → contains blocks b ≡ Bool.true
    → (fill_finality blocks heads ≡ row_finality blocks.end heads)
      × (as_i16 (fill_finality blocks heads) ≤ as_i16 (row_finality b heads))
unfolding fill_finality row_finality contains
fill_finality-row_finality blocks heads b h k = ground arith

pub row_finality_above :
    (heads : Heads) (b : ℕ)
    → heads.finalized ≤ heads.safe
    → heads.safe < b
    → row_finality b heads ≡ Finality.unsafe
unfolding row_finality
row_finality_above heads b order h = ground arith

-- The durable part of a request, by where the safe head is.
pub durable_part_cut :
    (range : BlockRange) (safe : ℕ)
    → IsValid range
    → range.start ≤ safe
    → durable_part range safe ≡ some (record { start = range.start; end = min range.end safe })
unfolding durable_part
durable_part_cut range safe v h =
    (new_iff range.start (min range.end safe)).1
      (record { ordered = ground (arith, v); bounded = ground (arith, v) })

pub durable_part-none :
    (range : BlockRange) (safe : ℕ)
    → IsValid range
    → safe < range.start
    → durable_part range safe ≡ none
unfolding durable_part
durable_part-none range safe v h = unfold new in ground arith

pub grid_span-IsValid :
    (range : BlockRange) (chunk safe : ℕ) (r : BlockRange)
    → grid_span range chunk safe ≡ some r
    → IsValid r
unfolding grid_span new
grid_span-IsValid range chunk safe r e = record {
  ordered = ground (arith, e);
  bounded = ground (arith, e);
}
