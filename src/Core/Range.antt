-- ===== src/Core/Range.antt =====
-- crates/core/src/range.rs: inclusive block ranges.
pub mod Cells
pub mod Lists
use datalens.Prelude.{
  ℕ, zero, suc, ◌+◌, ◌-◌, ◌/◌, ◌*◌, ◌≤◌, ◌<◌, min, max, ◌≡◌, Bool, true, false, ◌&&◌, Option, none,
  some, List, [], ◌∷◌, arith, leb, ltb, if◌then◌else◌, i64_max, saturating_add, saturating_mul,
  saturating_sub,
}

abbrev pub max_end : ℕ
max_end = i64_max - 1

pub record BlockRange : Type 0 where
  pub start : ℕ
  pub end : ℕ

-- `new` refuses exactly the pairs that are not this.
pub record IsValid (r : BlockRange) : Type 0 where
  pub ordered : r.start ≤ r.end
  pub bounded : r.end ≤ max_end

-- `BlockRange::new`, whose only error is `Error::InvalidInput`, `none` here.
unfoldable pub new : ℕ → ℕ → Option BlockRange
new start end =
    if ltb end start
    then none
    else if ltb max_end end
    then none
    else some (record { start = start; end = end })

unfoldable pub len : BlockRange → ℕ
len r = r.end - r.start + 1

unfoldable pub contains : BlockRange → ℕ → Bool
contains r block = leb r.start block && leb block r.end

unfoldable pub intersect : BlockRange → BlockRange → Option BlockRange
intersect r other =
    let start = max r.start other.start in
    let end = min r.end other.end in
    if leb start end then some (record { start = start; end = end }) else none

-- The body of the loop of `align_chunks`: grid cell number `cell`.
unfoldable pub grid_cell : ℕ → ℕ → BlockRange
grid_cell chunk cell = record {
  start = saturating_mul cell chunk;
  end = min (saturating_sub (saturating_mul (saturating_add cell 1) chunk) 1) max_end;
}

-- The loop of `align_chunks`, with fuel for its rounds.
unfoldable pub align_from : ℕ → ℕ → ℕ → ℕ → List BlockRange
align_from zero chunk cell last = []
align_from (suc fuel) chunk cell last =
    let rest = align_from fuel chunk (cell + 1) last in
    grid_cell chunk cell ∷ (if leb last (grid_cell chunk cell).end then [] else rest)

unfoldable pub align_chunks : BlockRange → ℕ → List BlockRange
unfolding align_from
align_chunks r chunk =
    align_from (r.end / chunk + 1 - r.start / chunk) chunk (r.start / chunk) r.end
