-- ===== src/Engine/Plan/Fill.antt =====
-- `fill_chunks` of crates/engine/src/plan.rs.
use datalens.Prelude.{
  ℕ, zero, suc, ◌+◌, ◌*◌, ◌/◌, ◌≤◌, ◌<◌, ◌≡◌, ◌↔◌, refl, Bool, true, false, not, ◌&&◌, ◌||◌, Option,
  none, some, List, [], ◌∷◌, arith, leb, any, any-append, max, min, All, All-append, Bool-cases,
  inl, inr, le_div_iff, div_mono, div_unique, if◌then◌else◌,
}
use datalens.Core.Range.{BlockRange, IsValid, max_end, new, contains, align_chunks}
use datalens.Core.Range.Cells.{
  contains_opt, contains-align_chunks, align_chunks-eq-cells, cells, grid_cell_end,
}
use datalens.Core.Range.Lists.{holds, StartsFrom}
use datalens.Engine.Plan.{uncovered, push_cells, align_all, fill_chunks, same_range}
use datalens.Engine.Plan.Gaps.{Within, holds-uncovered, uncovered-DisjointFrom}

abbrev pub IsBounded : BlockRange → Type 0
IsBounded r = r.end ≤ max_end

same_range-contains :
    (last : Option BlockRange) (c : BlockRange) (b : ℕ)
    → same_range last c ≡ true
    → contains_opt last b ≡ contains c b
unfolding contains
same_range-contains none c b h = cc
same_range-contains (some o) c b h = ground arith

-- A cell cut at `safe`, as `new` makes it.
abbrev pub cut : ℕ → BlockRange → BlockRange
cut safe c = record { start = c.start; end = min c.end safe }

new-cut :
    (safe : ℕ) (c : BlockRange)
    → IsBounded c
    → new c.start (min c.end safe)
      ≡ (if leb c.start (min c.end safe) then some (cut safe c) else none)
unfolding new
new-cut safe c h = ground arith

-- One round of the loop of `fill_chunks`.
pub push_cells-cons :
    (safe : ℕ) (last : Option BlockRange) (c : BlockRange) (cs : List BlockRange)
    → IsBounded c
    → push_cells safe last (c ∷ cs) ≡ (
        if leb c.start (min c.end safe) && not (same_range last (cut safe c))
        then cut safe c ∷ push_cells safe (some (cut safe c)) cs
        else push_cells safe last cs)
unfolding push_cells
push_cells-cons safe last c cs h = rw (new-cut safe c h, push_cells) (ground arith)

-- With the cell pushed last, the pushed cells hold the blocks of all cells up to `safe`.
holds-push_cells :
    (safe b : ℕ) (last : Option BlockRange) (cs : List BlockRange)
    → All IsBounded cs
    → (contains_opt last b || holds (push_cells safe last cs) b)
      ≡ (contains_opt last b || (holds cs b && leb b safe))
unfolding contains
holds-push_cells safe b last [] h = unfold push_cells in ground arith
holds-push_cells safe b last (c ∷ cs) h = ground (
  arith,
  push_cells-cons safe last c cs h.0,
  same_range-contains last (cut safe c) b,
  holds-push_cells safe b last cs h.1,
  holds-push_cells safe b (some (cut safe c)) cs h.1,
)

cells-IsBounded : (chunk k n : ℕ) → All IsBounded (cells chunk k n)
unfolding cells
cells-IsBounded chunk k zero = tt
cells-IsBounded chunk k (suc n) = (grid_cell_end chunk k, cells-IsBounded chunk (k + 1) n)

-- The number of a block's cell is one that a range meets.
abbrev meets : ℕ → ℕ → BlockRange → Bool
meets chunk b r = leb (r.start / chunk) (b / chunk) && leb (b / chunk) (r.end / chunk)

module _ (span : BlockRange) (v : IsValid span) (chunk : ℕ) (h : 0 < chunk) where
  Within-IsValid : (gap : BlockRange) → Within span gap → IsValid gap
  Within-IsValid gap w = ground (arith, v)

  align_all-IsBounded :
      (gaps : List BlockRange) → All (Within span) gaps → All IsBounded (align_all gaps chunk)
  unfolding align_all
  align_all-IsBounded [] w = tt
  align_all-IsBounded (gap ∷ gaps) w =
      All-append IsBounded (align_chunks gap chunk) _
        (rw (align_chunks-eq-cells gap chunk h (Within-IsValid gap w.0))
          (cells-IsBounded chunk _ _))
        (align_all-IsBounded gaps w.1)

  holds-align_all :
      (gaps : List BlockRange) (b : ℕ)
      → All (Within span) gaps
      → holds (align_all gaps chunk) b ≡ (any (meets chunk b) gaps && leb b max_end)
  unfolding align_all
  holds-align_all [] b w = refl
  holds-align_all (gap ∷ gaps) b w = ground (
    arith,
    any-append (λ r. contains r b) (align_chunks gap chunk) (align_all gaps chunk),
    contains-align_chunks gap chunk b h (Within-IsValid gap w.0),
    holds-align_all gaps b w.1,
  )

  holds-fill_chunks :
      (covered : List BlockRange) (safe b : ℕ)
      → holds (fill_chunks span covered chunk safe) b
        ≡ (any (meets chunk b) (uncovered span covered) && (leb b max_end && leb b safe))
  unfolding fill_chunks
  holds-fill_chunks covered safe b =
      let w = (uncovered-DisjointFrom span covered v).1 in
      ground (
        arith,
        holds-push_cells safe b none (align_all (uncovered span covered) chunk),
        align_all-IsBounded (uncovered span covered) w,
        holds-align_all (uncovered span covered) b w,
      )

-- A range that meets a block's cell has a block in that cell.
cell_witness :
    (chunk b start end : ℕ)
    → 0 < chunk
    → start ≤ end
    → start / chunk ≤ b / chunk
    → b / chunk ≤ end / chunk
    → let u = max start (b / chunk * chunk) in (start ≤ u) × (u ≤ end) × (u / chunk ≡ b / chunk)
cell_witness chunk b start end h o l m = elim (Bool-cases (leb start (b / chunk * chunk))) [
  | inl low ↦
      let eq : max start (b / chunk * chunk) ≡ b / chunk * chunk = ground arith in
      rw eq (
        ground arith,
        ground (arith, le_div_iff (b / chunk) end chunk h),
        div_unique (b / chunk) (b / chunk * chunk) chunk (omega arith) (omega arith),
      )
  | inr high ↦
      let eq : max start (b / chunk * chunk) ≡ start = ground arith in
      rw eq (ground arith, o, ground (arith, le_div_iff (b / chunk) start chunk h))
]

meets-witness :
    (span : BlockRange) (chunk b : ℕ) (gaps : List BlockRange)
    → 0 < chunk
    → All (Within span) gaps
    → any (meets chunk b) gaps ≡ true
    → (u : ℕ) × (holds gaps u ≡ true) × (u / chunk ≡ b / chunk)
unfolding contains
meets-witness span chunk b [] h w e = cc
meets-witness span chunk b (gap ∷ gaps) h w e = elim (Bool-cases (meets chunk b gap)) [
  | inl here ↦
      let (lo, hi, same) =
        cell_witness chunk b gap.start gap.end h w.0.ordered (ground arith) (ground arith) in
      (max gap.start (b / chunk * chunk), ground arith, same)
  | inr later ↦
      let (u, held, same) = meets-witness span chunk b gaps h w.1 (ground arith) in
      (u, ground arith, same)
]

holds-meets :
    (chunk u b : ℕ) (gaps : List BlockRange)
    → holds gaps u ≡ true
    → u / chunk ≡ b / chunk
    → any (meets chunk b) gaps ≡ true
unfolding contains
holds-meets chunk u b [] e s = cc
holds-meets chunk u b (gap ∷ gaps) e s =
    ground (arith, div_mono gap.start u chunk, div_mono u gap.end chunk, holds-meets chunk u b gaps)

-- A planned job holds a block exactly when the block is at or below `safe` and shares its grid cell
-- with a block of the span that is not covered: no gap is left out, and no cell is planned that
-- has nothing to fill. The span is valid, a chunk is positive, and
-- the covered ranges stand in the order of their starts.
pub holds-fill_chunks_iff :
    (span : BlockRange) (covered : List BlockRange) (chunk safe b n : ℕ)
    → IsValid span
    → 0 < chunk
    → StartsFrom n covered
    → (holds (fill_chunks span covered chunk safe) b ≡ true) ↔ (
        (b ≤ safe)
        × (b ≤ max_end)
        × ((u : ℕ) × (contains span u ≡ true)
            × (holds covered u ≡ false)
            × (u / chunk ≡ b / chunk)))
holds-fill_chunks_iff span covered chunk safe b n v h s =
    let eq = holds-fill_chunks span v chunk h covered safe b in
    let w = (uncovered-DisjointFrom span covered v).1 in
    (
      λ held.
          let (u, gap, same) =
            meets-witness span chunk b (uncovered span covered) h w (ground (arith, eq)) in
          let exact = holds-uncovered span covered n u v s in
          (
            ground (arith, eq),
            ground (arith, eq),
            (u, ground (arith, exact), ground (arith, exact), same),
          ),
      λ (low, top, (u, inside, open', same)). ground (
        arith,
        eq,
        holds-uncovered span covered n u v s,
        holds-meets chunk u b (uncovered span covered),
      ),
    )
