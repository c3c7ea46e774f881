-- ===== src/Engine/Plan/Order.antt =====
-- The order of the jobs that `fill_chunks` of crates/engine/src/plan.rs plans.
use datalens.Prelude.{
  ℕ, zero, suc, ◌+◌, ◌-◌, ◌/◌, ◌≤◌, ◌<◌, ◌≡◌, refl, true, false, not, ◌&&◌, Option, none, some,
  List, [], ◌∷◌, ◌++◌, arith, leb, ltb, ap, min, All, Bool-cases, inl, inr, ◌⊎◌, div_mono, mul_le,
  le_mul,
}
use datalens.Core.Range.{BlockRange, IsValid, max_end, grid_cell}
use datalens.Core.Range.Cells.{align_chunks-eq-cells, cells, grid_cell_bounds, grid_cell_end}
use datalens.Core.Range.Lists.{DisjointFrom}
use datalens.Engine.Plan.{uncovered, push_cells, align_all, fill_chunks, same_range}
use datalens.Engine.Plan.Gaps.{Within, uncovered-DisjointFrom}
use datalens.Engine.Plan.Fill.{cut, push_cells-cons}

-- Grid cells in ascending order, repetitions allowed, from number `lo` on.
abbrev Grid : ℕ → ℕ → List BlockRange → Type 0
Grid chunk lo [] = Unit {0}
Grid chunk lo (c ∷ cs) =
    (k : ℕ) × (c ≡ grid_cell chunk k) × (lo ≤ k) × (k ≤ max_end / chunk) × Grid chunk k cs

Grid-mono : (chunk l m : ℕ) (cs : List BlockRange) → l ≤ m → Grid chunk m cs → Grid chunk l cs
Grid-mono chunk l m [] h g = tt
Grid-mono chunk l m (c ∷ cs) h (k, e, lo, hi, g) = (k, e, omega arith, hi, g)

-- What the next pushed cell is compared with: nothing, or the cut cell number `lo`, before `e`.
abbrev Pushed : ℕ → ℕ → ℕ → ℕ → Option BlockRange → Type 0
Pushed safe chunk lo e last =
    ((last ≡ none) × (e ≡ 0))
    ⊎ ((last ≡ some (cut safe (grid_cell chunk lo)))
        × (lo ≤ max_end / chunk)
        × (e ≤ (grid_cell chunk lo).end + 1))

later_cell :
    (chunk lo k : ℕ)
    → 0 < chunk
    → lo < k
    → k ≤ max_end / chunk
    → (grid_cell chunk lo).end + 1 ≤ (grid_cell chunk k).start
later_cell chunk lo k h l m =
    let a = grid_cell_bounds chunk lo max_end h (omega arith) (omega arith) in
    let b = grid_cell_bounds chunk k max_end h m (omega arith) in
    ground (arith, a, b, mul_le (lo + 1) k chunk (omega arith), le_mul (lo + 1) chunk h)

same_range_refl : (c : BlockRange) → same_range (some c) c ≡ true
same_range_refl c = ground arith

push_start :
    (safe chunk lo k e : ℕ) (last : Option BlockRange) (c : BlockRange)
    → 0 < chunk
    → Pushed safe chunk lo e last
    → c ≡ grid_cell chunk k
    → lo ≤ k
    → k ≤ max_end / chunk
    → same_range last (cut safe c) ≡ false
    → e ≤ c.start
push_start safe chunk lo k e last c h (inl (_, z)) is l m new' = omega arith
push_start safe chunk lo k e last c h (inr (at, _, before)) is l m new' =
    elim (Bool-cases (ltb lo k)) [
      | inl less ↦ ground (arith, later_cell chunk lo k h, ap (λ (r : BlockRange). r.start) is)
      | inr same ↦
          let eq : lo ≡ k = ground arith in
          cc (new', at, is, ap (grid_cell chunk) eq, same_range_refl (cut safe c), ap (cut safe) is)
    ]

push_cells-DisjointFrom :
    (safe chunk lo e : ℕ) (last : Option BlockRange) (cs : List BlockRange)
    → 0 < chunk
    → Pushed safe chunk lo e last
    → Grid chunk lo cs
    → DisjointFrom e (push_cells safe last cs)
push_cells-DisjointFrom safe chunk lo e last [] h p g = unfold push_cells in tt
push_cells-DisjointFrom safe chunk lo e last (c ∷ cs) h p (k, is, l, m, g) =
    let eq = push_cells-cons safe last c cs (rw is (grid_cell_end chunk k)) in
    let skipped =
      push_cells-DisjointFrom safe chunk lo e last cs h p (Grid-mono chunk lo k cs l g) in
    let pushed =
      push_cells-DisjointFrom safe chunk k (min c.end safe + 1) (some (cut safe c)) cs h
        (inr (rw is, m, rw is (omega arith))) g in
    elim (Bool-cases (leb c.start (min c.end safe) && not (same_range last (cut safe c)))) [
      | inl push ↦
          rw (eq, push)
            (push_start safe chunk lo k e last c h p is l m (ground arith), ground arith, pushed)
      | inr skip ↦ rw (eq, skip) skipped
    ]

cells-Grid :
    (chunk lo k n : ℕ) (rest : List BlockRange)
    → lo ≤ k
    → k + n ≤ max_end / chunk
    → ((m : ℕ) → m ≡ k + n → Grid chunk m rest)
    → Grid chunk lo (cells chunk k (suc n) ++ rest)
unfolding cells
cells-Grid chunk lo k zero rest l m g = (k, refl, l, omega arith, g k (omega arith))
cells-Grid chunk lo k (suc n) rest l m g = (
  k,
  refl,
  l,
  omega arith,
  cells-Grid chunk k (k + 1) n rest (omega arith) (omega arith) (λ j e. g j (omega arith)),
)

module _ (span : BlockRange) (v : IsValid span) (chunk : ℕ) (h : 0 < chunk) where
  align_all-Grid :
      (n : ℕ) (gaps : List BlockRange)
      → All (Within span) gaps
      → DisjointFrom n gaps
      → Grid chunk (n / chunk) (align_all gaps chunk)
  unfolding align_all
  align_all-Grid n [] w d = tt
  align_all-Grid n (gap ∷ gaps) w d =
      let gv : IsValid gap = ground (arith, v, w.0) in
      let up = div_mono gap.start gap.end chunk d.1 in
      let count : gap.end / chunk + 1 - gap.start / chunk
          ≡ suc (gap.end / chunk - gap.start / chunk) =
        omega arith in
      rw (align_chunks-eq-cells gap chunk h gv, count)
        (cells-Grid chunk (n / chunk) (gap.start / chunk) (gap.end / chunk - gap.start / chunk)
          (align_all gaps chunk) (div_mono n gap.start chunk d.0)
          (omega (arith, div_mono gap.end max_end chunk gv.bounded))
          (λ m e.
            Grid-mono chunk m ((gap.end + 1) / chunk) _
              (omega (arith, div_mono gap.end (gap.end + 1) chunk (omega arith)))
              (align_all-Grid (gap.end + 1) gaps w.1 d.2)))

  -- For a valid span and a positive chunk the planned jobs are non-empty, ascending, and no two of
  -- them meet; so no chunk is planned twice, though two gaps may lie in one cell.
  pub fill_chunks-DisjointFrom :
      (covered : List BlockRange) (safe : ℕ) → DisjointFrom 0 (fill_chunks span covered chunk safe)
  unfolding fill_chunks
  fill_chunks-DisjointFrom covered safe =
      let (d, w) = uncovered-DisjointFrom span covered v in
      push_cells-DisjointFrom safe chunk 0 0 none _ h (inl (refl, refl)) (
        Grid-mono chunk 0 (span.start / chunk) _ (omega arith)
          (align_all-Grid span.start (uncovered span covered) w d))
