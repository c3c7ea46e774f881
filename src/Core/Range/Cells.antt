-- ===== src/Core/Range/Cells.antt =====
-- What `new`, `intersect` and `align_chunks` of crates/core/src/range.rs compute.
use datalens.Prelude.{
  ℕ, zero, suc, ◌+◌, ◌-◌, ◌*◌, ◌/◌, ◌≤◌, ◌<◌, min, ◌≡◌, ◌↔◌, refl, ap, Bool, false, ◌&&◌, Option,
  none, some, List, [], ◌∷◌, arith, leb, ltb, any, mul_le, div_mul-le, le_mul, div_mono, le_div_iff,
  div_lt_iff,
}
use datalens.Core.Range.{
  BlockRange, IsValid, max_end, new, contains, intersect, grid_cell, align_from, align_chunks,
}

pub new_iff :
    (s e : ℕ)
    → (new s e ≡ some (record { start = s; end = e })) ↔ IsValid (record { start = s; end = e })
unfolding new
new_iff s e = (λ h. ground arith, λ v. ground arith)

pub new-eq-some :
    (s e : ℕ) (r : BlockRange) → new s e ≡ some r → (r.start ≡ s) × (r.end ≡ e) × IsValid r
unfolding new
new-eq-some s e r h = ground arith

-- The blocks of an optional range.
abbrev pub contains_opt : Option BlockRange → ℕ → Bool
contains_opt none b = false
contains_opt (some r) b = contains r b

pub contains-intersect :
    (r o : BlockRange) (b : ℕ) → contains_opt (intersect r o) b ≡ (contains r b && contains o b)
unfolding intersect contains
contains-intersect r o b = ground arith

-- `n` grid cells from number `k` on.
unfoldable pub cells : ℕ → ℕ → ℕ → List BlockRange
cells chunk k zero = []
cells chunk k (suc n) = grid_cell chunk k ∷ cells chunk (k + 1) n

-- A valid range's cell does not saturate.
pub grid_cell_bounds :
    (chunk k last : ℕ)
    → 0 < chunk
    → k ≤ last / chunk
    → last ≤ max_end
    → ((grid_cell chunk k).start ≡ k * chunk)
      × ((grid_cell chunk k).end ≡ min ((k + 1) * chunk - 1) max_end)
unfolding grid_cell
grid_cell_bounds chunk k last h hk hl =
    ground (arith, mul_le k (last / chunk) chunk hk, div_mul-le last chunk, le_mul k chunk h)

-- A cell before that of `last` does not reach it: its end is below the next cell's start.
cell_short :
    (chunk k last : ℕ)
    → 0 < chunk
    → last ≤ max_end
    → k < last / chunk
    → leb last (grid_cell chunk k).end ≡ false
cell_short chunk k last h hl hk =
    let bounds = grid_cell_bounds chunk k last h (omega arith) hl in
    ground (
      arith,
      bounds,
      mul_le (k + 1) (last / chunk) chunk (omega arith),
      div_mul-le last chunk,
      le_mul (k + 1) chunk h,
    )

-- Rounds beyond the cell that holds `last` are not run, and enough fuel reaches that cell.
pub align_from-eq-cells :
    (chunk k n last : ℕ)
    → 0 < chunk
    → last ≤ max_end
    → k + n ≡ last / chunk + 1
    → align_from n chunk k last ≡ cells chunk k n
unfolding align_from cells
align_from-eq-cells chunk k zero last h hl e = refl
align_from-eq-cells chunk k (suc zero) last h hl e = ground arith
align_from-eq-cells chunk k (suc (suc n)) last h hl e =
    rw (cell_short chunk k last h hl (omega arith)) (
      ap (◌∷◌ (grid_cell chunk k))
        (align_from-eq-cells chunk (k + 1) (suc n) last h hl (omega arith)))

-- The loop of `align_chunks` stops by its own test, with every cell from that of the start to that
-- of the end, for any positive chunk.
pub align_chunks-eq-cells :
    (r : BlockRange) (chunk : ℕ)
    → 0 < chunk
    → IsValid r
    → align_chunks r chunk ≡ cells chunk (r.start / chunk) (r.end / chunk + 1 - r.start / chunk)
unfolding align_chunks
align_chunks-eq-cells r chunk h v =
    align_from-eq-cells chunk _ _ r.end h v.bounded
      (omega (arith, div_mono r.start r.end chunk v.ordered))

-- A block lies in the cell of its own number only, cut at `max_end`.
pub contains-grid_cell :
    (chunk k last b : ℕ)
    → 0 < chunk
    → k ≤ last / chunk
    → last ≤ max_end
    → contains (grid_cell chunk k) b ≡ (leb k (b / chunk) && (leb (b / chunk) k && leb b max_end))
unfolding contains
contains-grid_cell chunk k last b h hk hl = ground (
  arith,
  grid_cell_bounds chunk k last h hk hl,
  le_div_iff k b chunk h,
  div_lt_iff b (k + 1) chunk h,
  le_mul (k + 1) chunk h,
)

contains-cells :
    (chunk k n last b : ℕ)
    → 0 < chunk
    → k + n ≤ last / chunk + 1
    → last ≤ max_end
    → any (λ c. contains c b) (cells chunk k n)
      ≡ (leb k (b / chunk) && (ltb (b / chunk) (k + n) && leb b max_end))
unfolding cells
contains-cells chunk k zero last b h e hl = ground arith
contains-cells chunk k (suc n) last b h e hl = ground (
  arith,
  contains-grid_cell chunk k last b h (omega arith) hl,
  contains-cells chunk (k + 1) n last b h (omega arith) hl,
)

-- The blocks of the chunks are those of the cells that the range meets, up to `max_end`: the
-- widened range, whatever the range's place in its cells.
pub contains-align_chunks :
    (r : BlockRange) (chunk b : ℕ)
    → 0 < chunk
    → IsValid r
    → any (λ c. contains c b) (align_chunks r chunk)
      ≡ (leb (r.start / chunk) (b / chunk) && (leb (b / chunk) (r.end / chunk) && leb b max_end))
contains-align_chunks r chunk b h v =
    let m = div_mono r.start r.end chunk v.ordered in
    ground (
      arith,
      align_chunks-eq-cells r chunk h v,
      contains-cells chunk (r.start / chunk) (r.end / chunk + 1 - r.start / chunk) r.end b h
          (omega arith) v.bounded,
    )

pub contains_new : (s e b : ℕ) → contains_opt (new s e) b ≡ (leb s b && (leb b e && leb e max_end))
unfolding new contains
contains_new s e b = ground arith

pub grid_cell_end : (chunk k : ℕ) → (grid_cell chunk k).end ≤ max_end
unfolding grid_cell
grid_cell_end chunk k = omega arith
