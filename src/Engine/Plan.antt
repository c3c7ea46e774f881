-- ===== src/Engine/Plan.antt =====
-- crates/engine/src/plan.rs: which blocks a request fills, and the segments it is served as.
pub mod Grid
pub mod Gaps
pub mod Fill
pub mod Order
use datalens.Prelude.{
  ℕ, ◌+◌, ◌-◌, ◌*◌, ◌/◌, min, max, Bool, not, Option, none, some, List, [], ◌∷◌, ◌++◌, leb, ltb,
  ◌==◌, if◌then◌else◌, saturating_add, saturating_mul, saturating_sub, ◌&&◌,
}
use datalens.Core.Range.{BlockRange, max_end, new, intersect, align_chunks}
use datalens.Core.Finality.{Finality}
use datalens.Core.Wire.{Heads, Segment, durable}

pub grid_span : BlockRange → ℕ → ℕ → Option BlockRange
grid_span range chunk safe =
    let start = range.start / chunk * chunk in
    let end = saturating_sub (saturating_mul (saturating_add (range.end / chunk) 1) chunk) 1 in
    new start (min (min end safe) max_end)

abbrev pub ok_list : Option BlockRange → List BlockRange
ok_list none = []
ok_list (some r) = r ∷ []

-- The loop of `uncovered`: the gap before a hit, and where the next gap may start.
gap_before : ℕ → Option BlockRange → List BlockRange
gap_before next none = []
gap_before next (some hit) = if ltb next hit.start then ok_list (new next (hit.start - 1)) else []

next_after : ℕ → Option BlockRange → ℕ
next_after next none = next
next_after next (some hit) = max next (saturating_add hit.end 1)

uncovered_from : BlockRange → ℕ → List BlockRange → List BlockRange
unfolding gap_before next_after
uncovered_from range next [] = if leb next range.end then ok_list (new next range.end) else []
uncovered_from range next (span ∷ covered) =
    gap_before next (intersect span range)
    ++ uncovered_from range (next_after next (intersect span range)) covered

unfoldable pub uncovered : BlockRange → List BlockRange → List BlockRange
unfolding uncovered_from
uncovered range covered = uncovered_from range range.start covered

abbrev pub same_range : Option BlockRange → BlockRange → Bool
same_range none r = Bool.false
same_range (some o) r = o.start == r.start && o.end == r.end

-- The loop of `fill_chunks`; of the cells pushed so far it reads the last one only.
pub push_cells : ℕ → Option BlockRange → List BlockRange → List BlockRange
push_cells safe last [] = []
push_cells safe last (cell ∷ rest) = elim (new cell.start (min cell.end safe)) [
  | none ↦ push_cells safe last rest
  | some c ↦
      let skipped = push_cells safe last rest in
      let pushed = c ∷ push_cells safe (some c) rest in
      if same_range last c then skipped else pushed
]

pub align_all : List BlockRange → ℕ → List BlockRange
align_all [] chunk = []
align_all (gap ∷ gaps) chunk = align_chunks gap chunk ++ align_all gaps chunk

pub fill_chunks : BlockRange → List BlockRange → ℕ → ℕ → List BlockRange
unfolding push_cells align_all
fill_chunks span covered chunk safe =
    push_cells safe none (align_all (uncovered span covered) chunk)

pub durable_part : BlockRange → ℕ → Option BlockRange
durable_part range safe = new range.start (min range.end safe)

abbrev durable_segment : ℕ → ℕ → Finality → Segment
durable_segment start end finality = record {
  start = start;
  end = end;
  source = durable;
  finality = finality;
  anchor = none;
}

pub durable_segments : BlockRange → Heads → List Segment
durable_segments served heads =
    (if leb served.start heads.finalized
      then durable_segment served.start (min served.end heads.finalized) Finality.finalized ∷ []
      else [])
    ++ (if ltb heads.finalized served.end
        then durable_segment (max served.start (heads.finalized + 1)) served.end Finality.safe ∷ []
        else [])

pub fill_finality : BlockRange → Heads → Finality
fill_finality blocks heads =
    if leb blocks.end heads.finalized then Finality.finalized else Finality.safe

pub row_finality : ℕ → Heads → Finality
row_finality block heads =
    if leb block heads.finalized
    then Finality.finalized
    else if leb block heads.safe
    then Finality.safe
    else Finality.unsafe
