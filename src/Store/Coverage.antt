-- ===== src/Store/Coverage.antt =====
-- crates/store/src/coverage.rs: which blocks of a selector are stored, and how finally.
-- `int8` bounds are natural numbers here: a `BlockRange` never yields a negative one, and
-- `block_range_from_pg` refuses a row that has one.
pub mod Timeline
mod Bounds
pub mod Merge
pub mod Ranges
use datalens.Prelude.{
  ℕ, ◌+◌, min, Bool, true, false, ◌&&◌, Option, none, some, List, [], ◌∷◌, ◌++◌, leb, ltb, ◌==◌,
  if◌then◌else◌, set_insert,
}
use datalens.Core.Range.{BlockRange, new, contains, intersect}
use datalens.Core.Finality.{Finality, as_i16, stronger}

-- Half open, as in the database.
pub record Span : Type 0 where
  pub start : ℕ
  pub end : ℕ
  pub finality : Finality

-- `existing.iter().find(…).map(|span| span.finality)`
abbrev pub finality_at : ℕ → List Span → Option Finality
finality_at a [] = none
finality_at a (s ∷ ss) = if leb s.start a && ltb a s.end then some s.finality else finality_at a ss

pub insert_bounds : List Span → List ℕ → List ℕ
insert_bounds [] bounds = bounds
insert_bounds (s ∷ ss) bounds = insert_bounds ss (set_insert s.end (set_insert s.start bounds))

-- The finality of a window that starts at `a`: the old one and the new one joined.
abbrev pub window_finality : Option Finality → Bool → Finality → Option Finality
window_finality none false finality = none
window_finality (some old) false finality = some old
window_finality none true finality = some finality
window_finality (some old) true finality = some (stronger old finality)

-- The end of `merge_spans`'s loop body: the last span grows, or a new one is pushed.
pub push_span : List Span → ℕ → ℕ → Finality → List Span
push_span [] a b fin = record { start = a; end = b; finality = fin } ∷ []
push_span (last ∷ []) a b fin =
    if last.end == a && as_i16 last.finality == as_i16 fin
    then record last { end = b } ∷ []
    else last ∷ record { start = a; end = b; finality = fin } ∷ []
push_span (s ∷ t ∷ out) a b fin = s ∷ push_span (t ∷ out) a b fin

module _ (existing : List Span) (start end : ℕ) (finality : Finality) where
  add_window : ℕ → ℕ → List Span → List Span
  unfolding push_span
  add_window a b out =
      if leb b a
      then out
      else elim (window_finality (finality_at a existing) (leb start a && ltb a end) finality) [
        | none ↦ out
        | some fin ↦ push_span out a b fin
      ]

  -- `for pair in bounds.windows(2)`
  merge_windows : List ℕ → List Span → List Span
  unfolding add_window
  merge_windows [] out = out
  merge_windows (a ∷ []) out = out
  merge_windows (a ∷ b ∷ bounds) out = merge_windows (b ∷ bounds) (add_window a b out)

  pub merge_spans : List Span
  unfolding merge_windows insert_bounds set_insert
  merge_spans = merge_windows (insert_bounds existing (set_insert end (set_insert start []))) []

pub longest_covered_prefix : List BlockRange → BlockRange → Option BlockRange
longest_covered_prefix [] query = none
longest_covered_prefix (hit ∷ covered) query =
    if contains hit query.start
    then new query.start (min hit.end query.end)
    else longest_covered_prefix covered query

intersect_one : BlockRange → List BlockRange → List BlockRange
intersect_one a [] = []
intersect_one a (b ∷ right) = elim (intersect a b) [
  | none ↦ intersect_one a right
  | some hit ↦ hit ∷ intersect_one a right
]

pub intersect_ranges : List BlockRange → List BlockRange → List BlockRange
unfolding intersect_one
intersect_ranges [] right = []
intersect_ranges (a ∷ left) right = intersect_one a right ++ intersect_ranges left right
