-- ===== src/Engine/Plan/Gaps.antt =====
-- `uncovered` of crates/engine/src/plan.rs.
use datalens.Prelude.{
  ℕ, ◌-◌, ◌≤◌, ◌≡◌, refl, not, ◌&&◌, ◌||◌, Option, none, some, List, [], ◌∷◌, ◌++◌, arith, leb, ltb,
  any-append, Bool-cases, inl, inr, All, All-append,
}
use datalens.Core.Range.{BlockRange, IsValid, new, contains, intersect}
use datalens.Core.Range.Lists.{holds, StartsFrom, DisjointFrom, holds_below, DisjointFrom-mono}
use datalens.Core.Range.Cells.{new_iff, contains_new}
use datalens.Engine.Plan.{uncovered_from, uncovered, next_after, gap_before}

pub record Within (range r : BlockRange) : Type 0 where
  pub from : range.start ≤ r.start
  pub ordered : r.start ≤ r.end
  pub to : r.end ≤ range.end

module _ (range : BlockRange) (v : IsValid range) where
  holds-gap_before :
      (next b : ℕ) (span : BlockRange)
      → range.start ≤ next
      → holds (gap_before next (intersect span range)) b ≡ (
          leb next b
          && (leb b range.end
              && (ltb b span.start && (leb span.start range.end && leb span.start span.end))))
  unfolding gap_before intersect contains new
  holds-gap_before next b span h = ground arith

  next_after-ge : (next : ℕ) (span : BlockRange) → next ≤ next_after next (intersect span range)
  unfolding next_after
  next_after-ge next span = ground arith

  -- Which blocks of the range from `next` on a span leaves for later gaps.
  contains_after :
      (next b : ℕ) (span : BlockRange)
      → range.start ≤ next
      → next ≤ b
      → b ≤ range.end
      → leb (next_after next (intersect span range)) b
        ≡ (ltb span.end b || (ltb span.end span.start || ltb range.end span.start))
  unfolding next_after intersect
  contains_after next b span h k l = ground (arith, v)

  holds-uncovered_from :
      (n next b : ℕ) (covered : List BlockRange)
      → range.start ≤ next
      → StartsFrom n covered
      → holds (uncovered_from range next covered) b
        ≡ (leb next b && (leb b range.end && not (holds covered b)))
  unfolding uncovered_from contains
  holds-uncovered_from n next b [] h s = ground (arith, contains_new next range.end b)
  holds-uncovered_from n next b (span ∷ covered) h s = ground (
    arith,
    holds-gap_before next b span h,
    any-append (λ r. contains r b) (gap_before next (intersect span range))
        (uncovered_from range (next_after next (intersect span range)) covered),
    next_after-ge next span,
    holds-uncovered_from span.start (next_after next (intersect span range)) b covered,
    holds_below span.start b covered s.1,
    contains_after next b span,
  )

  intersect-Within : (span hit : BlockRange) → intersect span range ≡ some hit → Within range hit
  unfolding intersect
  intersect-Within span hit e = ground arith

  gap-DisjointFrom :
      (next : ℕ) (hit : BlockRange) (rest : List BlockRange)
      → Within range hit
      → DisjointFrom (next_after next (some hit)) rest
      → DisjointFrom next (gap_before next (some hit) ++ rest)
  unfolding gap_before next_after
  gap-DisjointFrom next hit rest w d = elim (Bool-cases (ltb next hit.start)) [
    | inl before ↦
        let ends = hit.start - 1 in
        rw (before, (new_iff next ends).1 (ground (arith, v)))
          (ground arith, ground arith, DisjointFrom-mono _ _ rest (ground (arith, v)) d)
    | inr after ↦ rw after (DisjointFrom-mono _ _ rest (omega arith) d)
  ]

  gap_before-DisjointFrom :
      (next : ℕ) (o : Option BlockRange) (rest : List BlockRange)
      → ((hit : BlockRange) → o ≡ some hit → Within range hit)
      → DisjointFrom (next_after next o) rest
      → DisjointFrom next (gap_before next o ++ rest)
  gap_before-DisjointFrom next none rest w d = unfold gap_before next_after in d
  gap_before-DisjointFrom next (some hit) rest w d = gap-DisjointFrom next hit rest (w hit refl) d

  DisjointFrom-uncovered_from :
      (next : ℕ) (covered : List BlockRange)
      → range.start ≤ next
      → DisjointFrom next (uncovered_from range next covered)
  unfolding uncovered_from new
  DisjointFrom-uncovered_from next [] h = ground arith
  DisjointFrom-uncovered_from next (span ∷ covered) h =
      gap_before-DisjointFrom next (intersect span range) _ (intersect-Within span) (
        DisjointFrom-uncovered_from (next_after next (intersect span range)) covered
          (omega (arith, next_after-ge next span)))

  gap_before-InRange :
      (next : ℕ) (span : BlockRange)
      → range.start ≤ next
      → All (Within range) (gap_before next (intersect span range))
  unfolding gap_before intersect new
  gap_before-InRange next span h = ground (arith, v)

  uncovered_from-InRange :
      (next : ℕ) (covered : List BlockRange)
      → range.start ≤ next
      → All (Within range) (uncovered_from range next covered)
  unfolding uncovered_from new
  uncovered_from-InRange next [] h = ground (arith, v)
  uncovered_from-InRange next (span ∷ covered) h =
      All-append (Within range) (gap_before next (intersect span range)) _
        (gap_before-InRange next span h)
        (uncovered_from-InRange (next_after next (intersect span range)) covered
          (omega (arith, next_after-ge next span)))

-- With the covered ranges in the order of their starts, as the store returns them, the gaps hold
-- exactly the blocks of the range that no covered range holds.
pub holds-uncovered :
    (range : BlockRange) (covered : List BlockRange) (n b : ℕ)
    → IsValid range
    → StartsFrom n covered
    → holds (uncovered range covered) b ≡ (contains range b && not (holds covered b))
unfolding uncovered contains
holds-uncovered range covered n b v s =
    ground (arith, holds-uncovered_from range v n range.start b covered)

-- For a valid range, whatever the covered ranges, the gaps are non-empty, ascending and apart, inside the range.
pub uncovered-DisjointFrom :
    (range : BlockRange) (covered : List BlockRange)
    → IsValid range
    → DisjointFrom range.start (uncovered range covered)
      × All (Within range) (uncovered range covered)
unfolding uncovered
uncovered-DisjointFrom range covered v = (
  DisjointFrom-uncovered_from range v range.start covered (omega arith),
  uncovered_from-InRange range v range.start covered (omega arith),
)
