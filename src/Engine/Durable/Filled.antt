-- ===== src/Engine/Durable/Filled.antt =====
-- What `fill_durable` of crates/engine/src/query.rs serves, and when it names a blocker.
use datalens.Prelude.{
  ℕ, ◌≡◌, max, refl, inl, inr, Bool, true, false, not, Option, none, some, List, [], ◌∷◌, All, leb,
  if◌then◌else◌, arith, Bool-cases,
}
use mathlib.Core.Logic.Or
use mathlib.Core.List.{Mem, mem-cons}
use datalens.Core.Range.{BlockRange, IsValid, new}
use datalens.Core.Range.Lists.{ApartFrom}
use datalens.Core.Wire.{Heads, IncompleteReason}
use datalens.Store.Coverage.{longest_covered_prefix}
use datalens.Store.Coverage.Ranges.{PrefixOf, longest_covered_prefix-PrefixOf}
use datalens.Store.Jobs.{JobStatus}
use datalens.Engine.Budget.{FillBudget}
use datalens.Engine.Query.{Progress, reaches}
use datalens.Engine.Plan.{grid_span}
use datalens.Engine.Plan.Grid.{grid_span-IsValid}
use datalens.Engine.Durable.{
  Joined, ErrorKind, fill_durable, after_fills, await_promotion, complete_or, fill_end_of,
  fill_span_of, span_of, first_missing, past_fills, blocker,
}

abbrev pub is_blocked : Option IncompleteReason → Bool
is_blocked none = false
is_blocked (some reason) = true

abbrev pub Apart : List BlockRange → Type 0
Apart covered = (n : ℕ) × ApartFrom n covered

-- The longest prefix of the durable part that coverage holds reaches the part's end.
abbrev pub suffices : BlockRange → List BlockRange → Bool
suffices durable covered =
    reaches (record { served = longest_covered_prefix covered durable; blocker = none }) durable.end

module _ (durable : BlockRange) (span : Option BlockRange)
    (first second : BlockRange → List BlockRange) (promoted : List (List BlockRange)) where
  -- The coverage that an answer may rest on: what the store returned before the fills, for the span that
  -- they are planned on, where that sufficed; else what it returned after them, or, where that did not
  -- suffice, at a later change of the head.
  pub data Read : List BlockRange → Type 0 where
    at_first : (r : BlockRange) → span ≡ some r → suffices durable (first r) ≡ true → Read (first r)
    at_second :
        (r : BlockRange)
        → span ≡ some r
        → suffices durable (first r) ≡ false
        → Read (second durable)
    at_change :
        (covered : List BlockRange)
        → suffices durable (second durable) ≡ false
        → Mem covered promoted
        → Read covered

  -- What is served is the longest prefix of coverage that was read, and a blocker is named exactly where
  -- it does not reach the end.
  pub record IsFilled (p : Progress) : Type 0 where
    pub covered : List BlockRange
    pub read : Read covered
    pub prefix : PrefixOf covered durable p.served
    pub blocked : is_blocked p.blocker ≡ not (reaches p durable.end)

  module _ (v : IsValid durable) where
    complete_or-IsFilled :
        (covered : List BlockRange) (short : Progress)
        → Apart covered
        → (suffices durable covered ≡ true → Read covered)
        → (suffices durable covered ≡ false → IsFilled short)
        → IsFilled (complete_or durable (longest_covered_prefix covered durable) short)
    complete_or-IsFilled covered short a g h = elim (Bool-cases (suffices durable covered)) [
      | inl e ↦ rw e (record {
        covered = covered;
        read = g e;
        prefix = longest_covered_prefix-PrefixOf covered durable a.0 v a.1;
        blocked = rw e refl;
      })
      | inr e ↦ rw e (h e)
    ]

    blocked-IsFilled :
        (covered : List BlockRange) (reason : IncompleteReason)
        → Apart covered
        → Read covered
        → suffices durable covered ≡ false
        → IsFilled
            (record { served = longest_covered_prefix covered durable; blocker = some reason })
    unfolding reaches
    blocked-IsFilled covered reason a g e = record {
      covered = covered;
      read = g;
      prefix = longest_covered_prefix-PrefixOf covered durable a.0 v a.1;
      blocked = ground (arith, e);
    }

    await_promotion-IsFilled :
        (covered : List BlockRange) (later : List (List BlockRange))
        → Apart covered
        → Read covered
        → All Apart later
        → ((c : List BlockRange) → Mem c later → Read c)
        → suffices durable covered ≡ false
        → IsFilled (await_promotion durable (longest_covered_prefix covered durable) later)
    unfolding await_promotion
    await_promotion-IsFilled covered [] a g p m e =
        blocked-IsFilled covered IncompleteReason.not_followed_yet a g e
    await_promotion-IsFilled covered (next ∷ later) a g p m e =
        complete_or-IsFilled next
          (await_promotion durable (longest_covered_prefix next durable) later) p.0
          (λ e'. m next (mem-cons.1 (Or.inl refl)))
          (λ e'.
            await_promotion-IsFilled next later p.0 (m next (mem-cons.1 (Or.inl refl))) p.1
              (λ c k. m c (mem-cons.1 (Or.inr k))) e')

    module _ (active : ℕ → BlockRange → Option ℕ) (enqueue : ℕ → BlockRange → ℕ) (clock : ℕ → ℕ)
        (status : ℕ → Option (JobStatus × Option ErrorKind))
        (seconds : (r : BlockRange) → Apart (second r)) (later : All Apart promoted) where
      after_fills-IsFilled :
          (fill_end : Option ℕ) (j : Joined)
          → Read (second durable)
          → IsFilled
              (after_fills active enqueue clock first second promoted status durable fill_end j)
      unfolding after_fills
      after_fills-IsFilled fill_end j g =
          let covered = second durable in
          let served = longest_covered_prefix covered durable in
          complete_or-IsFilled covered _ (seconds durable) (λ e. g)
            (λ e.
              either (past_fills durable fill_end served)
                (await_promotion-IsFilled covered promoted (seconds durable) g later
                  (λ c m. at_change c e m) e)
                (blocked-IsFilled covered (blocker status j (first_missing durable served))
                  (seconds durable) g e))
        where
          either :
              (b : Bool) {p q : Progress} → IsFilled p → IsFilled q → IsFilled (if b then p else q)
          either true h g = h
          either false h g = g

module _ (durable : BlockRange) (v : IsValid durable) where
  module _ (active : ℕ → BlockRange → Option ℕ) (enqueue : ℕ → BlockRange → ℕ) (clock : ℕ → ℕ)
      (first second : BlockRange → List BlockRange) (promoted : List (List BlockRange))
      (status : ℕ → Option (JobStatus × Option ErrorKind))
      (firsts : (r : BlockRange) → Apart (first r)) (seconds : (r : BlockRange) → Apart (second r))
      (later : All Apart promoted) where
    abbrev pub FilledOpt : Option BlockRange → Option Progress → Type 0
    FilledOpt span none = ⊥
    FilledOpt span (some p) = IsFilled durable span first second promoted p

    span_of-some :
        (chunk : ℕ) (fill_end : Option ℕ)
        → (r : BlockRange) × (span_of durable (fill_span_of durable chunk fill_end) ≡ some r)
    unfolding fill_span_of
    span_of-some chunk none = (durable, refl)
    span_of-some chunk (some end) = elim (Bool-cases (leb durable.start end)) [
      | inr e ↦ rw e (durable, refl)
      | inl e ↦ rw e (joined (grid_span durable chunk end) refl)
    ]
      where
        joined :
            (o : Option BlockRange)
            → grid_span durable chunk end ≡ o
            → (r : BlockRange) × (span_of durable o ≡ some r)
        joined none g = (durable, refl)
        joined (some fill) g =
            let f = grid_span-IsValid durable chunk end fill g in
            (
              record { start = fill.start; end = max fill.end durable.end },
              unfold new in ground (arith, f.ordered, f.bounded, v.bounded),
            )

    -- For a valid durable part, where the store returns coverage that is ascending and coalesced,
    -- `fill_durable` always answers. It serves the longest prefix of the part that the coverage holds
    -- which the store returned: before the fills for the span planned on, where that reaches the part's
    -- end, else after them, or, where that falls short too, at a later change of the head. It names a
    -- blocker exactly where what it serves does not reach the part's end.
    pub fill_durable-FilledOpt :
        (chunk : ℕ) (follow existing : Option ℕ) (heads : Heads) (budget : Option FillBudget)
        → FilledOpt
            (span_of durable (fill_span_of durable chunk (fill_end_of follow existing heads.safe)))
            (fill_durable active enqueue clock first second promoted status durable chunk follow
              existing heads budget)
    unfolding fill_durable
    fill_durable-FilledOpt chunk follow existing heads budget =
        let fill_end = fill_end_of follow existing heads.safe in
        let (span, e) = span_of-some chunk fill_end in
        rw (e, fill_durable)
          (complete_or-IsFilled durable (some span) first second promoted v (first span) _
            (firsts span) (λ full. at_first span refl full)
            (λ short.
              after_fills-IsFilled durable (some span) first second promoted v active enqueue clock
                status seconds later fill_end _ (at_second span refl short)))
