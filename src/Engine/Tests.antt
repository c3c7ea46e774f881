-- ===== src/Engine/Tests.antt =====
-- Runs of the plans of crates/engine/src/plan.rs at concrete inputs.
use datalens.Prelude.{
  ◌≡◌, refl, ◌/◌, ◌≤◌, ◌↔◌, ℕ, true, false, not, ◌&&◌, List, [], ◌∷◌, arith, leb, any,
}
use datalens.Core.Range.{BlockRange, IsValid, contains, align_chunks, max_end}
use datalens.Core.Range.Cells.{contains_opt}
use datalens.Core.Range.Lists.{holds, StartsFrom, DisjointFrom}
use datalens.Core.Wire.{Heads}
use datalens.Engine.Plan.{grid_span, uncovered, fill_chunks}
use datalens.Engine.Plan.Grid.{contains-grid_span}
use datalens.Engine.Plan.Gaps.{holds-uncovered}
use datalens.Engine.Plan.Fill.{holds-fill_chunks_iff}
use datalens.Engine.Plan.Order.{fill_chunks-DisjointFrom}

abbrev request : BlockRange
request = record { start = 10; end = 39 }

abbrev stored : List BlockRange
stored = record { start = 12; end = 14 } ∷ record { start = 20; end = 33 } ∷ []

abbrev heads : Heads
heads = record { latest = 60; latest_hash = 1; safe = 50; finalized = 25 }

request-IsValid : IsValid request
request-IsValid = record { ordered = omega arith; bounded = omega arith }

stored-StartsFrom : StartsFrom 10 stored
stored-StartsFrom = (omega arith, (omega arith, tt))

holds-fill_chunks_iff_example : (holds (fill_chunks request stored 10 36) 31 ≡ true) ↔ (
    (31 ≤ 36)
    × (31 ≤ max_end)
    × ((u : ℕ) × (contains request u ≡ true) × (holds stored u ≡ false) × (u / 10 ≡ 31 / 10)))
holds-fill_chunks_iff_example =
    holds-fill_chunks_iff request stored 10 36 31 10 request-IsValid (omega arith) stored-StartsFrom

fill_chunks-DisjointFrom_example : DisjointFrom 0 (fill_chunks request stored 10 36)
fill_chunks-DisjointFrom_example =
    fill_chunks-DisjointFrom request request-IsValid 10 (omega arith) stored 36

holds-uncovered_example :
    holds (uncovered request stored) 16 ≡ (contains request 16 && not (holds stored 16))
holds-uncovered_example = holds-uncovered request stored 10 16 request-IsValid stored-StartsFrom

contains-grid_span_example :
    contains_opt (grid_span request 10 36) 36
    ≡ (any (λ c. contains c 36) (align_chunks request 10) && leb 36 36)
contains-grid_span_example = contains-grid_span request 10 36 36 (omega arith) request-IsValid

contains_26 : contains request 26 ≡ true
unfolding contains
contains_26 = refl
