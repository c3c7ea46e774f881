-- ===== src/Store/Tests.antt =====
-- Runs of the coverage of crates/store/src/coverage.rs at concrete inputs.
use datalens.Prelude.{◌≡◌, ℕ, ◌&&◌, List, [], ◌∷◌, arith, leb, ltb}
use datalens.Core.Range.{BlockRange, IsValid}
use datalens.Core.Range.Lists.{ApartFrom}
use datalens.Core.Finality.{Finality}
use datalens.Store.Coverage.{
  Span, finality_at, window_finality, merge_spans, longest_covered_prefix,
}
use datalens.Store.Coverage.Timeline.{Ordered, Coalesced}
use datalens.Store.Coverage.Merge.{finality_at-merge_spans, merge_spans-Ordered}
use datalens.Store.Coverage.Ranges.{PrefixOf, longest_covered_prefix-PrefixOf}

-- Two spans, of which the second is only safe.
abbrev spans : List Span
spans =
    record { start = 0; end = 10; finality = Finality.finalized }
    ∷ record { start = 10; end = 30; finality = Finality.safe }
    ∷ []

finality_at-merge_spans_example :
    finality_at 15 (merge_spans spans 5 20 Finality.finalized)
    ≡ window_finality (finality_at 15 spans) (leb 5 15 && ltb 15 20) Finality.finalized
finality_at-merge_spans_example = finality_at-merge_spans spans 5 20 Finality.finalized 15

merge_spans-Ordered_example :
    (hi : ℕ) × Ordered 0 (merge_spans spans 5 20 Finality.finalized) hi
    × Coalesced (merge_spans spans 5 20 Finality.finalized)
merge_spans-Ordered_example = merge_spans-Ordered spans 5 20 Finality.finalized

abbrev covered : List BlockRange
covered = record { start = 2; end = 8 } ∷ record { start = 12; end = 40 } ∷ []

abbrev query : BlockRange
query = record { start = 14; end = 50 }

query-IsValid : IsValid query
query-IsValid = record { ordered = omega arith; bounded = omega arith }

covered-ApartFrom : ApartFrom 0 covered
covered-ApartFrom = (omega arith, omega arith, (omega arith, omega arith, tt))

longest_covered_prefix-PrefixOf_example :
    PrefixOf covered query (longest_covered_prefix covered query)
longest_covered_prefix-PrefixOf_example =
    longest_covered_prefix-PrefixOf covered query 0 query-IsValid covered-ApartFrom
