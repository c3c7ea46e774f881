-- ===== src/Engine/Durable/Tests.antt =====
-- The durable part of a query at concrete inputs.
use datalens.Prelude.{◌≡◌, refl, none, some, List, [], ◌∷◌, arith, true}
use datalens.Core.Range.{BlockRange, IsValid, contains}
use datalens.Core.Wire.{Heads, budget_exhausted, provider_error}
use datalens.Store.Jobs.{failed, running}
use datalens.Engine.Durable.{
  out_of_tokens, fill_durable, fill_end_of, fill_span_of, span_of, blocker, Joined,
}
use datalens.Engine.Durable.Filled.{FilledOpt, fill_durable-FilledOpt}

abbrev part : BlockRange
part = record { start = 5; end = 14 }

abbrev part-IsValid : IsValid part
part-IsValid = record { ordered = omega arith; bounded = omega arith }

abbrev heads : Heads
heads = record { latest = 30; latest_hash = 3; safe = 20; finalized = 10 }

-- The store has the blocks up to 9, and those up to 14 after the fills.
abbrev first : BlockRange → List BlockRange
first r = record { start = 0; end = 9 } ∷ []

abbrev second : BlockRange → List BlockRange
second r = record { start = 0; end = 14 } ∷ []

-- Blocks that a follow row owns from 12 on are not filled.
owned : fill_end_of none (some 12) 20 ≡ some 11
unfolding fill_end_of
owned = refl

abbrev joined : Joined
joined = record { jobs = (4, record { start = 0; end = 9 }) ∷ []; over_budget = true }

refused_chunk : blocker (λ id. some (running, none)) joined 12 ≡ budget_exhausted
unfolding blocker contains
refused_chunk = refl

failed_chunk : blocker (λ id. some (failed, some out_of_tokens)) joined 5 ≡ provider_error
unfolding blocker contains
failed_chunk = refl

fill_durable-FilledOpt_example :
    FilledOpt part part-IsValid
      (λ n c. none)
      (λ n c. n)
      (λ n. n)
      first
      second
      []
      (λ id. none)
      (λ r. (0, (omega arith, omega arith, tt)))
      (λ r. (0, (omega arith, omega arith, tt)))
      tt
      (span_of part (fill_span_of part 10 (fill_end_of none none 20)))
      (fill_durable
        (λ n c. none)
        (λ n c. n)
        (λ n. n)
        first
        second
        []
        (λ id. none)
        part
        10
        none
        none
        heads
        none)
fill_durable-FilledOpt_example =
    fill_durable-FilledOpt part part-IsValid (λ n c. none) (λ n c. n) (λ n. n) first second []
      (λ id. none) (λ r. (0, (omega arith, omega arith, tt)))
      (λ r. (0, (omega arith, omega arith, tt))) tt 10 none none heads none
