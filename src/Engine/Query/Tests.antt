-- ===== src/Engine/Query/Tests.antt =====
-- An answer of crates/engine/src/query.rs at a concrete input.
use datalens.Prelude.{refl, some, none, arith}
use datalens.Core.Range.{BlockRange, IsValid}
use datalens.Core.Finality.{safe_to_latest}
use datalens.Core.Wire.{Heads}
use datalens.Engine.Query.{Progress, FollowProgress, query, read_heads}
use datalens.Engine.Query.Answer.{Fills}
use datalens.Engine.Query.Refuse.{QueryEnds, query-QueryEnds}

-- A store in which every durable block is covered.
abbrev complete : BlockRange → Progress
complete durable = record { served = some durable; blocker = none }

complete-Fills : Fills complete
complete-Fills durable v = (refl, v.ordered, omega arith)

abbrev follow_row : FollowProgress
follow_row = record { head_block = some 57; head_hash = 9; from_block = 31 }

abbrev heads : Heads
heads = record { latest = 60; latest_hash = 1; safe = 50; finalized = 25 }

abbrev range : BlockRange
range = record { start = 20; end = 60 }

range-IsValid : IsValid range
range-IsValid = record { ordered = omega arith; bounded = omega arith }

query-QueryEnds_example :
    QueryEnds complete follow_row complete-Fills safe_to_latest range range-IsValid 8
      (some follow_row)
      (read_heads safe_to_latest range heads heads)
      (query complete follow_row safe_to_latest range heads heads 8 (some follow_row))
query-QueryEnds_example =
    query-QueryEnds complete follow_row safe_to_latest range heads heads 8 (some follow_row)
      complete-Fills range-IsValid (omega arith) (omega arith)
