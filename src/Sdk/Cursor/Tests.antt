-- ===== src/Sdk/Cursor/Tests.antt =====
-- Runs of the cursors of sdks/rust/src/cursor.rs at concrete inputs.
use datalens.Prelude.{◌≤◌, ◌<◌, ◌≡◌, refl, true, false, none, some, List, [], ◌∷◌}
use datalens.Core.Finality.{Finality}
use datalens.Core.Wire.{Segment, durable, hot}
use datalens.Sdk.Cursor.{QueryResponse, ProvisionalCursor, rollback, advance, observe}
use datalens.Sdk.Cursor.Ascending.{Ascending}
use datalens.Sdk.Cursor.Durable.{durably, advance-durably}

-- Blocks 10 to 19 durable, and 20 to 25 hot.
abbrev segments : List Segment
segments =
    record { start = 10; end = 19; source = durable; finality = Finality.safe; anchor = none }
    ∷ record {
      start = 20;
      end = 25;
      source = hot;
      finality = Finality.unsafe;
      anchor = some (record { number = 25; hash = 77 });
    }
    ∷ []

abbrev response : QueryResponse
response = record {
  requested = record { start = 10; end = 25 };
  served = some (record { start = 10; end = 25 });
  segments = segments;
  rows = some (record { number = 22; hash = 5 }) ∷ none ∷ [];
  complete = true;
}

-- Height 22 was seen with another hash, and height 21 with the rows that are gone.
abbrev cursor : ProvisionalCursor
cursor = record {
  settled = 20;
  next = 24;
  seen =
      record { number = 20; seen = record { hash = 3; rows = false } }
      ∷ record { number = 22; seen = record { hash = 4; rows = true } }
      ∷ [];
}

advance-durably_example :
    (10 ≤ advance 10 segments) × (10 ≤ 15 → 15 < advance 10 segments → durably segments 15 ≡ true)
advance-durably_example = advance-durably 10 15 segments

-- The rows of height 22 are gone from a complete read.
abbrev emptied : QueryResponse
emptied = record response { rows = none ∷ [] }

gone_rows : (observe cursor emptied).1 ≡ rollback 20
unfolding observe
gone_rows = refl
