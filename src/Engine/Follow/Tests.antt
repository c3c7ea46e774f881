-- ===== src/Engine/Follow/Tests.antt =====
-- The follower at concrete inputs.
use datalens.Prelude.{ℕ, ◌≡◌, refl, some, List, [], ◌∷◌, All}
use datalens.Core.Range.{BlockRange}
use datalens.Core.Finality.{safe, finalized}
use datalens.Core.Wire.{Heads, evm_blocks}
use datalens.Store.Codec.{pos}
use datalens.Store.Follow.{FollowProgress}
use datalens.Engine.Follow.{
  Header, reorg_detected, stored, parts_of, follow_blocks, record_follow_calls,
}
use datalens.Engine.Follow.Finalize.{Planned, parts_of-Planned}
use datalens.Engine.Follow.Chain.{Says, follow_blocks-Says}
use datalens.Engine.Follow.Shares.{total, IsShare, record_follow_calls-total}

abbrev heads : Heads
heads = record { latest = 23; latest_hash = 230; safe = 15; finalized = 12 }

abbrev row : FollowProgress
row = record {
  chain_id = 46;
  dataset = evm_blocks;
  selector_id = 7;
  from_block = 0;
  head_block = pos 20;
  head_hash = 200;
  promoted_to = pos 10;
  finalized_to = pos 5;
}

abbrev header : ℕ → ℕ → ℕ → Header
header number hash parent_hash = record { number = number; hash = hash; parent_hash = parent_hash }

abbrev span : BlockRange
span = record { start = 21; end = 23 }

abbrev linked : List Header
linked = header 21 210 200 ∷ header 22 220 210 ∷ header 23 230 220 ∷ []

planned_parts :
    parts_of heads 20 row
    ≡ some (
        record { start = 6; end = 12; finality = finalized }
        ∷ record { start = 13; end = 15; finality = safe }
        ∷ [])
unfolding parts_of
planned_parts = refl

stored_chain : follow_blocks heads row span linked ≡ stored 230
unfolding follow_blocks
stored_chain = refl

broken_chain :
    follow_blocks heads row span (header 21 210 200 ∷ header 22 220 999 ∷ []) ≡ reorg_detected 21
unfolding follow_blocks
broken_chain = refl

shared_calls : record_follow_calls (1 ∷ 2 ∷ 3 ∷ []) 5 ≡ (1, 2) ∷ (2, 2) ∷ (3, 1) ∷ []
unfolding record_follow_calls
shared_calls = refl

parts_of-Planned_example : Planned heads 20 row
parts_of-Planned_example =
    parts_of-Planned heads 20 row (record { starts = refl; finalized = refl; promoted = refl }) refl

follow_blocks-Says_example : Says heads row span linked (follow_blocks heads row span linked)
follow_blocks-Says_example = follow_blocks-Says heads row span linked

record_follow_calls-total_example :
    (total (record_follow_calls (1 ∷ 2 ∷ 3 ∷ []) 5) ≡ 5)
    × All (IsShare 5 3) (record_follow_calls (1 ∷ 2 ∷ 3 ∷ []) 5)
record_follow_calls-total_example = record_follow_calls-total 1 (2 ∷ 3 ∷ []) 5
