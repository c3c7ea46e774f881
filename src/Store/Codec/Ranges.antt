-- ===== src/Store/Codec/Ranges.antt =====
-- The ranges of crates/store/src/codec.rs go to the database and back.
use datalens.Prelude.{ℕ, ◌+◌, ◌≡◌, ◌↔◌, Bool, true, false, leb, arith}
use datalens.Core.Range.{BlockRange, new, contains, IsValid}
use datalens.Store.Codec.{
  Result, ok, err, bad_data, pos, negsuc, Bound, included, excluded, unbounded, PgRange,
  block_range_to_pg, block_range_from_pg, checked_suc,
}

-- Every block range is read back as it was written.
pub from_pg-to_pg : (r : BlockRange) → IsValid r → block_range_from_pg (block_range_to_pg r) ≡ ok r
unfolding block_range_from_pg block_range_to_pg new
from_pg-to_pg r v = ground (arith, v.ordered, v.bounded)

-- Whether the database's range has block `b`.
abbrev pub above : Bound → ℕ → Bool
above (included (pos n)) b = leb n b
above (excluded (pos n)) b = leb (n + 1) b
above (included (negsuc n)) b = true
above (excluded (negsuc n)) b = true
above unbounded b = true

abbrev pub below : Bound → ℕ → Bool
below (included (pos n)) b = leb b n
below (excluded (pos n)) b = leb (b + 1) n
below (included (negsuc n)) b = false
below (excluded (negsuc n)) b = false
below unbounded b = true

abbrev pub Reads : PgRange → Result BlockRange → Type 0
Reads range (ok r) =
    IsValid r
    × ((b : ℕ)
        → (contains r b ≡ true) ↔ ((above range.start b ≡ true) × (below range.end b ≡ true)))
Reads range (err e) = e ≡ bad_data

-- What is read is a valid range of exactly the blocks that the database's range has, with whatever
-- bounds it is written, and the only error is `bad_data`.
pub block_range_from_pg-Reads : (range : PgRange) → Reads range (block_range_from_pg range)
unfolding block_range_from_pg new contains checked_suc
block_range_from_pg-Reads range = ground arith
