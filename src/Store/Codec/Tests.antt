-- ===== src/Store/Codec/Tests.antt =====
-- Columns at concrete inputs.
use datalens.Prelude.{◌≡◌, refl, none, some, [], ◌∷◌, leb, if◌then◌else◌, arith}
use datalens.Core.Range.{BlockRange}
use datalens.Core.Selector.{any_topic, one_of}
use datalens.Store.Codec.{
  ok, err, invalid, bad_data, pos, negsuc, included, excluded, PgRange, block_range_to_pg,
  block_range_from_pg, topic_columns, topics_from_columns, topics_from_db,
}
use datalens.Store.Codec.Ranges.{from_pg-to_pg, Reads, block_range_from_pg-Reads}
use datalens.Store.Codec.Topics.{read_back, topics_from_columns-topic_columns}

abbrev blocks : BlockRange
blocks = record { start = 5; end = 9 }

abbrev closed : PgRange
closed = record { start = excluded (pos 4); end = included (pos 9) }

hole :
    topics_from_columns (record { topic0 = some 1; topic1 = none; topic2 = some 3; topic3 = none })
    ≡ err bad_data
unfolding topics_from_columns
hole = refl

padded :
    topics_from_db (one_of (7 ∷ []) ∷ [])
    ≡ ok (one_of (7 ∷ []) ∷ any_topic ∷ any_topic ∷ any_topic ∷ [])
unfolding topics_from_db
padded = refl

negative_start :
    block_range_from_pg (record { start = included (negsuc 0); end = excluded (pos 3) })
    ≡ err bad_data
unfolding block_range_from_pg
negative_start = refl

from_pg-to_pg_example : block_range_from_pg (block_range_to_pg blocks) ≡ ok blocks
from_pg-to_pg_example =
    from_pg-to_pg blocks (record { ordered = ground arith; bounded = ground arith })

block_range_from_pg-Reads_example : Reads closed (block_range_from_pg closed)
block_range_from_pg-Reads_example = block_range_from_pg-Reads closed

topics_from_columns-topic_columns_example :
    read_back (topic_columns (1 ∷ 2 ∷ [])) ≡ (if leb 2 4 then ok (1 ∷ 2 ∷ []) else err invalid)
topics_from_columns-topic_columns_example = topics_from_columns-topic_columns (1 ∷ 2 ∷ [])
