-- ===== src/Store/Codec/Topics.antt =====
-- The topics of crates/store/src/codec.rs go to the four columns and back.
use datalens.Prelude.{◌≡◌, List, [], ◌∷◌, length, leb, if◌then◌else◌, arith}
use datalens.Core.Wire.{B256}
use datalens.Store.Codec.{
  Result, ok, err, invalid, Columns, topics_from_columns, topic_columns, topics_from, topic_at,
}

abbrev pub read_back : Result Columns → Result (List B256)
read_back (ok columns) = topics_from_columns columns
read_back (err e) = err e

-- Up to four topics are read back as they were written, and more are refused.
pub topics_from_columns-topic_columns :
    (topics : List B256)
    → read_back (topic_columns topics) ≡ (if leb (length topics) 4 then ok topics else err invalid)
unfolding topics_from_columns topic_columns topics_from topic_at
topics_from_columns-topic_columns [] = ground arith
topics_from_columns-topic_columns (a ∷ []) = ground arith
topics_from_columns-topic_columns (a ∷ b ∷ []) = ground arith
topics_from_columns-topic_columns (a ∷ b ∷ c ∷ []) = ground arith
topics_from_columns-topic_columns (a ∷ b ∷ c ∷ d ∷ []) = ground arith
topics_from_columns-topic_columns (a ∷ b ∷ c ∷ d ∷ e ∷ topics) = ground arith
