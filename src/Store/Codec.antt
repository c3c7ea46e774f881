-- ===== src/Store/Codec.antt =====
-- crates/store/src/codec.rs: what a column holds, and the store's errors. An `i64` is an integer here,
-- of 64 bits where a conversion makes one. The lengths of byte columns and the texts of errors are
-- left out; topics come with their JSON already read as a list.
pub mod Ranges
pub mod Topics
mod Tests
use datalens.Prelude.{
  ℕ, zero, suc, ◌+◌, ◌-◌, Bool, true, false, ◌||◌, Option, none, some, List, [], ◌∷◌, length, leb,
  ltb, ◌==◌, if◌then◌else◌, i64_max, u32_max,
}
use datalens.Core.Range.{BlockRange, new}
use datalens.Core.Selector.{TopicFilter, any_topic}
use datalens.Core.Wire.{B256}
use datalens.Core.Finality.{Finality, from_i16}

pub data StoreError : Type 0 where
  not_found invalid bad_data : StoreError
  reorg : ℕ → StoreError

pub data Result {ℓ} (A : Type ℓ) : Type ℓ where
  ok : A → Result A
  err : StoreError → Result A

-- `negsuc n` is -(n + 1).
pub data ℤ : Type 0 where
  pos negsuc : ℕ → ℤ

abbrev pub lebℤ : ℤ → ℤ → Bool
lebℤ (pos m) (pos n) = leb m n
lebℤ (pos m) (negsuc n) = false
lebℤ (negsuc m) (pos n) = true
lebℤ (negsuc m) (negsuc n) = leb n m

abbrev pub minℤ : ℤ → ℤ → ℤ
minℤ a b = if lebℤ a b then a else b

abbrev pub maxℤ : ℤ → ℤ → ℤ
maxℤ a b = if lebℤ a b then b else a

-- One less than a number.
abbrev pub predℤ : ℕ → ℤ
predℤ zero = negsuc zero
predℤ (suc n) = pos n

unfoldable pub u64_to_i64 : ℕ → Result ℤ
u64_to_i64 n = if leb n i64_max then ok (pos n) else err invalid

unfoldable pub i64_to_u64 : ℤ → Result ℕ
i64_to_u64 (pos n) = ok n
i64_to_u64 (negsuc n) = err bad_data

-- A duration by its milliseconds.
unfoldable pub duration_millis : ℕ → Result ℤ
duration_millis ms = if leb ms i64_max then ok (pos ms) else err invalid

pub finality_from_db : ℕ → Result Finality
finality_from_db value = elim (from_i16 value) [ none ↦ err bad_data | some f ↦ ok f ]

pub data Bound : Type 0 where
  included excluded : ℤ → Bound
  unbounded : Bound

pub record PgRange : Type 0 where
  pub start : Bound
  pub end : Bound

pub block_range_to_pg : BlockRange → PgRange
block_range_to_pg range = record {
  start = included (pos range.start);
  end = excluded (pos (range.end + 1));
}

-- `checked_add(1)` on an `i64`.
checked_suc : ℤ → Option ℤ
checked_suc (pos n) = if leb i64_max n then none else some (pos (n + 1))
checked_suc (negsuc zero) = some (pos 0)
checked_suc (negsuc (suc n)) = some (negsuc n)

abbrev range_start : Bound → Option ℤ
range_start (included start) = some start
range_start (excluded start) = checked_suc start
range_start unbounded = none

abbrev range_end : Bound → Option ℤ
range_end (excluded end) = some end
range_end (included end) = checked_suc end
range_end unbounded = none

pub block_range_from_pg : PgRange → Result BlockRange
unfolding checked_suc
block_range_from_pg range = elim (range_start range.start) [
  | none ↦ err bad_data
  | some (negsuc n) ↦ err bad_data
  | some (pos start) ↦ elim (range_end range.end) [
    | none ↦ err bad_data
    | some (negsuc n) ↦ err bad_data
    | some (pos end_exclusive) ↦
        if leb end_exclusive start
        then err bad_data
        else elim (new start (end_exclusive - 1)) [ none ↦ err bad_data | some r ↦ ok r ]
  ]
]

-- The four columns `topic0` to `topic3`.
pub record Columns : Type 0 where
  pub topic0 : Option B256
  pub topic1 : Option B256
  pub topic2 : Option B256
  pub topic3 : Option B256

-- The loop over the columns, with the topics so far.
topics_from : Bool → List (Option B256) → Result (List B256)
topics_from ended [] = ok []
topics_from false (some topic ∷ columns) = elim (topics_from false columns) [
  | ok topics ↦ ok (topic ∷ topics)
  | err e ↦ err e
]
topics_from true (some topic ∷ columns) = err bad_data
topics_from ended (none ∷ columns) = topics_from true columns

pub topics_from_columns : Columns → Result (List B256)
unfolding topics_from
topics_from_columns c = topics_from false (c.topic0 ∷ c.topic1 ∷ c.topic2 ∷ c.topic3 ∷ [])

topic_at : ℕ → List B256 → Option B256
topic_at i [] = none
topic_at zero (t ∷ topics) = some t
topic_at (suc i) (t ∷ topics) = topic_at i topics

pub topic_columns : List B256 → Result Columns
unfolding topic_at
topic_columns topics =
    if ltb 4 (length topics)
    then err invalid
    else ok (record {
      topic0 = topic_at 0 topics;
      topic1 = topic_at 1 topics;
      topic2 = topic_at 2 topics;
      topic3 = topic_at 3 topics;
    })

pad_topics : ℕ → List TopicFilter → List TopicFilter
pad_topics zero filters = []
pad_topics (suc n) [] = any_topic ∷ pad_topics n []
pad_topics (suc n) (f ∷ filters) = f ∷ pad_topics n filters

-- `topics_from_db` once the JSON is a list of filters: the four positions.
pub topics_from_db : List TopicFilter → Result (List TopicFilter)
unfolding pad_topics
topics_from_db [] = ok (pad_topics 4 [])
topics_from_db (f ∷ filters) =
    if ltb 4 (length (f ∷ filters)) then err bad_data else ok (pad_topics 4 (f ∷ filters))
