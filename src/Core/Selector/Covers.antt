-- ===== src/Core/Selector/Covers.antt =====
-- `covers` and `matches` of crates/core/src/selector.rs.
use datalens.Prelude.{
  ◌≡◌, refl, true, Option, none, some, arith, subset-contains, subset_refl, set_eq→eq,
}
use datalens.Core.Wire.{B256, LogRow}
use datalens.Core.Selector.{
  TopicFilter, any_topic, one_of, LogSelector, filter_covers, filter_matches, filter_eq, covers,
  matches, topic_at,
}

pub filter_covers-matches :
    (wide narrow : TopicFilter) (topic : Option B256)
    → filter_covers wide narrow ≡ true
    → filter_matches narrow topic ≡ true
    → filter_matches wide topic ≡ true
unfolding filter_covers filter_matches
filter_covers-matches any_topic narrow topic c m = refl
filter_covers-matches (one_of w) any_topic topic c m = cc
filter_covers-matches (one_of w) (one_of n) none c m = cc
filter_covers-matches (one_of w) (one_of n) (some t) c m = subset-contains n w t c m

-- A selector that covers another matches every log that the other one matches, so coverage recorded
-- for it proves the other one's rows complete.
pub covers-matches :
    (wide narrow : LogSelector) (log : LogRow)
    → covers wide narrow ≡ true
    → matches narrow log ≡ true
    → matches wide log ≡ true
unfolding covers matches
covers-matches wide narrow log c m = ground (
  arith,
  subset-contains narrow.addresses wide.addresses log.address,
  filter_covers-matches wide.topic0 narrow.topic0 (topic_at log.topics 0),
  filter_covers-matches wide.topic1 narrow.topic1 (topic_at log.topics 1),
  filter_covers-matches wide.topic2 narrow.topic2 (topic_at log.topics 2),
  filter_covers-matches wide.topic3 narrow.topic3 (topic_at log.topics 3),
)

pub filter_covers_refl : (f : TopicFilter) → filter_covers f f ≡ true
unfolding filter_covers
filter_covers_refl any_topic = refl
filter_covers_refl (one_of s) = subset_refl s

pub filter_eq→eq : (f g : TopicFilter) → filter_eq f g ≡ true → f ≡ g
unfolding filter_eq
filter_eq→eq any_topic any_topic h = refl
filter_eq→eq any_topic (one_of t) h = cc
filter_eq→eq (one_of s) any_topic h = cc
filter_eq→eq (one_of s) (one_of t) h = cc (set_eq→eq s t h)

pub covers_refl : (s : LogSelector) → covers s s ≡ true
unfolding covers
covers_refl s = ground (
  arith,
  subset_refl s.addresses,
  filter_covers_refl s.topic0,
  filter_covers_refl s.topic1,
  filter_covers_refl s.topic2,
  filter_covers_refl s.topic3,
)
