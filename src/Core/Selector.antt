-- ===== src/Core/Selector.antt =====
-- crates/core/src/selector.rs. A set of addresses or topics is a list in ascending order. The
-- textual keys and their SHA-256 fingerprints are not modelled.
pub mod Covers
pub mod Batch
pub mod Split
pub mod Raw
mod Tests
use datalens.Prelude.{
  ℕ, zero, suc, Bool, true, false, ◌&&◌, ◌||◌, not, Option, none, some, List, [], ◌∷◌, ◌++◌, map,
  length, all, any, ltb, leb, if◌then◌else◌, set_collect, set_contains, set_is_subset, set_eq,
}
use datalens.Core.Wire.{B256, Address, LogRow}

-- `one_of` holds a `TopicSet`, which `TopicSet::new` makes non-empty.
pub data TopicFilter : Type 0 where
  any_topic : TopicFilter
  one_of : List B256 → TopicFilter

-- The array `topics` of four positions.
pub record LogSelector : Type 0 where
  pub addresses : List Address
  pub topic0 : TopicFilter
  pub topic1 : TopicFilter
  pub topic2 : TopicFilter
  pub topic3 : TopicFilter

abbrev pub is_empty {ℓ} : {A : Type ℓ} → List A → Bool
is_empty [] = true
is_empty (x ∷ xs) = false

-- `TopicFilter::covers`
unfoldable pub filter_covers : TopicFilter → TopicFilter → Bool
filter_covers any_topic other = true
filter_covers (one_of wide) any_topic = false
filter_covers (one_of wide) (one_of narrow) = set_is_subset narrow wide

-- `TopicFilter::matches`
unfoldable pub filter_matches : TopicFilter → Option B256 → Bool
filter_matches any_topic topic = true
filter_matches (one_of set) none = false
filter_matches (one_of set) (some topic) = set_contains set topic

-- The derived `==` of two filters.
unfoldable pub filter_eq : TopicFilter → TopicFilter → Bool
filter_eq any_topic any_topic = true
filter_eq any_topic (one_of t) = false
filter_eq (one_of s) any_topic = false
filter_eq (one_of s) (one_of t) = set_eq s t

-- `topics.get(position)`
abbrev pub topic_at : List B256 → ℕ → Option B256
topic_at [] i = none
topic_at (t ∷ ts) zero = some t
topic_at (t ∷ ts) (suc i) = topic_at ts i

unfoldable pub covers : LogSelector → LogSelector → Bool
covers s other =
    (is_empty s.addresses
      || (not (is_empty other.addresses) && set_is_subset other.addresses s.addresses))
    && (filter_covers s.topic0 other.topic0
        && (filter_covers s.topic1 other.topic1
            && (filter_covers s.topic2 other.topic2 && filter_covers s.topic3 other.topic3)))

unfoldable pub matches : LogSelector → LogRow → Bool
matches s log =
    (is_empty s.addresses || set_contains s.addresses log.address)
    && (filter_matches s.topic0 (topic_at log.topics 0)
        && (filter_matches s.topic1 (topic_at log.topics 1)
            && (filter_matches s.topic2 (topic_at log.topics 2)
                && filter_matches s.topic3 (topic_at log.topics 3))))

unfoldable pub split_by_address : LogSelector → List LogSelector
split_by_address s =
    if is_empty s.addresses
    then s ∷ []
    else map (λ address. record s { addresses = address ∷ [] }) s.addresses

all_addresses : List LogSelector → List Address
all_addresses [] = []
all_addresses (m ∷ members) = m.addresses ++ all_addresses members

-- The addresses of a batch, by the three branches of `batch`; `none` is its `return None`.
batch_addresses : List LogSelector → ℕ → Option (List Address)
unfolding all_addresses
batch_addresses members max_addresses =
    if all (λ m. is_empty m.addresses) members
    then some []
    else if any (λ m. is_empty m.addresses) members
    then none
    else (let union = set_collect (all_addresses members) in
        if ltb max_addresses (length union) then none else some union)

-- `collect::<Option<Vec<_>>>()` over the topic0 sets, flattened.
topic0_cons : TopicFilter → Option (List B256) → Option (List B256)
topic0_cons any_topic sets = none
topic0_cons (one_of set) none = none
topic0_cons (one_of set) (some sets) = some (set ++ sets)

topic0_sets : List LogSelector → Option (List B256)
unfolding topic0_cons
topic0_sets [] = some []
topic0_sets (m ∷ members) = topic0_cons m.topic0 (topic0_sets members)

batch_topic0 : List LogSelector → TopicFilter
unfolding topic0_sets
batch_topic0 members = elim (topic0_sets members) [
  | none ↦ any_topic
  | some topics ↦ one_of (set_collect topics)
]

-- Positions 1 to 3: the first member's filter, if all the rest agree with it.
shared_filter : TopicFilter → List TopicFilter → TopicFilter
shared_filter shared rest =
    if all (λ filter. filter_eq filter shared) rest then shared else any_topic

-- The selector that `batch` returns for two or more members, over their addresses.
abbrev merged : LogSelector → List LogSelector → List Address → LogSelector
merged first rest addresses = record {
  addresses = addresses;
  topic0 = batch_topic0 (first ∷ rest);
  topic1 = shared_filter first.topic1 (map (λ s. s.topic1) rest);
  topic2 = shared_filter first.topic2 (map (λ s. s.topic2) rest);
  topic3 = shared_filter first.topic3 (map (λ s. s.topic3) rest);
}

unfoldable pub batch : List LogSelector → ℕ → Option LogSelector
unfolding batch_addresses batch_topic0 shared_filter
batch [] max_addresses = none
batch (first ∷ []) max_addresses = some first
batch (first ∷ m ∷ rest) max_addresses = elim (batch_addresses (first ∷ m ∷ rest) max_addresses) [
  | none ↦ none
  | some addresses ↦ some (merged first (m ∷ rest) addresses)
]

-- `RawLogSelector`, the form on the wire.
pub record RawLogSelector : Type 0 where
  pub addresses : List Address
  pub topics : List TopicFilter

-- `while topics.last() == Some(&TopicFilter::Any) { topics.pop(); }`
trim_any : List TopicFilter → List TopicFilter
trim_any [] = []
trim_any (filter ∷ topics) = elim (trim_any topics) [
  | [] ↦ if filter_eq filter any_topic then [] else filter ∷ []
  | t ∷ ts ↦ filter ∷ t ∷ ts
]

-- `From<LogSelector> for RawLogSelector`
pub to_raw : LogSelector → RawLogSelector
unfolding trim_any
to_raw s = record {
  addresses = s.addresses;
  topics = trim_any (s.topic0 ∷ s.topic1 ∷ s.topic2 ∷ s.topic3 ∷ []);
}

abbrev filter_at : List TopicFilter → ℕ → TopicFilter
filter_at [] i = any_topic
filter_at (t ∷ ts) zero = t
filter_at (t ∷ ts) (suc i) = filter_at ts i

-- `TryFrom<RawLogSelector> for LogSelector`; `none` is `invalid_input`.
pub from_raw : RawLogSelector → Option LogSelector
from_raw raw =
    if ltb 4 (length raw.topics)
    then none
    else some (record {
      addresses = raw.addresses;
      topic0 = filter_at raw.topics 0;
      topic1 = filter_at raw.topics 1;
      topic2 = filter_at raw.topics 2;
      topic3 = filter_at raw.topics 3;
    })
