-- ===== src/Core/Selector/Tests.antt =====
-- Runs of the selectors of crates/core/src/selector.rs at concrete inputs.
use datalens.Prelude.{set_collect, set_insert, ◌≡◌, refl, ℕ, true, some, List, [], ◌∷◌, any, All}
use datalens.Core.Finality.{Finality}
use datalens.Core.Wire.{LogRow}
use datalens.Core.Selector.{
  LogSelector, TopicFilter, any_topic, one_of, batch, covers, matches, split_by_address, to_raw,
  from_raw, batch_addresses, all_addresses, batch_topic0, topic0_sets, topic0_cons, shared_filter,
  filter_eq, filter_matches, filter_covers,
}
use datalens.Core.Selector.Covers.{covers-matches}
use datalens.Core.Selector.Batch.{batch-matches}
use datalens.Core.Selector.Split.{matches-split_by_address}
use datalens.Core.Selector.Raw.{from_raw-to_raw}

-- A selector of some addresses and first topics.
abbrev of : List ℕ → TopicFilter → LogSelector
of addresses topic0 = record {
  addresses = addresses;
  topic0 = topic0;
  topic1 = any_topic;
  topic2 = any_topic;
  topic3 = any_topic;
}

abbrev first : LogSelector
first = of (7 ∷ []) (one_of (1 ∷ []))

abbrev second : LogSelector
second = of (9 ∷ []) (one_of (2 ∷ []))

abbrev both : LogSelector
both = of (7 ∷ 9 ∷ []) (one_of (1 ∷ 2 ∷ []))

abbrev row : LogRow
row = record {
  block_number = 20;
  log_index = 0;
  block_hash = 5;
  transaction_index = 0;
  transaction_hash = 6;
  address = 9;
  topics = 2 ∷ [];
  payload = [];
  finality = Finality.safe;
}

batch-both : batch (first ∷ second ∷ []) 2 ≡ some both
unfolding batch batch_addresses all_addresses set_collect set_insert batch_topic0 topic0_sets
    topic0_cons shared_filter filter_eq
batch-both = refl

covers_both : covers both second ≡ true
unfolding covers filter_covers
covers_both = refl

batch-matches_example :
    All (λ m. covers both m ≡ true) (first ∷ second ∷ [])
    × (any (λ m. matches m row) (first ∷ second ∷ []) ≡ true → matches both row ≡ true)
batch-matches_example = batch-matches (first ∷ second ∷ []) 2 both row batch-both

second-row : matches second row ≡ true
unfolding matches filter_matches
second-row = refl

covers-matches_example : matches both row ≡ true
covers-matches_example = covers-matches both second row covers_both second-row

matches-split_by_address_example :
    any (λ part. matches part row) (split_by_address both) ≡ matches both row
matches-split_by_address_example = matches-split_by_address both row

from_raw-to_raw_example : from_raw (to_raw both) ≡ some both
from_raw-to_raw_example = from_raw-to_raw both
