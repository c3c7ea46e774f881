-- ===== src/Core/Selector/Split.antt =====
-- `split_by_address` of crates/core/src/selector.rs.
use datalens.Prelude.{◌≡◌, refl, Bool, ◌&&◌, List, [], ◌∷◌, map, any, arith, ◌==◌, ℕ}
use datalens.Core.Wire.{LogRow}
use datalens.Core.Selector.{LogSelector, matches, split_by_address, filter_matches, topic_at}

-- The log's topics pass the selector's four filters.
abbrev topics_match : LogSelector → LogRow → Bool
topics_match s log =
    filter_matches s.topic0 (topic_at log.topics 0)
    && (filter_matches s.topic1 (topic_at log.topics 1)
        && (filter_matches s.topic2 (topic_at log.topics 2)
            && filter_matches s.topic3 (topic_at log.topics 3)))

any-parts :
    (s : LogSelector) (log : LogRow) (addresses : List ℕ)
    → any (λ part. matches part log) (map (λ a. record s { addresses = a ∷ [] }) addresses)
      ≡ (any (λ a. a == log.address) addresses && topics_match s log)
unfolding matches
any-parts s log [] = refl
any-parts s log (a ∷ addresses) = ground (arith, any-parts s log addresses)

-- The parts of a selector, one for each of its addresses, together match the logs that it matches.
pub matches-split_by_address :
    (s : LogSelector) (log : LogRow)
    → any (λ part. matches part log) (split_by_address s) ≡ matches s log
unfolding split_by_address matches
matches-split_by_address s log = ground (arith, any-parts s log s.addresses)
