-- ===== src/Engine/Query/Refuse.antt =====
-- How `query` of crates/engine/src/query.rs ends.
use datalens.Prelude.{
  ℕ, ◌≤◌, ◌<◌, ◌≡◌, ◌⊎◌, inl, inr, refl, true, false, ◌&&◌, Option, none, arith, ltb, Bool-cases,
}
use datalens.Core.Range.{BlockRange, IsValid}
use datalens.Core.Finality.{QueryFinality}
use datalens.Core.Wire.{Heads}
use datalens.Engine.Query.{
  Progress, FollowProgress, Reply, Answered, err, above_safe, subscription_quota, is_durable_only,
  read_heads, over_quota, query, query_at,
}
use datalens.Engine.Query.Parts.{Answers}
use datalens.Engine.Query.Answer.{Fills, answer-Answers}

module _ (fill : BlockRange → Progress) (row : FollowProgress) (fills : Fills fill)
    (finality : QueryFinality) (range : BlockRange) (v : IsValid range) (follow_attach_blocks : ℕ)
    (attached : Option FollowProgress) where
  -- How a query by some heads may end.
  abbrev pub QueryEnds : Heads → Reply Answered → Type 0
  QueryEnds heads reply =
      ((reply ≡ err above_safe) × (is_durable_only finality ≡ true) × (heads.safe < range.end))
      ⊎ ((reply ≡ err subscription_quota) × (attached ≡ none) × (is_durable_only finality ≡ false))
      ⊎ Answers finality range heads reply

  query_at-QueryEnds :
      (heads : Heads)
      → heads.finalized ≤ heads.safe
      → QueryEnds heads (query_at fill row finality range heads follow_attach_blocks attached)
  query_at-QueryEnds heads order =
      elim (Bool-cases (is_durable_only finality && ltb heads.safe range.end)) [
        | inl above ↦ inl (rw above refl, ground (arith, above), ground (arith, above))
        | inr below ↦
            elim (Bool-cases (over_quota finality range heads follow_attach_blocks attached)) [
              | inl over ↦
                  inr (inl (rw (below, over) refl, ground (arith, over), ground (arith, over)))
              | inr under ↦ inr (
                  inr (
                    rw (below, under)
                      (answer-Answers fill row finality range heads fills v order
                        (λ only. ground (arith, only, below)))))
            ]
      ]

-- A query of a valid range ends in one of three ways, where `fill_durable` serves prefixes of what it
-- is given and the finalized heads are at or below the safe ones: refused because it is
-- `durable_only` and, also by the heads read again, ends above the safe head; refused for the quota
-- because it is not `durable_only` and was not attached; or answered. What an answer serves are the
-- blocks of the query's scope before `next_start`, which is the first block of the scope that is not
-- served; each served block stands in a segment of its own finality; and a reason is given exactly
-- where blocks are left, or where the range starts below what `latest_only` reads.
pub query-QueryEnds :
    (fill : BlockRange → Progress) (row : FollowProgress) (finality : QueryFinality)
    (range : BlockRange) (known fresh : Heads) (follow_attach_blocks : ℕ)
    (attached : Option FollowProgress) (fills : Fills fill) (v : IsValid range)
    → known.finalized ≤ known.safe
    → fresh.finalized ≤ fresh.safe
    → QueryEnds fill row fills finality range v follow_attach_blocks attached
        (read_heads finality range known fresh)
        (query fill row finality range known fresh follow_attach_blocks attached)
unfolding query
query-QueryEnds fill row finality range known fresh follow_attach_blocks attached fills v k f =
    query_at-QueryEnds fill row fills finality range v follow_attach_blocks attached
      (read_heads finality range known fresh) (ground (arith, k, f))
