-- ===== src/Engine/Query.antt =====
-- crates/engine/src/query.rs: how one query is answered out of the durable part below the safe head
-- and the hot part above it. `fill` is what `fill_durable` makes of the durable part, `row` the
-- follow row that the store returns, and `attached` what `attach` returns. Rows, usage and the text
-- of `incomplete_detail` are left out.
pub mod Tail
pub mod Parts
pub mod Answer
pub mod Refuse
mod Tests
use datalens.Prelude.{
  ℕ, ◌+◌, ◌-◌, ◌≤◌, min, max, Bool, true, false, not, ◌&&◌, ◌||◌, Option, none, some, List, [], ◌∷◌,
  ◌++◌, leb, ltb, ◌==◌, if◌then◌else◌, saturating_add,
}
use datalens.Core.Range.{BlockRange, new}
use datalens.Core.Finality.{Finality, QueryFinality, durable_only, safe_to_latest, latest_only}
use datalens.Core.Wire.{
  B256, Heads, Segment, hot, IncompleteReason, not_followed_yet, pending, below_safe,
}
use datalens.Engine.Plan.{durable_part, durable_segments}

-- How far one part of a query got, and why it stopped short.
pub record Progress : Type 0 where
  pub served : Option BlockRange
  pub blocker : Option IncompleteReason

pub record Hot : Type 0 where
  pub progress : Progress
  pub segment : Option Segment

-- The part of `FollowProgress` that is read; a negative `head_block` is `none`.
pub record FollowProgress : Type 0 where
  pub head_block : Option ℕ
  pub head_hash : B256
  pub from_block : ℕ

pub data QueryError : Type 0 where
  above_safe subscription_quota invalid_range : QueryError

pub data Reply {ℓ} (A : Type ℓ) : Type ℓ where
  ok : A → Reply A
  err : QueryError → Reply A

-- The fields of `QueryResponse` that say what was served.
pub record Answered : Type 0 where
  pub served : Option BlockRange
  pub next_start : Option ℕ
  pub incomplete_reason : Option IncompleteReason
  pub segments : List Segment

abbrev pub is_durable_only : QueryFinality → Bool
is_durable_only durable_only = true
is_durable_only safe_to_latest = false
is_durable_only latest_only = false

abbrev pub is_latest_only : QueryFinality → Bool
is_latest_only durable_only = false
is_latest_only safe_to_latest = false
is_latest_only latest_only = true

unfoldable pub reaches : Progress → ℕ → Bool
reaches p end = elim p.served [ none ↦ false | some served ↦ served.end == end ]

pub follows : QueryFinality → BlockRange → Heads → ℕ → Bool
follows safe_to_latest range heads follow_attach_blocks = true
follows latest_only range heads follow_attach_blocks = true
follows durable_only range heads follow_attach_blocks =
    leb heads.safe (saturating_add range.end follow_attach_blocks)

abbrev pub not_served : Hot
not_served = record {
  progress = record { served = none; blocker = some not_followed_yet };
  segment = none;
}

-- `hot`, once the head is known to reach `wanted`.
hot_to : BlockRange → ℕ → B256 → Option Hot
hot_to wanted head hash = elim (new wanted.start (min wanted.end head)) [
  | none ↦ none
  | some served ↦ some (record {
    progress = record {
      served = some served;
      blocker = if ltb served.end wanted.end then some pending else none;
    };
    segment = some (record {
      start = served.start;
      end = served.end;
      source = hot;
      finality = Finality.unsafe;
      anchor = some (record { number = head; hash = hash });
    });
  })
]

-- `QueryEngine::hot`; `none` is the error of `BlockRange::new`.
pub hot_part : FollowProgress → BlockRange → Option Hot
unfolding hot_to
hot_part row wanted = elim row.head_block [
  | none ↦ some not_served
  | some head ↦
      if leb wanted.start head && leb row.from_block wanted.start
      then hot_to wanted head row.head_hash
      else some not_served
]

-- The range above the safe head that the query reads: `ok none` where it reads none.
pub hot_range : QueryFinality → BlockRange → Heads → Reply (Option BlockRange)
hot_range finality range heads =
    if not (is_durable_only finality) && ltb heads.safe range.end
    then elim (new (max range.start (heads.safe + 1)) range.end) [
      | none ↦ err invalid_range
      | some wanted ↦ ok (some wanted)
    ]
    else ok none

pub durable_range : QueryFinality → BlockRange → Heads → Option BlockRange
durable_range latest_only range heads = none
durable_range durable_only range heads = durable_part range heads.safe
durable_range safe_to_latest range heads = durable_part range heads.safe

-- The match on what both parts served; the error is that of `BlockRange::new`.
pub join : Option Progress → Option Hot → Reply Progress
join none none = ok (record { served = none; blocker = none })
join (some low) none = ok low
join none (some high) = ok high.progress
join (some low) (some high) = elim low.served [
  | none ↦ ok (record { served = none; blocker = high.progress.blocker })
  | some l ↦ elim high.progress.served [
    | none ↦ ok (record { served = some l; blocker = high.progress.blocker })
    | some h ↦ elim (new l.start h.end) [
      | none ↦ err invalid_range
      | some served ↦ ok (record { served = some served; blocker = high.progress.blocker })
    ]
  ]
]

pub scope_start : QueryFinality → BlockRange → Option BlockRange → ℕ
scope_start finality range none = range.start
scope_start finality range (some wanted) =
    if is_latest_only finality then wanted.start else range.start

abbrev pub is_some {ℓ} : {A : Type ℓ} → Option A → Bool
is_some none = false
is_some (some x) = true

pub next_start : QueryFinality → BlockRange → Option BlockRange → Option BlockRange → Option ℕ
unfolding scope_start
next_start finality range wanted none =
    if not (is_latest_only finality) || is_some wanted
    then some (scope_start finality range wanted)
    else none
next_start finality range wanted (some served) =
    if ltb served.end range.end then some (served.end + 1) else none

pub incomplete_reason : Option ℕ → Option IncompleteReason → Bool → Option IncompleteReason
incomplete_reason none blocker true = some below_safe
incomplete_reason none blocker false = none
incomplete_reason (some next) (some reason) below = some reason
incomplete_reason (some next) none below = some not_followed_yet

abbrev segments_of : Option Progress → Heads → List Segment
segments_of none heads = []
segments_of (some low) heads = elim low.served [
  | none ↦ []
  | some served ↦ durable_segments served heads
]

abbrev hot_segments : Option Hot → List Segment
hot_segments none = []
hot_segments (some high) = elim high.segment [ none ↦ [] | some segment ↦ segment ∷ [] ]

-- The end of `query`, once both parts are read.
pub respond :
    QueryFinality
    → BlockRange
    → Heads
    → Option BlockRange
    → Option Progress
    → Option Hot
    → Bool
    → Reply Answered
unfolding join next_start incomplete_reason
respond finality range heads wanted low high durable_done = elim (join low high) [
  | err error ↦ err error
  | ok progress ↦
      let next = next_start finality range wanted progress.served in
      ok (record {
        served = progress.served;
        next_start = next;
        incomplete_reason =
            incomplete_reason next progress.blocker
              (is_latest_only finality && leb range.start heads.safe);
        segments = segments_of low heads ++ (if durable_done then hot_segments high else []);
      })
]

abbrev pub durable_done : Option BlockRange → Option Progress → Bool
durable_done none low = true
durable_done (some durable) none = true
durable_done (some durable) (some progress) = reaches progress durable.end

-- The heads that the query goes by: `fresh` are those read again where the ones at hand are too
-- low.
abbrev pub read_heads : QueryFinality → BlockRange → Heads → Heads → Heads
read_heads finality range known fresh =
    if is_durable_only finality && ltb known.safe range.end then fresh else known

abbrev pub over_quota : QueryFinality → BlockRange → Heads → ℕ → Option FollowProgress → Bool
over_quota finality range heads follow_attach_blocks attached =
    follows finality range heads follow_attach_blocks
    && (not (is_some attached) && not (is_durable_only finality))

module _ (fill : BlockRange → Progress) (row : FollowProgress) where
  abbrev pub low_part : Option BlockRange → Option Progress
  low_part none = none
  low_part (some durable) = some (fill durable)

  -- The hot part is read only where the durable part is complete.
  pub high_part : Option BlockRange → Bool → Reply (Option Hot)
  high_part none done = ok none
  high_part (some wanted) false = ok none
  high_part (some wanted) true = elim (hot_part row wanted) [
    | none ↦ err invalid_range
    | some h ↦ ok (some h)
  ]

  abbrev pub answer_parts :
      QueryFinality
      → BlockRange
      → Heads
      → Option BlockRange
      → Option BlockRange
      → Bool
      → Reply Answered
  answer_parts finality range heads durable wanted done = elim (high_part wanted done) [
    | err error ↦ err error
    | ok high ↦ respond finality range heads wanted (low_part durable) high done
  ]

  abbrev pub answer_from :
      QueryFinality
      → BlockRange
      → Heads
      → Option BlockRange
      → Reply (Option BlockRange)
      → Reply Answered
  answer_from finality range heads durable (err error) = err error
  answer_from finality range heads durable (ok wanted) =
      answer_parts finality range heads durable wanted (durable_done durable (low_part durable))

  -- `query` from the durable part on.
  pub answer : QueryFinality → BlockRange → Heads → Reply Answered
  answer finality range heads =
      answer_from finality range heads (durable_range finality range heads)
        (hot_range finality range heads)

  abbrev query_at : QueryFinality → BlockRange → Heads → ℕ → Option FollowProgress → Reply Answered
  query_at finality range heads follow_attach_blocks attached =
      if is_durable_only finality && ltb heads.safe range.end
      then err above_safe
      else if over_quota finality range heads follow_attach_blocks attached
      then err subscription_quota
      else answer finality range heads

  pub query :
      QueryFinality → BlockRange → Heads → Heads → ℕ → Option FollowProgress → Reply Answered
  query finality range known fresh follow_attach_blocks attached =
      query_at finality range (read_heads finality range known fresh) follow_attach_blocks attached
