-- ===== src/Sdk/Cursor.antt =====
-- sdks/rust/src/cursor.rs: checkpoints over durable data, and the detection of reorgs in hot data. A
-- `BTreeMap` is a list of entries in the order of their keys. A row of a response is the height and
-- the hash that `row_block` reads out of its JSON.
pub mod Durable
pub mod Hashes
pub mod Ascending
pub mod Disagree
pub mod Fork
pub mod Settle
mod Tests
use datalens.Prelude.{
  ℕ, ◌+◌, min, max, Bool, true, false, not, ◌&&◌, ◌||◌, Option, none, some, List, [], ◌∷◌, ◌++◌,
  leb, ltb, ◌==◌, any, if◌then◌else◌,
}
use datalens.Core.Range.{BlockRange}
use datalens.Core.Finality.{Finality, at_least}
use datalens.Core.Wire.{B256, Segment, SegmentSource, durable, hot, Anchor}

pub record Block : Type 0 where
  pub number : ℕ
  pub hash : B256

-- The part of `QueryResponse` that the cursors read; `complete` says that `page.next_cursor` is null.
pub record QueryResponse : Type 0 where
  pub requested : BlockRange
  pub served : Option BlockRange
  pub segments : List Segment
  pub rows : List (Option Block)
  pub complete : Bool

abbrev pub is_hot : SegmentSource → Bool
is_hot durable = false
is_hot hot = true

-- A segment whose blocks will not change.
pub is_durable : Segment → Bool
is_durable s = not (is_hot s.source) && at_least s.finality Finality.safe

-- `FinalizedCursor::advance` on the cursor's `next`.
pub advance : ℕ → List Segment → ℕ
unfolding is_durable
advance next [] = next
advance next (s ∷ segments) =
    let rest = advance (max next (s.end + 1)) segments in
    if not (is_durable s) || ltb next s.start then next else rest

pub record Seen : Type 0 where
  pub hash : B256
  pub rows : Bool

pub record Entry : Type 0 where
  pub number : ℕ
  pub seen : Seen

pub map_get : List Entry → ℕ → Option Seen
map_get [] n = none
map_get (e ∷ es) n = if e.number == n then some e.seen else map_get es n

-- `BTreeMap::insert`
map_insert : ℕ → Seen → List Entry → List Entry
map_insert n s [] = record { number = n; seen = s } ∷ []
map_insert n s (e ∷ es) =
    if ltb n e.number
    then record { number = n; seen = s } ∷ e ∷ es
    else if n == e.number
    then record { number = n; seen = s } ∷ es
    else e ∷ map_insert n s es

-- `split_off`: what stays, and what is returned.
pub keep_below : ℕ → List Entry → List Entry
keep_below n [] = []
keep_below n (e ∷ es) = if ltb e.number n then e ∷ keep_below n es else keep_below n es

pub keep_from : ℕ → List Entry → List Entry
keep_from n [] = []
keep_from n (e ∷ es) = if leb n e.number then e ∷ keep_from n es else keep_from n es

pub record ProvisionalCursor : Type 0 where
  pub settled : ℕ
  pub next : ℕ
  pub seen : List Entry

pub data Observation : Type 0 where
  consistent : Observation
  rollback : ℕ → Observation

pub in_hot : List Segment → ℕ → Bool
in_hot segments number =
    any (λ s. is_hot s.source && (leb s.start number && leb number s.end)) segments

anchor_hashes : List Segment → List Entry → List Entry
unfolding map_insert
anchor_hashes [] hashes = hashes
anchor_hashes (s ∷ segments) hashes = elim s.anchor [
  | none ↦ anchor_hashes segments hashes
  | some anchor ↦
      if is_hot s.source
      then anchor_hashes segments
          (map_insert anchor.number (record { hash = anchor.hash; rows = false }) hashes)
      else anchor_hashes segments hashes
]

row_hashes : List Segment → List (Option Block) → List Entry → List Entry
unfolding map_insert in_hot
row_hashes segments [] hashes = hashes
row_hashes segments (none ∷ rows) hashes = row_hashes segments rows hashes
row_hashes segments (some b ∷ rows) hashes =
    if in_hot segments b.number
    then row_hashes segments rows
        (map_insert b.number (record { hash = b.hash; rows = true }) hashes)
    else row_hashes segments rows hashes

pub hot_hashes : QueryResponse → List Entry
unfolding anchor_hashes row_hashes
hot_hashes r = row_hashes r.segments r.rows (anchor_hashes r.segments [])

-- Whether a height was seen with a hash, by `agrees`.
abbrev pub seen_with : (B256 → Bool) → Option Seen → Bool
seen_with agrees none = false
seen_with agrees (some s) = agrees s.hash

-- The heights whose hash changed.
pub changed : List Entry → List Entry → List ℕ
unfolding map_get
changed seen [] = []
changed seen (e ∷ hashes) =
    if seen_with (λ h. not (h == e.seen.hash)) (map_get seen e.number)
    then e.number ∷ changed seen hashes
    else changed seen hashes

abbrev pub has_rows : Option Seen → Bool
has_rows none = false
has_rows (some s) = s.rows

-- The heights that had rows and have none, on a complete read.
pub vanished : QueryResponse → List Entry → List Entry → List ℕ
unfolding map_get in_hot
vanished r hashes [] = []
vanished r hashes (e ∷ seen) =
    if r.complete
      && (e.seen.rows && (in_hot r.segments e.number && not (has_rows (map_get hashes e.number))))
    then e.number ∷ vanished r hashes seen
    else vanished r hashes seen

pub minimum : List ℕ → Option ℕ
minimum [] = none
minimum (n ∷ ns) = elim (minimum ns) [ none ↦ some n | some m ↦ some (min n m) ]

-- `hashes.range(..mismatch).rev().find(…)`: the last entry that passes.
pub last_match : List Entry → ℕ → List Entry → Option ℕ
unfolding map_get
last_match seen mismatch [] = none
last_match seen mismatch (e ∷ hashes) = elim (last_match seen mismatch hashes) [
  | some n ↦ some n
  | none ↦
      if ltb e.number mismatch && seen_with (λ h. h == e.seen.hash) (map_get seen e.number)
      then some e.number
      else none
]

abbrev from_match : ℕ → Option ℕ → ℕ
from_match settled none = settled
from_match settled (some n) = max (n + 1) settled

pub fork_point : ProvisionalCursor → QueryResponse → List Entry → Option ℕ
unfolding changed vanished minimum last_match
fork_point c r hashes = elim (minimum (changed c.seen hashes ++ vanished r hashes c.seen)) [
  | none ↦ none
  | some mismatch ↦ some (from_match c.settled (last_match c.seen mismatch hashes))
]

-- `entry(number).or_insert(seen)`, and its `rows` joined.
merge_entry : ℕ → Seen → List Entry → List Entry
unfolding map_get map_insert
merge_entry n s seen = elim (map_get seen n) [
  | none ↦ map_insert n s seen
  | some old ↦ map_insert n (record { hash = old.hash; rows = old.rows || s.rows }) seen
]

merge_seen : List Entry → List Entry → List Entry
unfolding merge_entry
merge_seen [] seen = seen
merge_seen (e ∷ hashes) seen = merge_seen hashes (merge_entry e.number e.seen seen)

first_hot : List Segment → Option ℕ
first_hot [] = none
first_hot (s ∷ segments) = if is_hot s.source then some s.start else first_hot segments

-- The block from which the response's data may still change.
pub floor : QueryResponse → ℕ
unfolding advance first_hot
floor r =
    let settled = advance r.requested.start r.segments in
    if settled == r.requested.start
    then elim (first_hot r.segments) [ none ↦ settled | some start ↦ max settled start ]
    else settled

abbrev next_served : ℕ → Option BlockRange → ℕ
next_served next none = next
next_served next (some served) = max next (served.end + 1)

-- The end of `observe`, where no block changed.
settle : ProvisionalCursor → QueryResponse → ProvisionalCursor
unfolding floor keep_from
settle c r =
    if ltb c.settled (floor r) && leb r.requested.start c.settled
    then record c { settled = floor r; seen = keep_from (floor r) c.seen }
    else c

pub observe : ProvisionalCursor → QueryResponse → ProvisionalCursor × Observation
unfolding hot_hashes fork_point keep_below merge_seen settle
observe c r =
    let hashes = hot_hashes r in
    elim (fork_point c r hashes) [
      | some from ↦ (record c { next = from; seen = keep_below from c.seen }, rollback from)
      | none ↦ (
        settle (record c { next = next_served c.next r.served; seen = merge_seen hashes c.seen }) r,
        consistent,
      )
    ]
