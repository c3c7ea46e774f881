-- ===== src/Engine/Follow.antt =====
-- crates/engine/src/follow.rs: which blocks a tick fetches, which part of a row it promotes, how the
-- fetched headers are checked, and how its calls are shared out. Heights are those of
-- crates/store/src/follow.rs. The provider, the store's rows and the transactions are left out.
pub mod Span
pub mod Finalize
pub mod Chain
pub mod Shares
mod Tests
use datalens.Prelude.{
  ℕ, zero, suc, ◌+◌, ◌-◌, ◌/◌, ◌%◌, min, max, Bool, true, false, not, ◌&&◌, ◌||◌, Option, none,
  some, List, [], ◌∷◌, ◌++◌, leb, ltb, ◌==◌, if◌then◌else◌, length, saturating_add, saturating_sub,
  i64_max,
}
use datalens.Core.Range.{BlockRange, new}
use datalens.Core.Finality.{Finality, safe, finalized}
use datalens.Core.Wire.{B256, Heads}
use datalens.Store.Codec.{ℤ, pos, negsuc, lebℤ, minℤ, maxℤ, predℤ}
use datalens.Store.Follow.{FollowProgress}

-- `head + 1` as a `u64`, where it is one.
abbrev pub next_height : ℤ → Option ℕ
next_height (pos n) = some (n + 1)
next_height (negsuc zero) = some 0
next_height (negsuc (suc n)) = none

pub next_span : ℤ → ℕ → ℕ → Option BlockRange
unfolding new
next_span head latest cap = elim (next_height head) [
  | none ↦ none
  | some start ↦ new start (min latest (saturating_add start (max cap 1 - 1)))
]

pub to_i64 : ℕ → ℤ
to_i64 number = if leb number i64_max then pos number else pos i64_max

-- The marks that `finalize` gives a row, and the parts between the old and the new ones.
pub record Part : Type 0 where
  pub start : ℕ
  pub end : ℕ
  pub finality : Finality

pub promoted_mark : Heads → ℕ → FollowProgress → ℤ
unfolding to_i64
promoted_mark heads head row = maxℤ (to_i64 (min heads.safe head)) row.promoted_to

pub finalized_mark : Heads → ℤ → ℤ
unfolding to_i64
finalized_mark heads promoted_to = minℤ (to_i64 heads.finalized) promoted_to

-- A part from the height after the first to the second, as `u64` numbers, or `none` where one of
-- these is negative.
abbrev pub part_after : ℤ → ℤ → Finality → Option Part
part_after below (pos end) finality = elim (next_height below) [
  | none ↦ none
  | some start ↦ some (record { start = start; end = end; finality = finality })
]
part_after below (negsuc n) finality = none

abbrev pub join_parts : Option Part → Option (List Part) → Option (List Part)
join_parts none parts = none
join_parts (some p) none = none
join_parts (some p) (some parts) = some (p ∷ parts)

-- The parts between the marks that a row has and those that it gets.
pub parts_between : ℤ → ℤ → ℤ → ℤ → Option (List Part)
parts_between row_finalized_to row_promoted_to promoted_to finalized_to =
    let safe_below = maxℤ row_promoted_to finalized_to in
    let safe_parts =
      if lebℤ promoted_to safe_below
      then some []
      else join_parts (part_after safe_below promoted_to safe) (some []) in
    if lebℤ finalized_to row_finalized_to
    then safe_parts
    else join_parts (part_after row_finalized_to finalized_to finalized) safe_parts

-- `parts` of a row, `none` where the row is passed over.
pub parts_of : Heads → ℕ → FollowProgress → Option (List Part)
unfolding promoted_mark finalized_mark parts_between
parts_of heads head row =
    let promoted_to = promoted_mark heads head row in
    parts_between row.finalized_to row.promoted_to promoted_to (finalized_mark heads promoted_to)

-- The fields of a header that the check reads.
pub record Header : Type 0 where
  pub number : ℕ
  pub hash : B256
  pub parent_hash : B256

-- How the check of the fetched headers ends. In the first case `roll_back` is called with the height as
-- its `detected`; from where it rolls back, if at all, is what its own search of the fork finds
-- (crates/engine/src/reorg.rs), which is not part of this outcome. Else they are dropped, none, or stored.
pub data Checked : Type 0 where
  reorg_detected : ℕ → Checked
  stale empty : Checked
  stored : B256 → Checked

-- The loop of `follow_blocks` over the headers, with the parent's hash where it is known, and the last
-- header's hash.
check_headers : Option B256 → Option B256 → List Header → Option ℕ × Option B256
check_headers parent last [] = (none, last)
check_headers none last (h ∷ headers) = check_headers (some h.hash) (some h.hash) headers
check_headers (some parent) last (h ∷ headers) =
    let rest = check_headers (some h.hash) (some h.hash) headers in
    if parent == h.parent_hash then rest else (some (saturating_sub h.number 1), last)

-- `follow_blocks` from the headers of the span on. A head hash of zero is not known.
pub follow_blocks : Heads → FollowProgress → BlockRange → List Header → Checked
unfolding check_headers
follow_blocks heads row span headers =
    let parent = if row.head_hash == 0 then none else some row.head_hash in
    let checked = check_headers parent none headers in
    elim checked.0 [
      | some block ↦ reorg_detected block
      | none ↦ elim checked.1 [
        | none ↦ empty
        | some last ↦
            if span.end == heads.latest && not (last == heads.latest_hash)
            then stale
            else stored last
      ]
    ]

-- The share of application number `index` of `count`.
abbrev pub share : ℕ → ℕ → ℕ → ℕ
share calls count index = calls / count + (if ltb index (calls % count) then 1 else 0)

-- `record_follow_calls`: each application with its share, where it has one.
shares_from : ℕ → ℕ → ℕ → List ℕ → List (ℕ × ℕ)
shares_from calls count index [] = []
shares_from calls count index (app ∷ apps) =
    let rest = shares_from calls count (index + 1) apps in
    if ltb 0 (share calls count index) then (app, share calls count index) ∷ rest else rest

pub record_follow_calls : List ℕ → ℕ → List (ℕ × ℕ)
unfolding shares_from
record_follow_calls apps calls = shares_from calls (length apps) 0 apps
