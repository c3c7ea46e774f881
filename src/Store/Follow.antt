-- ===== src/Store/Follow.antt =====
-- crates/store/src/follow.rs: the table `follow_progress`, how far each selector of a chain is
-- followed, and the halt of a chain. An operation in a transaction returns the rows after it; on an
-- error the transaction is rolled back. `watched` says whether a selector has an unexpired
-- subscription. A row's `from_block` is never negative, since `u64_to_i64` makes it.
pub mod Rows
pub mod Marks
pub mod Deleted
pub mod Rewind
mod Tests
use datalens.Prelude.{
  ℕ, zero, suc, ◌+◌, ◌-◌, Bool, true, false, not, ◌&&◌, ◌||◌, Option, none, some, List, [], ◌∷◌,
  leb, ltb, ◌==◌, any, if◌then◌else◌,
}
use datalens.Core.Wire.{B256, Dataset, dataset_eq, evm_logs, evm_blocks}
use datalens.Store.Codec.{
  StoreError, not_found, invalid, Result, ok, err, ℤ, pos, negsuc, lebℤ, minℤ, maxℤ, predℤ,
  u64_to_i64,
}

pub record FollowKey : Type 0 where
  pub chain_id : ℕ
  pub dataset : Dataset
  pub selector_id : ℕ

pub record FollowProgress : Type 0 where
  pub chain_id : ℕ
  pub dataset : Dataset
  pub selector_id : ℕ
  pub from_block : ℕ
  pub head_block : ℤ
  pub head_hash : B256
  pub promoted_to : ℤ
  pub finalized_to : ℤ

abbrev pub has_key : FollowKey → FollowProgress → Bool
has_key key row =
    row.chain_id == key.chain_id
    && (dataset_eq row.dataset key.dataset && row.selector_id == key.selector_id)

pub follow_row : FollowKey → List FollowProgress → Result FollowProgress
follow_row key [] = err not_found
follow_row key (row ∷ rows) = if has_key key row then ok row else follow_row key rows

-- `update … set f where p`
pub update_rows :
    (FollowProgress → Bool)
    → (FollowProgress → FollowProgress)
    → List FollowProgress
    → List FollowProgress
update_rows p f [] = []
update_rows p f (row ∷ rows) = (if p row then f row else row) ∷ update_rows p f rows

-- The rows after an operation, and the row that it returns.
pub record Followed : Type 0 where
  pub rows : List FollowProgress
  pub row : FollowProgress

abbrev returning_row : List FollowProgress → Result FollowProgress → Result Followed
returning_row rows (ok row) = ok (record { rows = rows; row = row })
returning_row rows (err e) = err e

abbrev new_row : FollowKey → ℕ → B256 → FollowProgress
new_row key from_block head_hash = record {
  chain_id = key.chain_id;
  dataset = key.dataset;
  selector_id = key.selector_id;
  from_block = from_block;
  head_block = predℤ from_block;
  head_hash = head_hash;
  promoted_to = predℤ from_block;
  finalized_to = predℤ from_block;
}

pub follow_get_or_init : FollowKey → ℕ → B256 → List FollowProgress → Result Followed
unfolding follow_row
follow_get_or_init key from_block head_hash rows =
    let inserted =
      if any (has_key key) rows then rows else new_row key from_block head_hash ∷ rows in
    elim (u64_to_i64 from_block) [
      | err e ↦ err e
      | ok n ↦ returning_row inserted (follow_row key inserted)
    ]

pub advance_follow_head : FollowKey → ℕ → B256 → List FollowProgress → Result Followed
unfolding follow_row update_rows
advance_follow_head key head_block head_hash rows = elim (u64_to_i64 head_block) [
  | err e ↦ err e
  | ok head ↦
      let moves = λ (row : FollowProgress). has_key key row && lebℤ row.head_block head in
      let updated =
        update_rows moves (λ row. record row { head_block = head; head_hash = head_hash }) rows in
      if any moves rows
      then returning_row updated (follow_row key updated)
      else elim (follow_row key rows) [
        | err e ↦ err e
        | ok current ↦
            if not (lebℤ current.head_block head)
            then err invalid
            else ok (record { rows = rows; row = current })
      ]
]

pub advance_follow_promoted : FollowKey → ℕ → List FollowProgress → Result Followed
unfolding follow_row update_rows
advance_follow_promoted key promoted_to rows = elim (u64_to_i64 promoted_to) [
  | err e ↦ err e
  | ok promoted ↦ elim (follow_row key rows) [
    | err e ↦ err e
    | ok current ↦
        let updated =
          update_rows (has_key key) (λ row. record row { promoted_to = promoted }) rows in
        if not (lebℤ current.promoted_to promoted)
        then err invalid
        else if not (lebℤ promoted current.head_block)
        then err invalid
        else returning_row updated (follow_row key updated)
  ]
]

pub advance_follow_finalized : FollowKey → ℕ → List FollowProgress → Result Followed
unfolding follow_row update_rows
advance_follow_finalized key finalized_to rows = elim (u64_to_i64 finalized_to) [
  | err e ↦ err e
  | ok finalized ↦ elim (follow_row key rows) [
    | err e ↦ err e
    | ok current ↦
        let updated =
          update_rows (has_key key) (λ row. record row { finalized_to = finalized }) rows in
        if not (lebℤ current.finalized_to finalized)
        then err invalid
        else if not (lebℤ finalized current.promoted_to)
        then err invalid
        else returning_row updated (follow_row key updated)
  ]
]

-- Where `rewind_follow` puts a row whose head reaches the fork.
pub rewound : ℕ → B256 → FollowProgress → FollowProgress
rewound fork head_hash row = record row {
  head_hash = if lebℤ (pos fork) row.promoted_to then 0 else head_hash;
  head_block = maxℤ (minℤ row.head_block (predℤ fork)) row.promoted_to;
}

abbrev pub reaches_fork : ℕ → ℕ → FollowProgress → Bool
reaches_fork chain fork row = row.chain_id == chain && lebℤ (pos fork) row.head_block

pub rewind_follow : ℕ → ℕ → B256 → List FollowProgress → Result (List FollowProgress)
unfolding rewound update_rows
rewind_follow chain from_block head_hash rows = elim (u64_to_i64 from_block) [
  | err e ↦ err e
  | ok n ↦ ok (update_rows (reaches_fork chain from_block) (rewound from_block head_hash) rows)
]

pub follow_progress : FollowKey → List FollowProgress → Option FollowProgress
unfolding follow_row
follow_progress key rows = elim (follow_row key rows) [ ok row ↦ some row | err e ↦ none ]

pub delete_unwatched_follow :
    ℕ → (FollowProgress → Bool) → List FollowProgress → List FollowProgress
delete_unwatched_follow chain watched [] = []
delete_unwatched_follow chain watched (row ∷ rows) =
    let rest = delete_unwatched_follow chain watched rows in
    if row.chain_id == chain && not (watched row) then rest else row ∷ rest

-- The halt of a chain: the row's `follow_halted_at` and `follow_halt_reason`.
pub record Halt : Type 0 where
  pub halted_at : Option ℕ
  pub reason : Option ℕ

abbrev coalesce : Option ℕ → ℕ → Option ℕ
coalesce none n = some n
coalesce (some m) n = some m

-- The empty text, for a halt without a reason.
abbrev or_empty : Option ℕ → ℕ
or_empty none = 0
or_empty (some reason) = reason

pub halt_follow : ℕ → ℕ → Halt → Halt
halt_follow reason now halt = record {
  halted_at = coalesce halt.halted_at now;
  reason = coalesce halt.reason reason;
}

pub follow_halt : Halt → Option ℕ
follow_halt halt = elim halt.halted_at [ none ↦ none | some at ↦ some (or_empty halt.reason) ]

pub resume_follow : Halt → Halt × Option ℕ
unfolding follow_halt
resume_follow halt = elim halt.halted_at [
  | none ↦ (halt, none)
  | some at ↦ (record { halted_at = none; reason = none }, some (or_empty halt.reason))
]
