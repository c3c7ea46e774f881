-- ===== src/Evm/Blocks.antt =====
-- crates/evm/src/blocks.rs and heads.rs: batches of calls that are halved where the provider finds
-- them too large, block headers by number, transaction senders, and the heads of a chain. `gateway n`
-- is the gateway's `batch` at its n-th call, `parse_block` and `parse_tx` are those of decode.rs, and
-- `rpc_batch` is the client's batch size. A queue has fuel for its rounds; `none` is no fuel.
pub mod Chunks
pub mod Queue
pub mod Headers
mod Tests
use datalens.Prelude.{
  ℕ, zero, suc, ◌+◌, ◌-◌, ◌/◌, ◌*◌, Bool, true, false, not, ◌&&◌, ◌||◌, Option, none, some, List,
  [], ◌∷◌, ◌++◌, map, leb, ltb, ◌==◌, if◌then◌else◌, length, saturating_sub, set_contains,
}
use datalens.Core.Range.{BlockRange}
use datalens.Core.Wire.{B256, Address, Heads}
use datalens.Provider.Errors.{
  ProviderError, batch_too_large, fatal, not_ready, Message, length_mismatch, wrong_number,
  tags_out_of_order, short_batch, unsupported_safe, Result, ok, err,
}
use datalens.Provider.Answers.{Value, Request}

module _ {T : Type 0} where
  pub take : ℕ → List T → List T
  take zero xs = []
  take (suc n) [] = []
  take (suc n) (x ∷ xs) = x ∷ take n xs

  pub drop : ℕ → List T → List T
  drop zero xs = xs
  drop (suc n) [] = []
  drop (suc n) (x ∷ xs) = drop n xs

  -- `items.chunks(size)`, with fuel for each item.
  pub chunks_of : ℕ → ℕ → List T → List (List T)
  unfolding take drop
  chunks_of fuel size [] = []
  chunks_of zero size (x ∷ xs) = []
  chunks_of (suc fuel) size (x ∷ xs) = take size (x ∷ xs) ∷ chunks_of fuel size (drop size (x ∷ xs))

pub is_too_large : ProviderError → Bool
is_too_large batch_too_large = true
is_too_large e = false

module _ (gateway : ℕ → List Request → Result (List (Result Value))) {T : Type 0}
    (build : T → Request) where
  -- The loop of `batch_chunks`, by the calls made.
  pub chunk_rounds :
      ℕ → ℕ → List (List T) → List (Result Value) → Option (Result (List (Result Value)))
  unfolding take drop is_too_large
  chunk_rounds fuel n [] out = some (ok out)
  chunk_rounds zero n (chunk ∷ queue) out = none
  chunk_rounds (suc fuel) n (chunk ∷ queue) out =
      let mid = length chunk / 2 in
      let halved = chunk_rounds fuel (n + 1) (take mid chunk ∷ drop mid chunk ∷ queue) out in
      elim (gateway n (map build chunk)) [
        | ok results ↦
            let rest = chunk_rounds fuel (n + 1) queue (out ++ results) in
            if length results == length chunk then rest else some (err (fatal length_mismatch))
        | err error ↦
            if is_too_large error && ltb 1 (length chunk) then halved else some (err error)
      ]

  pub batch_chunks : ℕ → List T → Option (Result (List (Result Value)))
  unfolding chunk_rounds chunks_of
  batch_chunks rpc_batch items =
      chunk_rounds (2 * length items) 0 (chunks_of (length items) rpc_batch items) []

  -- The loop of `batch_resilient` over the items and their results.
  pub parse_each :
      {R : Type 0} → (T → Value → Result R) → List T → List (Result Value) → Result (List R)
  parse_each parse [] results = ok []
  parse_each parse (item ∷ items) [] = ok []
  parse_each parse (item ∷ items) (err e ∷ results) = err e
  parse_each parse (item ∷ items) (ok value ∷ results) = elim (parse item value) [
    | err e ↦ err e
    | ok row ↦ elim (parse_each parse items results) [ err e ↦ err e | ok rows ↦ ok (row ∷ rows) ]
  ]

  pub batch_resilient :
      {R : Type 0} → (T → Value → Result R) → ℕ → List T → Option (Result (List R))
  unfolding batch_chunks parse_each
  batch_resilient parse rpc_batch items = elim (batch_chunks rpc_batch items) [
    | none ↦ none
    | some (err e) ↦ some (err e)
    | some (ok results) ↦ some (parse_each parse items results)
  ]

-- The fields of `BlockRow` that the callers read.
pub record BlockRow : Type 0 where
  pub number : ℕ
  pub hash : B256
  pub parent_hash : B256

-- `(start..=end).collect()`
pub numbers_from : ℕ → ℕ → List ℕ
numbers_from zero start = []
numbers_from (suc n) start = start ∷ numbers_from n (start + 1)

-- `block_headers`; `get_block` builds the request of a number.
module _ (gateway : ℕ → List Request → Result (List (Result Value))) (get_block : ℕ → Request)
    (parse_block : Value → Result BlockRow) where
  pub parse_numbered : ℕ → Value → Result BlockRow
  parse_numbered number value = elim (parse_block value) [
    | err e ↦ err e
    | ok row ↦ if row.number == number then ok row else err (fatal wrong_number)
  ]

  pub block_headers : ℕ → BlockRange → Option (Result (List BlockRow))
  unfolding batch_resilient numbers_from parse_numbered
  block_headers rpc_batch range =
      batch_resilient gateway get_block parse_numbered rpc_batch
        (numbers_from (range.end + 1 - range.start) range.start)

pub record TxSender : Type 0 where
  pub address : Address
  pub block_number : ℕ
  pub block_hash : B256

-- The map is a list with its last entry first.
pub record SenderLookup : Type 0 where
  pub senders : List (B256 × TxSender)
  pub failed : List B256

-- The loop of `deduped`, with the hashes seen.
dedup_from : List B256 → List B256 → List B256
dedup_from seen [] = []
dedup_from seen (hash ∷ hashes) =
    let rest = dedup_from (hash ∷ seen) hashes in
    if set_contains seen hash then dedup_from seen hashes else hash ∷ rest

pub deduped : List B256 → List B256
unfolding dedup_from
deduped hashes = dedup_from [] hashes

zip_results : List B256 → List (Result Value) → List (B256 × Result Value)
zip_results [] results = []
zip_results (h ∷ hashes) [] = []
zip_results (h ∷ hashes) (r ∷ results) = (h, r) ∷ zip_results hashes results

module _ (parse_tx : Value → Result (Option TxSender)) where
  -- The loop of `fold_senders`, with the lookup so far.
  fold_from : SenderLookup → List (B256 × Result Value) → SenderLookup
  fold_from l [] = record l { failed = l.failed }
  fold_from l ((hash, err e) ∷ results) =
      fold_from (record l { failed = l.failed ++ hash ∷ [] }) results
  fold_from l ((hash, ok value) ∷ results) = elim (parse_tx value) [
    | err e ↦ fold_from (record l { failed = l.failed ++ hash ∷ [] }) results
    | ok none ↦ fold_from l results
    | ok (some sender) ↦ fold_from (record l { senders = (hash, sender) ∷ l.senders }) results
  ]

  pub fold_senders : List (B256 × Result Value) → SenderLookup
  unfolding fold_from
  fold_senders results = fold_from (record { senders = []; failed = [] }) results

  -- `batch` is `batch_chunks` for the requests by hash, at the first and the second time.
  module _ (batch : ℕ → List B256 → Result (List (Result Value))) where
    sender_batch : ℕ → List B256 → Result (List (B256 × Result Value))
    unfolding zip_results
    sender_batch n hashes = elim (batch n hashes) [
      | err e ↦ err e
      | ok results ↦ ok (zip_results hashes results)
    ]

    pub transaction_senders : List B256 → Result SenderLookup
    unfolding sender_batch fold_senders deduped
    transaction_senders hashes = elim (sender_batch 0 (deduped hashes)) [
      | err e ↦ err e
      | ok first ↦
          let l = fold_senders first in
          elim l.failed [
            | [] ↦ ok l
            | h ∷ hs ↦ elim (sender_batch 1 l.failed) [
              | err e ↦ ok l
              | ok again ↦
                  let r = fold_senders again in
                  ok (record { senders = r.senders ++ l.senders; failed = r.failed })
            ]
          ]
    ]

-- `heads` of heads.rs.
pub data HeadMode : Type 0 where
  lag : ℕ → ℕ → HeadMode
  tags : HeadMode

-- `next_item`, with the items left.
abbrev first_item : List (Result Value) → Result Value
first_item [] = err (fatal short_batch)
first_item (r ∷ results) = r

abbrev later_items : List (Result Value) → List (Result Value)
later_items [] = []
later_items (r ∷ results) = results

module _ (parse_block : Value → Result BlockRow) where
  abbrev parse_result : Result Value → Result BlockRow
  parse_result (err e) = err e
  parse_result (ok value) = parse_block value

  parse_safe_tag : Result Value → Result BlockRow
  parse_safe_tag (err e) = err (fatal unsupported_safe)
  parse_safe_tag (ok value) = elim (parse_block value) [
    | ok row ↦ ok row
    | err not_ready ↦ err (fatal unsupported_safe)
    | err other ↦ err other
  ]

  in_order : BlockRow → BlockRow → BlockRow → Result Heads
  in_order latest safe finalized =
      if ltb safe.number finalized.number || ltb latest.number safe.number
      then err (fatal tags_out_of_order)
      else ok (record {
        latest = latest.number;
        latest_hash = latest.hash;
        safe = safe.number;
        finalized = finalized.number;
      })

  -- `call` is the answer for the latest block, `batch` those for the three tags.
  pub heads : HeadMode → Result Value → Result (List (Result Value)) → Result Heads
  unfolding parse_safe_tag in_order
  heads (lag safe_lag_blocks finalized_lag_blocks) call batch = elim (parse_result call) [
    | err e ↦ err e
    | ok latest ↦ ok (record {
      latest = latest.number;
      latest_hash = latest.hash;
      safe = saturating_sub latest.number safe_lag_blocks;
      finalized = saturating_sub latest.number finalized_lag_blocks;
    })
  ]
  heads tags call (err e) = err e
  heads tags call (ok results) = elim (parse_result (first_item results)) [
    | err e ↦ err e
    | ok latest ↦ elim (parse_safe_tag (first_item (later_items results))) [
      | err e ↦ err e
      | ok safe ↦ elim (parse_result (first_item (later_items (later_items results)))) [
        | err e ↦ err e
        | ok finalized ↦ in_order latest safe finalized
      ]
    ]
  ]
