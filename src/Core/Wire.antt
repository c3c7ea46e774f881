-- ===== src/Core/Wire.antt =====
-- The data of crates/core/src/rows.rs, wire.rs and dataset.rs that the other parts read.
-- A hash or an address is the number that its bytes spell.
use datalens.Prelude.{Bool, true, false, ℕ, Option, List}
use datalens.Core.Finality.{Finality}

abbrev pub B256 : Type 0
B256 = ℕ

abbrev pub Address : Type 0
Address = ℕ

pub record LogRow : Type 0 where
  pub block_number : ℕ
  pub log_index : ℕ
  pub block_hash : B256
  pub transaction_index : ℕ
  pub transaction_hash : B256
  pub address : Address
  pub topics : List B256
  pub payload : List ℕ
  pub finality : Finality

pub record Heads : Type 0 where
  pub latest : ℕ
  pub latest_hash : B256
  pub safe : ℕ
  pub finalized : ℕ

pub data SegmentSource : Type 0 where
  durable hot : SegmentSource

pub record Anchor : Type 0 where
  pub number : ℕ
  pub hash : B256

pub record Segment : Type 0 where
  pub start : ℕ
  pub end : ℕ
  pub source : SegmentSource
  pub finality : Finality
  pub anchor : Option Anchor

pub data IncompleteReason : Type 0 where
  pending provider_error budget_exhausted not_followed_yet below_safe : IncompleteReason

pub data Dataset : Type 0 where
  evm_logs evm_blocks : Dataset

abbrev pub dataset_eq : Dataset → Dataset → Bool
dataset_eq evm_logs evm_logs = true
dataset_eq evm_logs evm_blocks = false
dataset_eq evm_blocks evm_logs = false
dataset_eq evm_blocks evm_blocks = true
