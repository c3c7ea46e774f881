-- ===== src/Lib.antt =====
-- datalens: a query-driven cache of EVM data over PostgreSQL.
--
-- Callers ask for logs or blocks over a block range. The engine answers from the store where the
-- range is covered, plans fill jobs on a grid of chunks where it is not, and fetches them through
-- the provider gateway, which limits the rate of calls, retries them, and adapts the window of
-- `eth_getLogs`. The parts and the files that model them:
--
-- - Core: crates/core/src. Core/Range.antt is `BlockRange` of range.rs, Core/Finality.antt is
--   finality.rs, Core/Wire.antt the data of rows.rs and wire.rs, Core/Selector.antt the selectors
--   of selector.rs. A name of the source is the name here.
-- - Store: crates/store/src. Store/Coverage.antt is the arithmetic of coverage.rs on half-open
--   spans and on ranges; the rows of the table are a list of spans. Store/Codec.antt is codec.rs:
--   numbers, ranges and topics as columns hold them. Store/Jobs.antt is jobs.rs, the table of fill
--   jobs: each statement is a function of the rows, of the time, and of the locks that others hold.
--   Jobs/Steps has them as steps in any order, Jobs/Reach and Jobs/Leases what runs of them keep.
--   Store/Follow.antt is follow.rs, the marks of each followed selector, with its operations as
--   steps in the same way.
-- - Provider: crates/provider/src. Provider/Budget.antt is the token bucket of budget.rs with its
--   queues of waiters, Provider/Ranges.antt the adaptive window of range.rs, Provider/Errors.antt
--   error.rs, Provider/Retry.antt the attempts of gateway.rs's `call_counted`. An operation on a
--   `&mut self` returns the state after it. Budget/Events has what gateway.rs does with the bucket,
--   each step under its lock. Provider/Answers.antt is the rest of gateway.rs that
--   reads answers: `post`, `batch`, `interpret_object` and `interpret_batch` over JSON values.
-- - Evm: crates/evm/src. Evm/Logs.antt is `get_logs` of logs.rs. The provider's answers, the clock
--   and what other tasks do to the shared window are functions of the number of calls made.
--   Evm/Blocks.antt is blocks.rs and heads.rs: batches that are halved, headers of a range,
--   senders, and the heads of a chain; the gateway's `batch` is a function of the number of calls
--   made.
-- - Engine: crates/engine/src. Engine/Plan.antt is plan.rs: which chunks a request fills.
--   Engine/Query.antt is `query` of query.rs, which joins what the store covers below the safe head
--   with what the follower has above it; `fill_durable` is a parameter of it,
--   and Engine/Durable.antt is that function. Engine/Budget.antt is
--   budget.rs: what an application may fill in a minute. Engine/Reorg.antt is the search of
--   reorg.rs for the height from which stored rows left the chain; it has a round for each point,
--   and halves what is left in each. Engine/Follow.antt is part of follow.rs: the span of a tick,
--   the check of fetched headers, what `finalize` promotes, and the shares of calls.
--   Engine/Worker.antt is the fill of log jobs of worker.rs: its groups, calls, commit and failures;
--   Worker/Calls has the calls of Evm/Logs in its place for them.
-- - Sdk: sdks/rust/src. Sdk/Cursor.antt is cursor.rs: the checkpoint over durable data, and the
--   cursor that compares hot data with what was seen.
-- - Prelude: tests, words, division and sets that the others share.
--
-- Words and fuel: a `u64` is a natural number with the saturation that the source writes; a block
-- number above `BlockRange::MAX_END` is refused by `new` as in the source. `align_from` has fuel
-- for each cell from that of the start to that of the end. `fetch_window` has a round for each
-- block up to the range's end, since every round that repeats shortens the window; the loop of
-- `get_logs` has one for each block of the range and two more. The queue of `batch_chunks` has two
-- rounds for each item, since a round serves a chunk or cuts it in two. A height that the source
-- keeps as an `i64` is an integer.
--
-- Not modelled: SQL apart from the statements on jobs and follow progress, the connection pool,
-- HTTP and JSON, the scheduling of background roles, metrics, textual keys and hashes, the API, the
-- server's configuration and the SDKs' transport. What the providers of those do is a parameter
-- where a modelled part depends on it.
pub mod Prelude
pub mod Core
pub mod Store
pub mod Provider
pub mod Evm
pub mod Engine
pub mod Sdk
