-- ===== src/Provider.antt =====
-- crates/provider/src: the JSON-RPC gateway's budget, adaptive ranges, errors and retries.
pub mod Errors
pub mod Ranges
pub mod Budget
pub mod Retry
pub mod Answers
mod Tests
