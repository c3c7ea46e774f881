-- ===== src/Engine.antt =====
-- crates/engine/src: planning, queries, following the chain, and retention.
pub mod Plan
pub mod Query
pub mod Budget
pub mod Reorg
pub mod Follow
pub mod Worker
pub mod Durable
mod Tests
