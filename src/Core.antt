-- ===== src/Core.antt =====
-- crates/core/src: block ranges, finality, and the data that the other parts exchange.
pub mod Range
pub mod Finality
pub mod Wire
pub mod Selector
mod Tests
