-- ===== src/Evm.antt =====
-- crates/evm/src: what is read from the chain.
pub mod Logs
pub mod Blocks
mod Tests
