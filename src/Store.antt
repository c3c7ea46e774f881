-- ===== src/Store.antt =====
-- crates/store/src: the PostgreSQL repositories.
pub mod Codec
pub mod Coverage
pub mod Jobs
pub mod Follow
mod Tests
