-- ===== src/Sdk.antt =====
-- sdks/rust/src: what the Rust client keeps between queries.
pub mod Cursor
