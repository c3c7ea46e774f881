-- ===== src/Sdk/Cursor/Fork.antt =====
-- What `ProvisionalCursor` of sdks/rust/src/cursor.rs drops when the chain reorganised.
use datalens.Sdk.Cursor.Ascending.{Ascending}
