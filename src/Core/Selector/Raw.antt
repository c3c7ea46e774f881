-- ===== src/Core/Selector/Raw.antt =====
-- The wire form of a selector, in crates/core/src/selector.rs.
use datalens.Prelude.{◌≡◌, some, arith}
use datalens.Core.Selector.{LogSelector, to_raw, from_raw, filter_eq, trim_any}

-- A selector written without its trailing wildcards is read back as it was.
pub from_raw-to_raw : (s : LogSelector) → from_raw (to_raw s) ≡ some s
unfolding from_raw to_raw trim_any filter_eq
from_raw-to_raw s = ground arith
