-- ===== src/Core/Tests.antt =====
-- Runs of the definitions of crates/core at concrete inputs.
use datalens.Prelude.{◌≡◌, arith, ◌&&◌}
use datalens.Core.Range.{BlockRange, IsValid, contains, intersect}
use datalens.Core.Range.Cells.{contains_opt, contains-intersect}
use datalens.Core.Finality.{Finality, as_i16, from_i16-eq-some, from_i16-as_i16}

abbrev blocks : BlockRange
blocks = record { start = 15; end = 38 }

blocks-IsValid : IsValid blocks
blocks-IsValid = record { ordered = omega arith; bounded = omega arith }

contains-intersect_example :
    contains_opt (intersect blocks (record { start = 30; end = 90 })) 38
    ≡ (contains blocks 38 && contains (record { start = 30; end = 90 }) 38)
contains-intersect_example = contains-intersect blocks (record { start = 30; end = 90 }) 38

from_i16-eq-some_example : 2 ≡ as_i16 Finality.safe
from_i16-eq-some_example = from_i16-eq-some 2 Finality.safe (from_i16-as_i16 Finality.safe)
