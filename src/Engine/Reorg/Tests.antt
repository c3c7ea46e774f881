-- ===== src/Engine/Reorg/Tests.antt =====
-- A search of crates/engine/src/reorg.rs at a concrete input.
use datalens.Prelude.{ℕ, ◌+◌, refl, Option, some, List, [], ◌∷◌, arith, zero, suc}
use datalens.Core.Wire.{B256}
use datalens.Engine.Reorg.{Point, bad_at, is_bad, first_bad}
use datalens.Engine.Reorg.Search.{Upward, IsLowest, first_bad-IsLowest}

-- The chain's hash of a height, which the rows from 31 on no longer have.
abbrev canonical : ℕ → Option B256
canonical height = some (height + 100)

abbrev points : List Point
points =
    record { height = 30; hashes = 130 ∷ [] }
    ∷ record { height = 31; hashes = 131 ∷ 7 ∷ [] }
    ∷ record { height = 34; hashes = 8 ∷ [] }
    ∷ []

points-Upward : Upward canonical points
unfolding bad_at is_bad
points-Upward zero zero l h b = b
points-Upward zero (suc j) l h b = absurd (ground (arith, b))
points-Upward (suc i) zero l h b = absurd (omega arith)
points-Upward (suc i) (suc zero) l h b = refl
points-Upward (suc i) (suc (suc zero)) l h b = refl
points-Upward (suc i) (suc (suc (suc j))) l h b = absurd (omega arith)

first_bad-IsLowest_example : IsLowest canonical points (first_bad canonical points)
first_bad-IsLowest_example = first_bad-IsLowest canonical points points-Upward
