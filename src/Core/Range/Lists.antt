-- ===== src/Core/Range/Lists.antt =====
-- Lists of block ranges: the blocks that they hold, and their order.
use datalens.Prelude.{ℕ, ◌+◌, ◌≤◌, ◌<◌, ◌≡◌, refl, Bool, false, List, [], ◌∷◌, arith, any}
use datalens.Core.Range.{BlockRange, contains}

-- In the order of their starts, from `n` on.
abbrev pub StartsFrom : ℕ → List BlockRange → Type 0
StartsFrom n [] = Unit {0}
StartsFrom n (r ∷ rs) = (n ≤ r.start) × StartsFrom r.start rs

-- Ascending ranges that do not meet, from `n` on.
abbrev pub DisjointFrom : ℕ → List BlockRange → Type 0
DisjointFrom n [] = Unit {0}
DisjointFrom n (r ∷ rs) = (n ≤ r.start) × (r.start ≤ r.end) × DisjointFrom (r.end + 1) rs

abbrev pub holds : List BlockRange → ℕ → Bool
holds rs b = any (λ r. contains r b) rs

pub holds_below : (n b : ℕ) (rs : List BlockRange) → StartsFrom n rs → b < n → holds rs b ≡ false
unfolding contains
holds_below n b [] s h = refl
holds_below n b (r ∷ rs) s h = ground (arith, holds_below r.start b rs s.1)

pub DisjointFrom-mono :
    (m n : ℕ) (rs : List BlockRange) → m ≤ n → DisjointFrom n rs → DisjointFrom m rs
DisjointFrom-mono m n [] h d = tt
DisjointFrom-mono m n (r ∷ rs) h d = (omega arith, d.1, d.2)

-- Ascending ranges with a block between neighbours, as coalesced ranges are.
abbrev pub ApartFrom : ℕ → List BlockRange → Type 0
ApartFrom n [] = Unit {0}
ApartFrom n (r ∷ rs) = (n ≤ r.start) × (r.start ≤ r.end) × ApartFrom (r.end + 2) rs

pub ApartFrom-holds : (n b : ℕ) (rs : List BlockRange) → ApartFrom n rs → b < n → holds rs b ≡ false
unfolding contains
ApartFrom-holds n b [] a h = refl
ApartFrom-holds n b (r ∷ rs) a h = ground (arith, ApartFrom-holds (r.end + 2) b rs a.2)
