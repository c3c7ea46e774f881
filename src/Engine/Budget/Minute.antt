-- ===== src/Engine/Budget/Minute.antt =====
-- What an application takes in one window of crates/engine/src/budget.rs.
use datalens.Prelude.{ℕ, ◌+◌, ◌≤◌, ◌<◌, ◌≡◌, max, List, [], ◌∷◌, arith, if◌then◌else◌, u64_max}
use datalens.Engine.Budget.{FillBudget, try_take, minute_window, rolled, charge}

-- A demand of some blocks at a time.
pub record Demand : Type 0 where
  pub now : ℕ
  pub blocks : ℕ

-- The budget after a list of demands, and how many blocks were granted.
pub granted : FillBudget → List Demand → FillBudget × ℕ
granted b [] = (b, 0)
granted b (d ∷ demands) =
    let (b1, yes') = try_take b d.now d.blocks in
    let (b2, more) = granted b1 demands in (b2, (if yes' then d.blocks else 0) + more)

-- All in the window that starts at `since`, and of no more than `largest` blocks each.
abbrev pub InWindow : ℕ → ℕ → List Demand → Type 0
InWindow since largest [] = Unit {0}
InWindow since largest (d ∷ demands) =
    (d.now < since + minute_window) × (d.blocks ≤ largest) × InWindow since largest demands

-- One demand in the window at hand.
try_take-bounded :
    (b : FillBudget) (now blocks largest : ℕ)
    → now < b.since + minute_window
    → blocks ≤ largest
    → largest ≤ u64_max
    → b.per_minute < u64_max
    → b.used ≤ max b.per_minute largest
    → let (b', took) = try_take b now blocks in
      (b.used + (if took then blocks else 0) ≡ b'.used)
      × (b'.used ≤ max b.per_minute largest)
      × (b'.since ≡ b.since)
      × (b'.per_minute ≡ b.per_minute)
unfolding try_take rolled charge
try_take-bounded b now blocks largest h k l m u = ground arith

-- In one window, whatever is asked for in demands of at most `largest` blocks, what is granted is at
-- most the allowance of the minute, or the one demand that alone exceeds it, where no more than that
-- was taken before; the allowance is below `u64::MAX`, and a demand fits a `u64`.
pub granted-bounded :
    (b : FillBudget) (largest : ℕ) (demands : List Demand)
    → InWindow b.since largest demands
    → largest ≤ u64_max
    → b.per_minute < u64_max
    → b.used ≤ max b.per_minute largest
    → b.used + (granted b demands).1 ≤ max b.per_minute largest
unfolding granted
granted-bounded b largest [] w l m u = omega arith
granted-bounded b largest (d ∷ demands) w l m u =
    let step = try_take-bounded b d.now d.blocks largest w.0 w.1 l m u in
    let b1 = (try_take b d.now d.blocks).0 in
    ground (arith, step, granted-bounded b1 largest demands)
