-- ===== src/Engine/Budget/Tests.antt =====
-- Demands on the budget of crates/engine/src/budget.rs at concrete inputs.
use datalens.Prelude.{◌+◌, ◌≤◌, max, List, [], ◌∷◌, arith}
use datalens.Engine.Budget.{FillBudget}
use datalens.Engine.Budget.Minute.{Demand, InWindow, granted, granted-bounded}

abbrev minute : FillBudget
minute = record { per_minute = 100; since = 5; used = 60 }

abbrev demands : List Demand
demands =
    record { now = 10; blocks = 50 }
    ∷ record { now = 20; blocks = 40 }
    ∷ record { now = 30; blocks = 10 }
    ∷ []

demands-InWindow : InWindow 5 50 demands
demands-InWindow =
    (omega arith, omega arith, (omega arith, omega arith, (omega arith, omega arith, tt)))

granted-bounded_example : 60 + (granted minute demands).1 ≤ max 100 50
granted-bounded_example =
    granted-bounded minute 50 demands demands-InWindow (omega arith) (omega arith) (omega arith)
