-- ===== src/Engine/Budget.antt =====
-- crates/engine/src/budget.rs: what an application may fill in a minute. Instants are nanoseconds.
pub mod Minute
mod Tests
use datalens.Prelude.{
  ℕ, ◌*◌, Bool, true, false, ◌&&◌, List, [], ◌∷◌, leb, ltb, if◌then◌else◌, saturating_add,
  saturating_sub,
}

abbrev pub minute_window : ℕ
minute_window = 60 * 1000000000

-- `window` is the start of the window and what was taken in it.
pub record FillBudget : Type 0 where
  pub per_minute : ℕ
  pub since : ℕ
  pub used : ℕ

pub new : ℕ → ℕ → FillBudget
new per_minute now = record { per_minute = per_minute; since = now; used = 0 }

-- The window at `now`: the one at hand, or a new one.
rolled : FillBudget → ℕ → FillBudget
rolled b now =
    if leb minute_window (saturating_sub now b.since) then record b { since = now; used = 0 } else b

charge : FillBudget → ℕ → FillBudget × Bool
charge b blocks =
    if ltb 0 b.used && ltb b.per_minute (saturating_add b.used blocks)
    then (b, false)
    else (record b { used = saturating_add b.used blocks }, true)

pub try_take : FillBudget → ℕ → ℕ → FillBudget × Bool
unfolding rolled charge
try_take b now blocks = charge (rolled b now) blocks
