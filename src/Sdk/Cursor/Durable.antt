-- ===== src/Sdk/Cursor/Durable.antt =====
-- What `FinalizedCursor` of sdks/rust/src/cursor.rs moves over.
use datalens.Prelude.{ℕ, ◌+◌, ◌≤◌, ◌<◌, ◌≡◌, max, Bool, true, ◌&&◌, List, [], ◌∷◌, arith, leb, any}
use datalens.Core.Wire.{Segment}
use datalens.Sdk.Cursor.{advance, is_durable}

-- A durable segment holds the block.
abbrev pub durably : List Segment → ℕ → Bool
durably segments b = any (λ s. is_durable s && (leb s.start b && leb b s.end)) segments

-- The checkpoint never moves back, and every block that it moves over is in a durable segment.
pub advance-durably :
    (next b : ℕ) (segments : List Segment)
    → (next ≤ advance next segments)
      × (next ≤ b → b < advance next segments → durably segments b ≡ true)
unfolding advance
advance-durably next b [] = (omega arith, λ h k. absurd (omega arith))
advance-durably next b (s ∷ segments) =
    ground (arith, advance-durably (max next (s.end + 1)) b segments)
