-- ===== src/Prelude/Words.antt =====
-- Rust's `u64` operations that saturate. Subtraction on ℕ stops at 0, as `saturating_sub` does.
use Prim.Native.Nat.{ℕ, ◌+◌, ◌-◌, ◌*◌, ◌^◌, min}

abbrev pub u64_max : ℕ
u64_max = 2 ^ 64 - 1

abbrev pub i64_max : ℕ
i64_max = 2 ^ 63 - 1

abbrev pub u32_max : ℕ
u32_max = 2 ^ 32 - 1

abbrev pub saturating_add : ℕ → ℕ → ℕ
saturating_add a b = min (a + b) u64_max

abbrev pub saturating_mul : ℕ → ℕ → ℕ
saturating_mul a b = min (a * b) u64_max

abbrev pub saturating_sub : ℕ → ℕ → ℕ
saturating_sub a b = a - b
