-- ===== src/Prelude/Division.antt =====
-- Division by a variable, as the block grids use it.
use Prim.Native.Nat.{ℕ, ◌+◌, ◌-◌, ◌*◌, ◌/◌, ◌≤◌, ◌<◌}
use mathlib.Core.Path.{◌≡◌, refl, subst}
use mathlib.Core.Logic.{◌↔◌}
use native.Mathlib.Omega.{arith}

pub mul_le : (a b c : ℕ) → a ≤ b → a * c ≤ b * c
mul_le a b c h = grind arith

pub div_mul-le : (n c : ℕ) → n / c * c ≤ n
div_mul-le n c = grind arith

pub lt-div_mul : (n c : ℕ) → 0 < c → n < (n / c + 1) * c
lt-div_mul n c h = grind arith

pub le_div : (k n c : ℕ) → 0 < c → k * c ≤ n → k ≤ n / c
le_div k n c h g = grind arith

pub div_mono : (a b c : ℕ) → a ≤ b → a / c ≤ b / c
div_mono a b c h = grind arith

-- The cell of a number is the only one that holds it.
pub div_unique : (k n c : ℕ) → k * c ≤ n → n < (k + 1) * c → n / c ≡ k
div_unique k n c h g = grind arith

pub le_mul : (k c : ℕ) → 0 < c → k ≤ k * c
le_mul k c h = grind arith

pub le_div_iff : (k n c : ℕ) → 0 < c → (k ≤ n / c) ↔ (k * c ≤ n)
le_div_iff k n c h = (λ g. grind arith, λ g. grind arith)

pub div_lt_iff : (n k c : ℕ) → 0 < c → (n / c < k) ↔ (n < k * c)
div_lt_iff n k c h = (λ g. grind arith, λ g. grind arith)

pub div_le : (n m c : ℕ) → 0 < c → n ≤ m * c → n / c ≤ m
div_le n m c h g = grind arith

pub distribute : (a b c : ℕ) → (a + b) * c ≡ a * c + b * c
distribute a b c = omega arith

pub mul_sub_add : (a n c : ℕ) → a ≤ n → a * c + (n - a) * c ≡ n * c
mul_sub_add a n c h =
    omega (arith, distribute a (n - a) c, subst (λ m. (a + (n - a)) * c ≡ m * c) split refl)
  where
    split : a + (n - a) ≡ n
    split = omega arith
