-- ===== src/Engine/Follow/Shares.antt =====
-- How crates/engine/src/follow.rs shares its calls out.
use datalens.Prelude.{
  ℕ, suc, ◌+◌, ◌*◌, ◌/◌, ◌%◌, ◌≤◌, ◌<◌, ◌≡◌, min, Bool, true, false, List, [], ◌∷◌, length, arith,
  ltb, if◌then◌else◌, All, distribute,
}
use datalens.Engine.Follow.{share, shares_from, record_follow_calls}

abbrev pub total : List (ℕ × ℕ) → ℕ
total [] = 0
total ((app, calls) ∷ rest) = calls + total rest

suc_mul : (n q : ℕ) → suc n * q ≡ q + n * q
suc_mul n q = omega (arith, distribute 1 n q)

-- The shares from one index on: so many quotients, and the rest's units that are left.
total-shares_from :
    (calls count index : ℕ) (apps : List ℕ)
    → total (shares_from calls count index apps) + min index (calls % count)
      ≡ length apps * (calls / count) + min (index + length apps) (calls % count)
unfolding shares_from
total-shares_from calls count index [] = ground arith
total-shares_from calls count index (app ∷ apps) =
    ground
      (arith, total-shares_from calls count (index + 1) apps, suc_mul (length apps) (calls / count))

div_mod : (n c : ℕ) → 0 < c → (c * (n / c) + n % c ≡ n) × (n % c < c)
div_mod n c h = grind arith

abbrev pub IsShare : ℕ → ℕ → ℕ × ℕ → Type 0
IsShare calls count s = (calls / count ≤ s.1) × (s.1 ≤ calls / count + 1)

consed :
    (P : ℕ × ℕ → Type 0) (b : Bool) (s : ℕ × ℕ) (rest : List (ℕ × ℕ))
    → P s
    → All P rest
    → All P (if b then s ∷ rest else rest)
consed P true s rest h g = (h, g)
consed P false s rest h g = g

shares_from-IsShare :
    (calls count index : ℕ) (apps : List ℕ)
    → All (IsShare calls count) (shares_from calls count index apps)
unfolding shares_from
shares_from-IsShare calls count index [] = tt
shares_from-IsShare calls count index (app ∷ apps) =
    consed (IsShare calls count) (ltb 0 (share calls count index)) (app, share calls count index)
      (shares_from calls count (index + 1) apps) (ground arith)
      (shares_from-IsShare calls count (index + 1) apps)

-- With at least one application, the recorded shares add up to the calls, and no two of them differ by
-- more than one.
pub record_follow_calls-total :
    (app : ℕ) (apps : List ℕ) (calls : ℕ)
    → (total (record_follow_calls (app ∷ apps) calls) ≡ calls)
      × All (IsShare calls (length (app ∷ apps))) (record_follow_calls (app ∷ apps) calls)
unfolding record_follow_calls
record_follow_calls-total app apps calls = (
  omega (
    arith,
    total-shares_from calls (length (app ∷ apps)) 0 (app ∷ apps),
    div_mod calls (length (app ∷ apps)),
  ),
  shares_from-IsShare calls (length (app ∷ apps)) 0 (app ∷ apps),
)
