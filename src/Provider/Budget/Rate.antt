-- ===== src/Provider/Budget/Rate.antt =====
-- How fast `refill` of crates/provider/src/budget.rs gives out tokens.
use datalens.Prelude.{
  ℕ, ◌+◌, ◌-◌, ◌*◌, ◌/◌, ◌≤◌, ◌<◌, ◌≡◌, min, arith, div_mul-le, lt-div_mul, mul_le, u64_max, div_le,
  mul_sub_add,
}
use datalens.Provider.Budget.{Budget, refill, credit, scale, second}

-- What a bucket holds, in a unit in which both a token and a nanosecond of refill are whole: the
-- balance, and the time up to which it was refilled.
abbrev pub per_ns : Budget → ℕ
per_ns b = b.rps * scale

-- The state between calls: the bucket is not over its burst, whose size fits a `u64`, and was not
-- refilled for a time to come.
pub record IsSound (b : Budget) (now : ℕ) : Type 0 where
  pub within : b.balance ≤ b.burst
  pub word : b.burst ≤ u64_max
  pub past : b.updated ≤ now
  pub rate : 0 < b.rps
  pub clock : now ≤ u64_max

credit_consumed :
    (b : Budget) (now add : ℕ)
    → IsSound b now
    → add ≤ (now - b.updated) * b.rps * scale / second
    → (add * second ≤ (now - b.updated) * (b.rps * scale))
      × (add * second / (b.rps * scale) ≤ now - b.updated)
credit_consumed b now add v h =
    let below : add * second ≤ (now - b.updated) * (b.rps * scale) = omega (
      arith,
      mul_le add ((now - b.updated) * b.rps * scale / second) second h,
      div_mul-le ((now - b.updated) * b.rps * scale) second,
    ) in
    (below, div_le (add * second) (now - b.updated) (b.rps * scale) (omega (arith, v.rate)) below)

-- One refill earns at most what the time since the last one pays for, and a nanosecond's worth.
abbrev pub Earned : Budget → Budget → Type 0
Earned b b' =
    b'.balance * second + b.updated * per_ns b
    ≤ b.balance * second + b'.updated * per_ns b + per_ns b

credit-Earned :
    (b : Budget) (now add : ℕ)
    → IsSound b now
    → add ≤ (now - b.updated) * b.rps * scale / second
    → add ≤ b.burst - b.balance
    → IsSound (credit b now add) now × Earned b (credit b now add)
unfolding credit
credit-Earned b now add v h k =
    let (below, consumed) = credit_consumed b now add v h in
    let rounded = lt-div_mul (add * second) (b.rps * scale) (omega (arith, v.rate)) in
    let spent : (b.updated + add * second / (b.rps * scale)) * (b.rps * scale)
        ≡ b.updated * (b.rps * scale) + add * second / (b.rps * scale) * (b.rps * scale) =
      omega arith in
    let time : b.updated * (b.rps * scale) + (now - b.updated) * (b.rps * scale)
        ≡ now * (b.rps * scale) =
      mul_sub_add b.updated now (b.rps * scale) v.past in
    ground (arith, below, consumed, rounded, spent, time, h, k, v)

credit-same :
    (b : Budget) (now add : ℕ)
    → ((credit b now add).rps ≡ b.rps)
      × ((credit b now add).burst ≡ b.burst)
      × (b.updated ≤ now → b.updated ≤ (credit b now add).updated)
unfolding credit
credit-same b now add = (ground arith, ground arith, λ h. ground arith)

-- A refill leaves the balance within the burst and adds no more than the time since the last refill
-- pays for at `rps`, and one nanosecond's worth for the rounding; it changes no rate.
pub refill-Earned :
    (b : Budget) (now : ℕ)
    → IsSound b now
    → IsSound (refill b now) now
      × Earned b (refill b now)
      × (b.updated ≤ (refill b now).updated)
      × ((refill b now).rps ≡ b.rps)
      × ((refill b now).burst ≡ b.burst)
unfolding refill
refill-Earned b now v =
    let earned = (now - b.updated) * b.rps * scale / second in
    ground (
      arith,
      v,
      mul_le b.updated now (b.rps * scale) v.past,
      credit-Earned b now (min earned (b.burst - b.balance)) v,
      credit-same b now (min earned (b.burst - b.balance)),
    )
