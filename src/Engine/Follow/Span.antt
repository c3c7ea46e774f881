-- ===== src/Engine/Follow/Span.antt =====
-- The span of a tick of crates/engine/src/follow.rs.
use datalens.Prelude.{
  ℕ, zero, suc, ◌+◌, ◌-◌, ◌≤◌, ◌≡◌, ◌⊎◌, inl, inr, refl, min, max, true, Option, none, some, arith,
  Bool-cases, saturating_add, ltb,
}
use datalens.Core.Range.{BlockRange, new, max_end}
use datalens.Store.Codec.{ℤ, pos, negsuc, lebℤ}
use datalens.Engine.Follow.{next_span, next_height}

-- What a tick fetches after a head: nothing where the head is at `latest`, and else the next blocks up
-- to `latest`, or `cap` of them.
abbrev Next : ℤ → ℕ → ℕ → Option BlockRange → Type 0
Next head latest cap none = lebℤ (pos latest) head ≡ true
Next head latest cap (some r) =
    (next_height head ≡ some r.start)
    × (r.start ≤ r.end)
    × (r.end ≤ latest)
    × (r.end + 1 ≤ r.start + max cap 1)
    × ((r.end ≡ latest) ⊎ (r.end + 1 ≡ r.start + max cap 1))

new-Next :
    (head : ℤ) (start latest cap : ℕ)
    → next_height head ≡ some start
    → latest ≤ max_end
    → (latest + 1 ≤ start → lebℤ (pos latest) head ≡ true)
    → Next head latest cap (new start (min latest (saturating_add start (max cap 1 - 1))))
new-Next head start latest cap e h n = elim (Bool-cases (ltb latest start)) [
  | inl g ↦
      let none' : new start (min latest (saturating_add start (max cap 1 - 1))) ≡ none =
        unfold new in ground (arith, g) in
      rw none' (n (ground (arith, g)))
  | inr g ↦
      let end = min latest (saturating_add start (max cap 1 - 1)) in
      let some' : new start end ≡ some (record { start = start; end = end }) =
        unfold new in ground (arith, g, h) in
      rw some' (e, ground (arith, g), ground (arith, g), ground (arith, g), ground (arith, g, h))
]

-- Where the latest block is a block number, a tick fetches the next blocks after the head, at most `cap` of them and not
-- past `latest`, and none only where the head has reached `latest`.
next_span-Next :
    (head : ℤ) (latest cap : ℕ)
    → lebℤ (negsuc 0) head ≡ true
    → latest ≤ max_end
    → Next head latest cap (next_span head latest cap)
unfolding next_span
next_span-Next (pos n) latest cap l h =
    new-Next (pos n) (n + 1) latest cap refl h (λ e. ground (arith, e))
next_span-Next (negsuc zero) latest cap l h =
    new-Next (negsuc zero) 0 latest cap refl h (λ e. ground (arith, e))
next_span-Next (negsuc (suc n)) latest cap l h = ground (arith, l)
