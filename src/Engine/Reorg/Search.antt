-- ===== src/Engine/Reorg/Search.antt =====
-- What the binary search of `first_bad` in crates/engine/src/reorg.rs finds.
use datalens.Prelude.{
  ℕ, zero, suc, ◌+◌, ◌-◌, ◌/◌, ◌≤◌, ◌<◌, ◌≡◌, inl, inr, refl, Bool, true, false, Option, none, some,
  List, [], ◌∷◌, arith, ltb, ◌==◌, length, Bool-cases,
}
use datalens.Core.Wire.{B256}
use datalens.Engine.Reorg.{Point, bad_at, search, height_at, first_bad}

module _ (canonical : ℕ → Option B256) (points : List Point) where
  -- Where the search stops: at a bad point or at the end, just above a good point or at the start.
  search-boundary :
      (fuel low high : ℕ)
      → low ≤ high
      → high ≤ low + fuel
      → let m = search canonical fuel points low high in
        (low ≤ m)
        × (m ≤ high)
        × (m < high → bad_at canonical points m ≡ true)
        × (low < m → bad_at canonical points (m - 1) ≡ false)
  unfolding search
  search-boundary zero low high h k =
      (omega arith, omega arith, λ l. absurd (omega arith), λ l. absurd (omega arith))
  search-boundary (suc fuel) low high h k =
      let mid = (low + high) / 2 in
      elim (Bool-cases (ltb low high)) [
        | inr stop ↦
            rw stop
              (omega arith, ground arith, λ l. absurd (ground arith), λ l. absurd (ground arith))
        | inl go ↦ elim (Bool-cases (bad_at canonical points mid)) [
          | inl bad ↦
              rw (go, bad)
                (let (a, b, c, d) = search-boundary fuel low mid (ground arith) (ground arith) in
                  (a, ground arith, λ l. ground (arith, bad), d))
          | inr good ↦
              rw (go, good)
                (let (a, b, c, d) =
                    search-boundary fuel (mid + 1) high (ground arith) (ground arith) in
                  (ground arith, b, c, λ l. ground (arith, good)))
        ]
      ]

  height_at-eq-none : (ps : List Point) (i : ℕ) → height_at ps i ≡ none → length ps ≤ i
  unfolding height_at
  height_at-eq-none [] i e = omega arith
  height_at-eq-none (p ∷ ps) zero e = absurd (ground (arith, e))
  height_at-eq-none (p ∷ ps) (suc i) e = omega (arith, height_at-eq-none ps i e)

  height_at-eq-some : (ps : List Point) (i h : ℕ) → height_at ps i ≡ some h → i < length ps
  unfolding height_at
  height_at-eq-some [] i h e = absurd (ground (arith, e))
  height_at-eq-some (p ∷ ps) zero h e = omega arith
  height_at-eq-some (p ∷ ps) (suc i) h e = omega (arith, height_at-eq-some ps i h e)

  -- A point above a bad one is bad.
  abbrev pub Upward : Type 0
  Upward =
      (i j : ℕ)
      → i ≤ j
      → j < length points
      → bad_at canonical points i ≡ true
      → bad_at canonical points j ≡ true

  abbrev pub IsLowest : Option (ℕ × Bool) → Type 0
  IsLowest none = (i : ℕ) → i < length points → bad_at canonical points i ≡ false
  IsLowest (some found) =
      (m : ℕ) × (height_at points m ≡ some found.0)
      × (found.1 ≡ (m == 0))
      × (bad_at canonical points m ≡ true)
      × ((i : ℕ) → i < m → bad_at canonical points i ≡ false)

  good_below :
      (m i : ℕ)
      → Upward
      → m ≤ length points
      → (0 < m → bad_at canonical points (m - 1) ≡ false)
      → i < m
      → bad_at canonical points i ≡ false
  good_below m i up h good l = elim (Bool-cases (bad_at canonical points i)) [
    | inr fine ↦ fine
    | inl bad ↦
        let above = up i (m - 1) (omega arith) (omega arith) bad in
        absurd (ground (arith, above, good))
  ]

  -- Where badness goes upward, `first_bad` finds the lowest bad point, and says whether it is the
  -- first of all; it finds none only where every point is canonical.
  pub first_bad-IsLowest : Upward → IsLowest (first_bad canonical points)
  unfolding first_bad
  first_bad-IsLowest up =
      go (height_at points low) refl
        (search-boundary (length points) 0 (length points) (omega arith) (omega arith))
    where
      low : ℕ
      low = search canonical (length points) points 0 (length points)

      go :
          (o : Option ℕ)
          → height_at points low ≡ o
          → (0 ≤ low)
            × (low ≤ length points)
            × (low < length points → bad_at canonical points low ≡ true)
            × (0 < low → bad_at canonical points (low - 1) ≡ false)
          → IsLowest (first_bad canonical points)
      go none e (a, b, c, d) =
          rw (e, first_bad)
            (λ i l. good_below low i up b d (omega (arith, height_at-eq-none points low e)))
      go (some h) e (a, b, c, d) =
          rw (e, first_bad)
            (low, e, refl, c (height_at-eq-some points low h e), λ i l. good_below low i up b d l)
