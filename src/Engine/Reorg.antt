-- ===== src/Engine/Reorg.antt =====
-- crates/engine/src/reorg.rs: the search for the height from which stored rows left the canonical
-- chain. `canonical` is the chain's hash of a height, which a search reads once per height.
pub mod Search
mod Tests
use datalens.Prelude.{
  ℕ, zero, suc, ◌+◌, ◌/◌, Bool, true, false, not, Option, none, some, List, [], ◌∷◌, ltb, ◌==◌, any,
  length, if◌then◌else◌,
}
use datalens.Core.Wire.{B256}

-- An entry of `Points`: a height and the hashes stored for it.
pub record Point : Type 0 where
  pub height : ℕ
  pub hashes : List B256

abbrev is_hash : Option B256 → B256 → Bool
is_hash none hash = false
is_hash (some h) hash = h == hash

pub height_at : List Point → ℕ → Option ℕ
height_at [] i = none
height_at (p ∷ points) zero = some p.height
height_at (p ∷ points) (suc i) = height_at points i

module _ (canonical : ℕ → Option B256) where
  -- Some hash is not the canonical one.
  pub is_bad : Point → Bool
  is_bad p = any (λ hash. not (is_hash (canonical p.height) hash)) p.hashes

  pub bad_at : List Point → ℕ → Bool
  unfolding is_bad
  bad_at [] i = false
  bad_at (p ∷ points) zero = is_bad p
  bad_at (p ∷ points) (suc i) = bad_at points i

  -- The loop of `first_bad`, with fuel for its rounds.
  pub search : ℕ → List Point → ℕ → ℕ → ℕ
  unfolding bad_at
  search zero points low high = low
  search (suc fuel) points low high =
      let mid = (low + high) / 2 in
      let left = search fuel points low mid in
      let right = search fuel points (mid + 1) high in
      if ltb low high then (if bad_at points mid then left else right) else low

  pub first_bad : List Point → Option (ℕ × Bool)
  unfolding search height_at
  first_bad points =
      let low = search (length points) points 0 (length points) in
      elim (height_at points low) [ none ↦ none | some height ↦ some (height, low == 0) ]
