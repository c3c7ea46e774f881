-- ===== src/Evm/Blocks/Chunks.antt =====
-- The cuts of crates/evm/src/blocks.rs lose nothing, and how many rounds they can take.
use datalens.Prelude.{
  ℕ, zero, suc, ◌+◌, ◌-◌, ◌*◌, ◌/◌, ◌≤◌, ◌<◌, ◌≡◌, ◌∙◌, sym, ap, refl, List, [], ◌∷◌, ◌++◌, length,
  arith, length-append,
}
use datalens.Evm.Blocks.{take, drop, chunks_of}

module _ {T : Type 0} where
  abbrev pub concat : List (List T) → List T
  concat [] = []
  concat (xs ∷ xss) = xs ++ concat xss

  -- The rounds that a chunk can take: one, or as many as its halves and one more.
  abbrev pub weight : List T → ℕ
  weight [] = 1
  weight (x ∷ xs) = 2 * length xs + 1

  abbrev pub rounds : List (List T) → ℕ
  rounds [] = 0
  rounds (xs ∷ xss) = weight xs + rounds xss

  pub append_assoc : (xs ys zs : List T) → (xs ++ ys) ++ zs ≡ xs ++ (ys ++ zs)
  append_assoc [] ys zs = refl
  append_assoc (x ∷ xs) ys zs = ap (λ t. x ∷ t) (append_assoc xs ys zs)

  pub append_nil : (xs : List T) → xs ++ [] ≡ xs
  append_nil [] = refl
  append_nil (x ∷ xs) = ap (λ t. x ∷ t) (append_nil xs)

  pub take-drop : (n : ℕ) (xs : List T) → take n xs ++ drop n xs ≡ xs
  unfolding take drop
  take-drop zero xs = refl
  take-drop (suc n) [] = refl
  take-drop (suc n) (x ∷ xs) = ap (λ t. x ∷ t) (take-drop n xs)

  length-take : (n : ℕ) (xs : List T) → n ≤ length xs → length (take n xs) ≡ n
  unfolding take
  length-take zero xs h = refl
  length-take (suc n) [] h = ground (arith, h)
  length-take (suc n) (x ∷ xs) h = ground (arith, length-take n xs, h)

  length-drop : (n : ℕ) (xs : List T) → length (drop n xs) ≡ length xs - n
  unfolding drop
  length-drop zero xs = omega arith
  length-drop (suc n) [] = omega arith
  length-drop (suc n) (x ∷ xs) = ground (arith, length-drop n xs)

  weight-length : (xs : List T) → 1 ≤ length xs → weight xs + 1 ≡ 2 * length xs
  weight-length [] h = ground (arith, h)
  weight-length (x ∷ xs) h = omega arith

  pub weight_pos : (xs : List T) → 1 ≤ weight xs
  weight_pos [] = omega arith
  weight_pos (x ∷ xs) = omega arith

  -- The halves of a chunk take a round less than the chunk.
  pub weight-halves :
      (xs : List T)
      → 1 < length xs
      → weight (take (length xs / 2) xs) + weight (drop (length xs / 2) xs) + 1 ≤ weight xs
  weight-halves xs h =
      let n = length xs / 2 in
      let t = length-take n xs (omega arith) in
      let d = length-drop n xs in
      omega (
        arith,
        h,
        t,
        d,
        weight-length xs (omega (arith, h)),
        weight-length (take n xs) (omega (arith, t, h)),
        weight-length (drop n xs) (omega (arith, d, h)),
      )

  drop_shorter : (n : ℕ) (x : T) (xs : List T) → 0 < n → length (drop n (x ∷ xs)) ≤ length xs
  drop_shorter n x xs h = omega (arith, length-drop n (x ∷ xs), h)

  pub concat-chunks_of :
      (fuel size : ℕ) (xs : List T)
      → 0 < size
      → length xs ≤ fuel
      → concat (chunks_of fuel size xs) ≡ xs
  unfolding chunks_of
  concat-chunks_of fuel size [] p h = refl
  concat-chunks_of zero size (x ∷ xs) p h = ground (arith, h)
  concat-chunks_of (suc fuel) size (x ∷ xs) p h =
      ap (λ t. take size (x ∷ xs) ++ t)
        (concat-chunks_of fuel size (drop size (x ∷ xs)) p
          (omega (arith, drop_shorter size x xs p, h)))
      ∙ take-drop size (x ∷ xs)

  weight-take :
      (n : ℕ) (x : T) (xs : List T)
      → 0 < n
      → weight (take n (x ∷ xs)) + 1 ≡ 2 * length (take n (x ∷ xs))
  unfolding take
  weight-take zero x xs h = ground (arith, h)
  weight-take (suc n) x xs h = omega arith

  pub rounds-chunks_of :
      (fuel size : ℕ) (xs : List T)
      → 0 < size
      → length xs ≤ fuel
      → rounds (chunks_of fuel size xs) ≤ 2 * length xs
  unfolding chunks_of
  rounds-chunks_of fuel size [] p h = omega arith
  rounds-chunks_of zero size (x ∷ xs) p h = ground (arith, h)
  rounds-chunks_of (suc fuel) size (x ∷ xs) p h =
      let rest =
        rounds-chunks_of fuel size (drop size (x ∷ xs)) p
          (omega (arith, drop_shorter size x xs p, h)) in
      let whole =
        sym (length-append (take size (x ∷ xs)) (drop size (x ∷ xs)))
        ∙ ap length (take-drop size (x ∷ xs)) in
      omega (arith, rest, whole, weight-take size x xs p)
