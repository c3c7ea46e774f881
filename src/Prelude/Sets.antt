-- ===== src/Prelude/Sets.antt =====
-- Rust's `BTreeSet` of numbers: a list in strictly ascending order.
use Prim.Native.Nat.{ℕ}
use mathlib.Core.Path.{◌≡◌, refl}
use mathlib.Core.Bool.{Bool, true, false, ◌&&◌, ◌||◌}
use mathlib.Core.List.{List, [], ◌∷◌}
use native.Mathlib.Omega.{arith}
use datalens.Prelude.Tests.{ltb, ◌==◌, if◌then◌else◌}
use datalens.Prelude.Lists.{any, all}

unfoldable pub set_insert : ℕ → List ℕ → List ℕ
set_insert t [] = t ∷ []
set_insert t (b ∷ bs) =
    if ltb t b then t ∷ b ∷ bs else if t == b then b ∷ bs else b ∷ set_insert t bs

-- `collect::<BTreeSet<_>>()`
unfoldable pub set_collect : List ℕ → List ℕ
set_collect [] = []
set_collect (t ∷ ts) = set_insert t (set_collect ts)

abbrev pub set_contains : List ℕ → ℕ → Bool
set_contains set t = any (λ s. s == t) set

abbrev pub set_is_subset : List ℕ → List ℕ → Bool
set_is_subset narrow wide = all (set_contains wide) narrow

-- The derived `==` of two sets.
abbrev pub set_eq : List ℕ → List ℕ → Bool
set_eq [] [] = true
set_eq [] (b ∷ bs) = false
set_eq (a ∷ as') [] = false
set_eq (a ∷ as') (b ∷ bs) = a == b && set_eq as' bs

pub set_contains-insert :
    (t u : ℕ) (set : List ℕ) → set_contains (set_insert t set) u ≡ (t == u || set_contains set u)
unfolding set_insert
set_contains-insert t u [] = ground arith
set_contains-insert t u (b ∷ bs) = ground (arith, set_contains-insert t u bs)

pub set_contains-collect :
    (u : ℕ) (ts : List ℕ) → set_contains (set_collect ts) u ≡ set_contains ts u
unfolding set_collect
set_contains-collect u [] = refl
set_contains-collect u (t ∷ ts) =
    ground (arith, set_contains-insert t u (set_collect ts), set_contains-collect u ts)

pub subset-contains :
    (narrow wide : List ℕ) (u : ℕ)
    → set_is_subset narrow wide ≡ true
    → set_contains narrow u ≡ true
    → set_contains wide u ≡ true
subset-contains [] wide u s c = cc
subset-contains (t ∷ narrow) wide u s c = ground (arith, subset-contains narrow wide u)

pub subset_of_contains :
    (narrow wide : List ℕ)
    → ((u : ℕ) → set_contains narrow u ≡ true → set_contains wide u ≡ true)
    → set_is_subset narrow wide ≡ true
subset_of_contains [] wide h = refl
subset_of_contains (t ∷ narrow) wide h =
    ground (arith, h t, subset_of_contains narrow wide (λ u c. h u (ground arith)))

pub subset_refl : (set : List ℕ) → set_is_subset set set ≡ true
subset_refl set = subset_of_contains set set (λ u c. c)

pub set_eq→eq : (s t : List ℕ) → set_eq s t ≡ true → s ≡ t
set_eq→eq [] [] h = refl
set_eq→eq [] (b ∷ bs) h = cc
set_eq→eq (a ∷ s) [] h = cc
set_eq→eq (a ∷ s) (b ∷ t) h = ground (arith, set_eq→eq s t)
