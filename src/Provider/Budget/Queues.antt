-- ===== src/Provider/Budget/Queues.antt =====
-- Whom the queues of crates/provider/src/budget.rs hold before a caller.
use datalens.Prelude.{
  ℕ, zero, suc, ◌<◌, ◌≡◌, ◌↔◌, ◌∙◌, sym, refl, true, false, List, [], ◌∷◌, arith,
}
use datalens.Provider.Budget.{
  Budget, Purpose, rank, is_empty, any_before, queue_at, has_higher, has_same,
}

-- The queue of a rank.
abbrev pub queue_of : ℕ → List (List ℕ) → List ℕ
queue_of r [] = []
queue_of zero (q ∷ queues) = q
queue_of (suc r) (q ∷ queues) = queue_of r queues

is_empty_iff : (q : List ℕ) → (is_empty q ≡ true) ↔ (q ≡ [])
is_empty_iff [] = (λ e. refl, λ e. refl)
is_empty_iff (w ∷ ws) = (λ e. cc e, λ e. cc e)

queue_at-queue_of : (r : ℕ) (queues : List (List ℕ)) → queue_at r queues ≡ queue_of r queues
unfolding queue_at
queue_at-queue_of r [] = refl
queue_at-queue_of zero (q ∷ queues) = refl
queue_at-queue_of (suc r) (q ∷ queues) = queue_at-queue_of r queues

any_before-none :
    (n : ℕ) (queues : List (List ℕ))
    → any_before n queues ≡ false
    → (r : ℕ) → r < n
    → queue_of r queues ≡ []
unfolding any_before
any_before-none n [] e r h = refl
any_before-none zero (q ∷ queues) e r h = absurd (omega (arith, h))
any_before-none (suc n) (q ∷ queues) e zero h = (is_empty_iff q).0 (ground (arith, e))
any_before-none (suc n) (q ∷ queues) e (suc r) h =
    any_before-none n queues (ground (arith, e)) r (omega (arith, h))

none-any_before :
    (n : ℕ) (queues : List (List ℕ))
    → ((r : ℕ) → r < n → queue_of r queues ≡ [])
    → any_before n queues ≡ false
unfolding any_before
none-any_before zero queues h = refl
none-any_before (suc n) [] h = refl
none-any_before (suc n) (q ∷ queues) h =
    let first = (is_empty_iff q).1 (h 0 (omega arith)) in
    let rest = none-any_before n queues (λ r k. h (suc r) (omega (arith, k))) in
    ground (arith, first, rest)

pub has_higher-none :
    (b : Budget) (purpose : Purpose)
    → (has_higher b purpose ≡ false) ↔ ((r : ℕ) → r < rank purpose → queue_of r b.waiters ≡ [])
unfolding has_higher
has_higher-none b purpose =
    (any_before-none (rank purpose) b.waiters, none-any_before (rank purpose) b.waiters)

pub has_same-none :
    (b : Budget) (purpose : Purpose)
    → (has_same b purpose ≡ false) ↔ (queue_of (rank purpose) b.waiters ≡ [])
unfolding has_same
has_same-none b purpose =
    let own = queue_at-queue_of (rank purpose) b.waiters in
    let empty = is_empty_iff (queue_at (rank purpose) b.waiters) in
    (λ e. sym own ∙ empty.0 (ground (arith, e)), λ e. ground (arith, empty.1 (own ∙ e)))
