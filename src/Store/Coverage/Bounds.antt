-- ===== src/Store/Coverage/Bounds.antt =====
-- The sorted set of bounds that `merge_spans` of crates/store/src/coverage.rs collects.
use datalens.Prelude.{ℕ, set_insert, ◌≤◌, ◌<◌, List, [], ◌∷◌, arith, ◌⊎◌, inl, All}
use datalens.Store.Coverage.{Span, insert_bounds}

-- Strictly ascending bounds from `a` on.
abbrev pub Ascending : ℕ → List ℕ → Type 0
Ascending a [] = Unit {0}
Ascending a (b ∷ bs) = (a < b) × Ascending b bs

-- No window between neighbours of `a ∷ bs` has `t` strictly inside, and `t` is not past the last.
abbrev pub Splits : ℕ → ℕ → List ℕ → Type 0
Splits t a [] = t ≤ a
Splits t a (b ∷ bs) = ((t ≤ a) ⊎ (b ≤ t)) × Splits t b bs

Splits-low : (t a : ℕ) (bs : List ℕ) → t ≤ a → Ascending a bs → Splits t a bs
Splits-low t a [] h up = h
Splits-low t a (b ∷ bs) h up = (inl h, Splits-low t b bs (omega arith) up.1)

Ascending-insert : (t a : ℕ) (bs : List ℕ) → a < t → Ascending a bs → Ascending a (set_insert t bs)
unfolding set_insert
Ascending-insert t a [] h up = (h, tt)
Ascending-insert t a (b ∷ bs) h up = ground (arith, Ascending-insert t b bs)

Splits-insert : (u t a : ℕ) (bs : List ℕ) → a < t → Splits u a bs → Splits u a (set_insert t bs)
unfolding set_insert
Splits-insert u t a [] h s = ground arith
Splits-insert u t a (b ∷ bs) h s = ground (arith, s.0, Splits-insert u t b bs)

Splits-insert_self : (t a : ℕ) (bs : List ℕ) → a < t → Ascending a bs → Splits t a (set_insert t bs)
unfolding set_insert
Splits-insert_self t a [] h up = ground arith
Splits-insert_self t a (b ∷ bs) h up = ground (arith, Splits-low t b bs, Splits-insert_self t b bs)

-- The same for a whole set of bounds.
abbrev pub IsAscending : List ℕ → Type 0
IsAscending [] = Unit {0}
IsAscending (a ∷ bs) = Ascending a bs

abbrev pub IsKnown : List ℕ → ℕ → Type 0
IsKnown [] t = ⊥
IsKnown (a ∷ bs) t = (a ≤ t) × Splits t a bs

pub set_insert-IsAscending : (t : ℕ) (bs : List ℕ) → IsAscending bs → IsAscending (set_insert t bs)
set_insert-IsAscending t [] up = unfold set_insert in tt
set_insert-IsAscending t (a ∷ bs) up = unfold set_insert in ground (arith, Ascending-insert t a bs)

pub set_insert-IsKnown : (u t : ℕ) (bs : List ℕ) → IsKnown bs u → IsKnown (set_insert t bs) u
set_insert-IsKnown u t [] k = absurd k
set_insert-IsKnown u t (a ∷ bs) k = unfold set_insert in ground (arith, Splits-insert u t a bs)

pub set_insert-IsKnown_self : (t : ℕ) (bs : List ℕ) → IsAscending bs → IsKnown (set_insert t bs) t
set_insert-IsKnown_self t [] up = unfold set_insert in omega arith
set_insert-IsKnown_self t (a ∷ bs) up =
    unfold set_insert in ground (arith, Splits-insert_self t a bs, Splits-low t a bs)

abbrev pub KnownSpan : List ℕ → Span → Type 0
KnownSpan bs s = IsKnown bs s.start × IsKnown bs s.end

pub insert_bounds-IsAscending :
    (ss : List Span) (bs : List ℕ) → IsAscending bs → IsAscending (insert_bounds ss bs)
unfolding insert_bounds
insert_bounds-IsAscending [] bs up = up
insert_bounds-IsAscending (s ∷ ss) bs up =
    insert_bounds-IsAscending ss _
      (set_insert-IsAscending s.end _ (set_insert-IsAscending s.start bs up))

pub insert_bounds-IsKnown :
    (u : ℕ) (ss : List Span) (bs : List ℕ) → IsKnown bs u → IsKnown (insert_bounds ss bs) u
unfolding insert_bounds
insert_bounds-IsKnown u [] bs k = k
insert_bounds-IsKnown u (s ∷ ss) bs k =
    insert_bounds-IsKnown u ss _ (set_insert-IsKnown u s.end _ (set_insert-IsKnown u s.start bs k))

pub insert_bounds-KnownSpan :
    (ss : List Span) (bs : List ℕ) → IsAscending bs → All (KnownSpan (insert_bounds ss bs)) ss
unfolding insert_bounds
insert_bounds-KnownSpan [] bs up = tt
insert_bounds-KnownSpan (s ∷ ss) bs up =
    let up1 = set_insert-IsAscending s.start bs up in
    let up2 = set_insert-IsAscending s.end (set_insert s.start bs) up1 in
    (
      (
        insert_bounds-IsKnown s.start ss _
            (set_insert-IsKnown s.start s.end _ (set_insert-IsKnown_self s.start bs up)),
        insert_bounds-IsKnown s.end ss _ (set_insert-IsKnown_self s.end _ up1),
      ),
      insert_bounds-KnownSpan ss _ up2,
    )
