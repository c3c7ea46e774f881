-- ===== src/Store/Coverage/Timeline.antt =====
-- Ascending bounds and spans, for `merge_spans` of crates/store/src/coverage.rs.
use datalens.Prelude.{
  ℕ, ◌≤◌, ◌<◌, ◌≡◌, refl, Bool, false, ◌&&◌, none, some, List, [], ◌∷◌, arith, leb, ltb, ◌==◌,
  if◌then◌else◌,
}
use datalens.Core.Finality.{Finality, as_i16, as_i16_inj}
use datalens.Store.Coverage.{Span, finality_at, push_span}

-- Non-empty spans in ascending order that do not meet, between two bounds.
abbrev pub Ordered : ℕ → List Span → ℕ → Type 0
Ordered lo [] hi = lo ≤ hi
Ordered lo (s ∷ ss) hi = (lo ≤ s.start) × (s.start < s.end) × Ordered s.end ss hi

-- Spans that touch have different finality: none could be joined to the next.
abbrev touches : Span → Span → Bool
touches s t = s.end == t.start && as_i16 s.finality == as_i16 t.finality

abbrev pub Coalesced : List Span → Type 0
Coalesced [] = Unit {0}
Coalesced (s ∷ []) = Unit {0}
Coalesced (s ∷ t ∷ ss) = (touches s t ≡ false) × Coalesced (t ∷ ss)

pub Ordered-le : (lo hi : ℕ) (ss : List Span) → Ordered lo ss hi → lo ≤ hi
Ordered-le lo hi [] o = o
Ordered-le lo hi (s ∷ ss) o = omega (arith, Ordered-le s.end hi ss o.2)

pub Ordered-mono :
    (lo hi hi' : ℕ) (ss : List Span) → hi ≤ hi' → Ordered lo ss hi → Ordered lo ss hi'
Ordered-mono lo hi hi' [] h o = omega arith
Ordered-mono lo hi hi' (s ∷ ss) h o = (o.0, o.1, Ordered-mono s.end hi hi' ss h o.2)

pub finality_at_above :
    (x lo hi : ℕ) (ss : List Span) → Ordered lo ss hi → hi ≤ x → finality_at x ss ≡ none
finality_at_above x lo hi [] o h = refl
finality_at_above x lo hi (s ∷ ss) o h =
    ground (arith, finality_at_above x s.end hi ss o.2, Ordered-le s.end hi ss o.2)

module _ (a b : ℕ) (fin : Finality) (less : a < b) where
  pub push_span-Ordered :
      (lo : ℕ) (out : List Span) → Ordered lo out a → Ordered lo (push_span out a b fin) b
  unfolding push_span
  push_span-Ordered lo [] o = ground arith
  push_span-Ordered lo (s ∷ []) o = ground arith
  push_span-Ordered lo (s ∷ t ∷ out) o = (o.0, o.1, push_span-Ordered s.end (t ∷ out) o.2)

  pub finality_at-push_span :
      (x lo : ℕ) (out : List Span)
      → Ordered lo out a
      → finality_at x (push_span out a b fin)
        ≡ (if leb a x && ltb x b then some fin else finality_at x out)
  unfolding push_span
  finality_at-push_span x lo [] o = ground arith
  finality_at-push_span x lo (s ∷ []) o = ground (arith, as_i16_inj s.finality fin)
  finality_at-push_span x lo (s ∷ t ∷ out) o =
      ground (arith, finality_at-push_span x s.end (t ∷ out) o.2, Ordered-le s.end a (t ∷ out) o.2)

  pub push_span-Coalesced :
      (lo : ℕ) (out : List Span)
      → Ordered lo out a
      → Coalesced out
      → Coalesced (push_span out a b fin)
  unfolding push_span
  push_span-Coalesced lo [] o c = tt
  push_span-Coalesced lo (s ∷ []) o c = ground arith
  push_span-Coalesced lo (s ∷ t ∷ []) o c = ground arith
  push_span-Coalesced lo (s ∷ t ∷ u ∷ out) o c =
      (c.0, push_span-Coalesced s.end (t ∷ u ∷ out) o.2 c.1)
