-- ===== src/Store/Coverage/Merge.antt =====
-- `merge_spans` of crates/store/src/coverage.rs, block by block.
use datalens.Prelude.{
  ℕ, set_insert, ◌≤◌, ◌<◌, ◌≡◌, refl, ◌&&◌, Option, none, List, [], ◌∷◌, arith, leb, ltb,
  if◌then◌else◌, ◌⊎◌, inl, inr, All, All-imp, Option-cases,
}
use datalens.Core.Finality.{Finality}
use datalens.Store.Coverage.{
  Span, finality_at, window_finality, insert_bounds, add_window, merge_windows, merge_spans,
}
use datalens.Store.Coverage.Bounds.{
  Ascending, Splits, IsAscending, IsKnown, KnownSpan, set_insert-IsAscending, set_insert-IsKnown,
  set_insert-IsKnown_self, insert_bounds-IsAscending, insert_bounds-IsKnown,
  insert_bounds-KnownSpan,
}
use datalens.Store.Coverage.Timeline.{
  Ordered, Coalesced, finality_at_above, finality_at-push_span, push_span-Ordered,
  push_span-Coalesced, Ordered-mono,
}

-- No span starts or ends strictly inside the window, so all its blocks have the finality of `a`.
finality_at_window :
    (a b x : ℕ) (ss : List Span)
    → All (λ s. ((s.start ≤ a) ⊎ (b ≤ s.start)) × ((s.end ≤ a) ⊎ (b ≤ s.end))) ss
    → a ≤ x
    → x < b
    → finality_at x ss ≡ finality_at a ss
finality_at_window a b x [] k l m = refl
finality_at_window a b x (s ∷ ss) k l m = ground (arith, k.0, finality_at_window a b x ss k.1 l m)

finality_at_below :
    (a x : ℕ) (bs : List ℕ) (ss : List Span)
    → All (KnownSpan (a ∷ bs)) ss
    → x < a
    → finality_at x ss ≡ none
finality_at_below a x bs [] k h = refl
finality_at_below a x bs (s ∷ ss) k h = ground (arith, finality_at_below a x bs ss k.1 h)

-- Both bounds of a span are among the windows' bounds, or outside them.
abbrev Known : ℕ → List ℕ → Span → Type 0
Known a bs s = Splits s.start a bs × Splits s.end a bs

Known-past_last : (a x : ℕ) (ss : List Span) → All (Known a []) ss → a ≤ x → finality_at x ss ≡ none
Known-past_last a x [] k h = refl
Known-past_last a x (s ∷ ss) k h = ground (arith, Known-past_last a x ss k.1 h)

Known-tail :
    (a b : ℕ) (bs : List ℕ) (ss : List Span) → All (Known a (b ∷ bs)) ss → All (Known b bs) ss
Known-tail a b bs ss k = All-imp ss (λ s h. (h.0.1, h.1.1)) k

Known-head :
    (a b : ℕ) (bs : List ℕ) (ss : List Span)
    → All (Known a (b ∷ bs)) ss
    → All (λ s. ((s.start ≤ a) ⊎ (b ≤ s.start)) × ((s.end ≤ a) ⊎ (b ≤ s.end))) ss
Known-head a b bs ss k = All-imp ss (λ s h. (h.0.0, h.1.0)) k

module _ (existing : List Span) (start end : ℕ) (finality : Finality) where
  -- What a block should have: the old finality, the new one inside the new range, or both joined.
  abbrev value : ℕ → Option Finality
  value x = window_finality (finality_at x existing) (leb start x && ltb x end) finality

  finality_at-add_window :
      (a b x lo : ℕ) (out : List Span)
      → a < b
      → Ordered lo out a
      → finality_at x (add_window existing start end finality a b out)
        ≡ (if leb a x && ltb x b then value a else finality_at x out)
  unfolding add_window
  finality_at-add_window a b x lo out less o = elim (Option-cases (value a)) [
    | inl e ↦ rw (e, add_window) (ground (arith, finality_at_above x lo a out o))
    | inr (fin, e) ↦
        rw (e, add_window) (ground (arith, finality_at-push_span a b fin less x lo out o))
  ]

  add_window-Ordered :
      (a b lo : ℕ) (out : List Span)
      → a < b
      → Ordered lo out a
      → Ordered lo (add_window existing start end finality a b out) b
  unfolding add_window
  add_window-Ordered a b lo out less o = elim (Option-cases (value a)) [
    | inl e ↦ rw (e, add_window) (ground (arith, Ordered-mono lo a b out))
    | inr (fin, e) ↦ rw (e, add_window) (ground (arith, push_span-Ordered a b fin less lo out o))
  ]

  add_window-Coalesced :
      (a b lo : ℕ) (out : List Span)
      → a < b
      → Ordered lo out a
      → Coalesced out
      → Coalesced (add_window existing start end finality a b out)
  unfolding add_window
  add_window-Coalesced a b lo out less o c = elim (Option-cases (value a)) [
    | inl e ↦ rw (e, add_window) (ground arith)
    | inr (fin, e) ↦
        rw (e, add_window) (ground (arith, push_span-Coalesced a b fin less lo out o c))
  ]

  merge_window-step :
      (a b x lo : ℕ) (bs : List ℕ) (out : List Span)
      → Ascending a (b ∷ bs)
      → Ordered lo out a
      → All (Known a (b ∷ bs)) existing
      → Splits start a (b ∷ bs)
      → Splits end a (b ∷ bs)
      → (finality_at x (
            merge_windows existing start end finality
              (b ∷ bs)
              (add_window existing start end finality a b out))
          ≡ (if ltb x b
              then finality_at x (add_window existing start end finality a b out)
              else value x))
      → finality_at x (merge_windows existing start end finality (a ∷ b ∷ bs) out)
        ≡ (if ltb x a then finality_at x out else value x)
  unfolding merge_windows
  merge_window-step a b x lo bs out up o k s e rest = ground (
    arith,
    rest,
    s.0,
    e.0,
    finality_at-add_window a b x lo out up.0 o,
    finality_at_window a b x existing (Known-head a b bs existing k),
  )

  finality_at-merge_windows :
      (a x lo : ℕ) (bs : List ℕ) (out : List Span)
      → Ascending a bs
      → Ordered lo out a
      → All (Known a bs) existing
      → Splits start a bs
      → Splits end a bs
      → finality_at x (merge_windows existing start end finality (a ∷ bs) out)
        ≡ (if ltb x a then finality_at x out else value x)
  finality_at-merge_windows a x lo [] out up o k s e =
      unfold merge_windows in
      ground (arith, Known-past_last a x existing k, finality_at_above x lo a out o)
  finality_at-merge_windows a x lo (b ∷ bs) out up o k s e =
      merge_window-step a b x lo bs out up o k s e (
        finality_at-merge_windows b x lo bs (add_window existing start end finality a b out) up.1
          (add_window-Ordered a b lo out up.0 o) (Known-tail a b bs existing k) s.1 e.1)

  merge_windows-Ordered :
      (a lo : ℕ) (bs : List ℕ) (out : List Span)
      → Ascending a bs
      → Ordered lo out a
      → Coalesced out
      → (hi : ℕ) × Ordered lo (merge_windows existing start end finality (a ∷ bs) out) hi
        × Coalesced (merge_windows existing start end finality (a ∷ bs) out)
  unfolding merge_windows
  merge_windows-Ordered a lo [] out up o c = (a, o, c)
  merge_windows-Ordered a lo (b ∷ bs) out up o c =
      merge_windows-Ordered b lo bs _ up.1 (add_window-Ordered a b lo out up.0 o)
        (add_window-Coalesced a b lo out up.0 o c)

  value_below :
      (a x : ℕ) (bs : List ℕ)
      → All (KnownSpan (a ∷ bs)) existing
      → a ≤ start
      → x < a
      → value x ≡ none
  value_below a x bs k s h = ground (arith, finality_at_below a x bs existing k h)

  merged :
      (bounds : List ℕ) (x : ℕ)
      → IsAscending bounds
      → All (KnownSpan bounds) existing
      → IsKnown bounds start
      → IsKnown bounds end
      → finality_at x (merge_windows existing start end finality bounds []) ≡ value x
  merged [] x up k s e = absurd s
  merged (a ∷ bs) x up k s e = ground (
    arith,
    value_below a x bs k s.0,
    finality_at-merge_windows a x 0 bs [] up (omega arith)
        (All-imp existing (λ t h. (h.0.1, h.1.1)) k) s.1 e.1,
  )

  merged-Ordered :
      (bounds : List ℕ)
      → IsAscending bounds
      → IsKnown bounds start
      → (hi : ℕ) × Ordered 0 (merge_windows existing start end finality bounds []) hi
        × Coalesced (merge_windows existing start end finality bounds [])
  merged-Ordered [] up s = absurd s
  merged-Ordered (a ∷ bs) up s = merge_windows-Ordered a 0 bs [] up (omega arith) tt

  abbrev first_bounds : List ℕ
  first_bounds = set_insert end (set_insert start [])

  first-IsAscending : IsAscending first_bounds
  first-IsAscending = set_insert-IsAscending end _ (set_insert-IsAscending start [] tt)

  -- Merging gives each block the finality it had outside the new range, the new one where it had
  -- none inside, and the stronger of both where it had one: nothing is lost and nothing downgraded.
  -- It holds of any existing spans, also of such as overlap.
  pub finality_at-merge_spans :
      (x : ℕ)
      → finality_at x (merge_spans existing start end finality)
        ≡ window_finality (finality_at x existing) (leb start x && ltb x end) finality
  unfolding merge_spans
  finality_at-merge_spans x =
      merged (insert_bounds existing first_bounds) x
        (insert_bounds-IsAscending existing _ first-IsAscending)
        (insert_bounds-KnownSpan existing _ first-IsAscending)
        (insert_bounds-IsKnown start existing _ (
          set_insert-IsKnown start end (set_insert start []) (set_insert-IsKnown_self start [] tt)))
        (insert_bounds-IsKnown end existing _
          (set_insert-IsKnown_self end (set_insert start []) (set_insert-IsAscending start [] tt)))

  -- The merged spans are non-empty, ascending and apart, and no span could be joined with the next
  -- one: the rows that the table's exclusion constraint allows, and the fewest of them.
  pub merge_spans-Ordered :
      (hi : ℕ) × Ordered 0 (merge_spans existing start end finality) hi
      × Coalesced (merge_spans existing start end finality)
  unfolding merge_spans
  merge_spans-Ordered =
      merged-Ordered (insert_bounds existing first_bounds)
        (insert_bounds-IsAscending existing _ first-IsAscending)
        (insert_bounds-IsKnown start existing _ (
          set_insert-IsKnown start end (set_insert start []) (set_insert-IsKnown_self start [] tt)))
