-- ===== src/Sdk/Cursor/Ascending.antt =====
-- The maps of sdks/rust/src/cursor.rs keep their keys in order.
use datalens.Prelude.{
  ℕ, ◌<◌, ◌≡◌, inl, inr, true, false, Option, none, some, List, [], ◌∷◌, arith, ltb, ◌==◌, All,
  All-imp, Bool-cases, Option-cases,
}
use datalens.Core.Wire.{Segment}
use datalens.Sdk.Cursor.{
  QueryResponse, Block, Seen, Entry, is_hot, in_hot, map_get, map_insert, anchor_hashes, row_hashes,
  hot_hashes,
}

-- The keys of a `BTreeMap` ascend.
abbrev pub Ascending : List Entry → Type 0
Ascending [] = Unit {0}
Ascending (e ∷ es) = All (λ x. e.number < x.number) es × Ascending es

-- A key that a map with higher keys only has is higher.
pub map_get-above :
    (k n : ℕ) (es : List Entry) (s : Seen)
    → All (λ x. k < x.number) es
    → map_get es n ≡ some s
    → k < n
unfolding map_get
map_get-above k n [] s a e = cc e
map_get-above k n (x ∷ es) s a e = ground (arith, a.0, e, map_get-above k n es s a.1)

map_insert-All :
    (k n : ℕ) (s : Seen) (es : List Entry)
    → k < n
    → All (λ x. k < x.number) es
    → All (λ x. k < x.number) (map_insert n s es)
unfolding map_insert
map_insert-All k n s [] h a = (h, tt)
map_insert-All k n s (e ∷ es) h a = elim (Bool-cases (ltb n e.number)) [
  | inl l ↦ rw l (h, (a.0, a.1))
  | inr l ↦ rw l (elim (Bool-cases (n == e.number)) [
    | inl f ↦ rw f (h, a.1)
    | inr f ↦ rw f (a.0, map_insert-All k n s es h a.1)
  ])
]

map_insert-Ascending :
    (n : ℕ) (s : Seen) (es : List Entry) → Ascending es → Ascending (map_insert n s es)
unfolding map_insert
map_insert-Ascending n s [] a = (tt, tt)
map_insert-Ascending n s (e ∷ es) a = elim (Bool-cases (ltb n e.number)) [
  | inl l ↦
      let low : n < e.number = ground (arith, l) in
      rw l ((low, All-imp es (λ x h. omega (arith, low, h)) a.0), a)
  | inr l ↦ rw l (elim (Bool-cases (n == e.number)) [
    | inl f ↦
        let same : n ≡ e.number = ground (arith, f) in
        rw f (All-imp es (λ x h. omega (arith, same, h)) a.0, a.1)
    | inr f ↦
        rw f (
          map_insert-All e.number n s es (ground (arith, l, f)) a.0,
          map_insert-Ascending n s es a.1,
        )
  ])
]

anchor_hashes-Ascending :
    (segments : List Segment) (hashes : List Entry)
    → Ascending hashes
    → Ascending (anchor_hashes segments hashes)
unfolding anchor_hashes
anchor_hashes-Ascending [] hashes a = a
anchor_hashes-Ascending (s ∷ segments) hashes a = elim (Option-cases s.anchor) [
  | inl e ↦ rw e (anchor_hashes-Ascending segments hashes a)
  | inr (anchor, e) ↦ rw e (elim (Bool-cases (is_hot s.source)) [
    | inr f ↦ rw f (anchor_hashes-Ascending segments hashes a)
    | inl f ↦ rw f (
        anchor_hashes-Ascending segments
          (map_insert anchor.number (record { hash = anchor.hash; rows = false }) hashes)
          (map_insert-Ascending anchor.number (record { hash = anchor.hash; rows = false }) hashes
            a))
  ])
]

row_hashes-Ascending :
    (segments : List Segment) (rows : List (Option Block)) (hashes : List Entry)
    → Ascending hashes
    → Ascending (row_hashes segments rows hashes)
unfolding row_hashes
row_hashes-Ascending segments [] hashes a = a
row_hashes-Ascending segments (none ∷ rows) hashes a = row_hashes-Ascending segments rows hashes a
row_hashes-Ascending segments (some b ∷ rows) hashes a =
    elim (Bool-cases (in_hot segments b.number)) [
      | inr f ↦ rw f (row_hashes-Ascending segments rows hashes a)
      | inl f ↦ rw f (
          row_hashes-Ascending segments rows
            (map_insert b.number (record { hash = b.hash; rows = true }) hashes)
            (map_insert-Ascending b.number (record { hash = b.hash; rows = true }) hashes a))
    ]

pub hot_hashes-Ascending : (r : QueryResponse) → Ascending (hot_hashes r)
unfolding hot_hashes
hot_hashes-Ascending r =
    row_hashes-Ascending r.segments r.rows (anchor_hashes r.segments [])
      (anchor_hashes-Ascending r.segments [] tt)
