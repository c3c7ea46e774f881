-- ===== src/Sdk/Cursor/Disagree.antt =====
-- Where a response disagrees with what a `ProvisionalCursor` of sdks/rust/src/cursor.rs saw.
use datalens.Prelude.{
  ℕ, ◌<◌, ◌≡◌, ◌∙◌, ◌⊎◌, ◌↔◌, sym, subst, refl, inl, inr, Bool, true, false, not, ◌&&◌, Option,
  none, some, List, [], ◌∷◌, ◌++◌, arith, ◌==◌, if◌then◌else◌, All, set_contains,
}
use datalens.Core.Wire.{B256}
use datalens.Sdk.Cursor.{
  QueryResponse, Seen, Entry, ProvisionalCursor, in_hot, map_get, hot_hashes, changed, vanished,
  has_rows, seen_with,
}
use datalens.Sdk.Cursor.Ascending.{Ascending, map_get-above, hot_hashes-Ascending}
use datalens.Sdk.Cursor.Hashes.{hot_at, row_hash, seen_at, in_hot-hot_at, map_get-hot_hashes}

-- A height whose hash is another than the one seen, or which had rows, and has none in a complete read of
-- a hot segment.
pub data Disagrees (c : ProvisionalCursor) (r : QueryResponse) (n : ℕ) : Type 0 where
  other_hash :
      (old new' : Seen)
      → map_get c.seen n ≡ some old
      → seen_at r n ≡ some new'
      → (old.hash == new'.hash) ≡ false
      → Disagrees c r n
  rows_gone :
      (old : Seen)
      → map_get c.seen n ≡ some old
      → old.rows ≡ true
      → r.complete ≡ true
      → hot_at r.segments n ≡ true
      → row_hash r.rows n ≡ none
      → Disagrees c r n

-- The heights that `fork_point` collects.
abbrev pub mismatches : ProvisionalCursor → QueryResponse → List ℕ
mismatches c r = changed c.seen (hot_hashes r) ++ vanished r (hot_hashes r) c.seen

set_contains-append :
    (xs ys : List ℕ) (n : ℕ)
    → (set_contains (xs ++ ys) n ≡ true) ↔ ((set_contains xs n ≡ true) ⊎ (set_contains ys n ≡ true))
set_contains-append [] ys n = (λ e. inr e, λ e. ground (arith, e))
set_contains-append (x ∷ xs) ys n = (
  λ e. ground (arith, e, set_contains-append xs ys n),
  λ e. ground (arith, e, set_contains-append xs ys n),
)

changed-contains :
    (seen hashes : List Entry) (n : ℕ) (old new' : Seen)
    → map_get seen n ≡ some old
    → map_get hashes n ≡ some new'
    → (old.hash == new'.hash) ≡ false
    → set_contains (changed seen hashes) n ≡ true
unfolding changed map_get
changed-contains seen [] n old new' e f h = cc f
changed-contains seen (x ∷ hashes) n old new' e f h =
    ground (arith, e, f, h, changed-contains seen hashes n old new' e)

vanished-contains :
    (r : QueryResponse) (hashes seen : List Entry) (n : ℕ) (old : Seen)
    → map_get seen n ≡ some old
    → old.rows ≡ true
    → r.complete ≡ true
    → in_hot r.segments n ≡ true
    → has_rows (map_get hashes n) ≡ false
    → set_contains (vanished r hashes seen) n ≡ true
unfolding vanished map_get
vanished-contains r hashes [] n old e o f h g = cc e
vanished-contains r hashes (x ∷ seen) n old e o f h g =
    ground (arith, e, o, f, h, g, vanished-contains r hashes seen n old)

no_rows-has_rows :
    (r : QueryResponse) (n : ℕ)
    → row_hash r.rows n ≡ none
    → has_rows (map_get (hot_hashes r) n) ≡ false
no_rows-has_rows r n e = ground (arith, e, map_get-hot_hashes r n)

pub Disagrees-mismatches :
    (c : ProvisionalCursor) (r : QueryResponse) (n : ℕ)
    → Disagrees c r n
    → set_contains (mismatches c r) n ≡ true
Disagrees-mismatches c r n (other_hash old new' e f h) =
    (set_contains-append (changed c.seen (hot_hashes r)) (vanished r (hot_hashes r) c.seen) n).1
      (inl (changed-contains c.seen (hot_hashes r) n old new' e (map_get-hot_hashes r n ∙ f) h))
Disagrees-mismatches c r n (rows_gone old e o f h g) =
    (set_contains-append (changed c.seen (hot_hashes r)) (vanished r (hot_hashes r) c.seen) n).1 (
      inr (
        vanished-contains r (hot_hashes r) c.seen n old e o f (in_hot-hot_at r.segments n ∙ h)
          (no_rows-has_rows r n g)))

-- What a member of either list says, where the keys ascend.
pub record Changed (seen hashes : List Entry) (n : ℕ) : Type 0 where
  pub old : Seen
  pub new' : Seen
  pub was : map_get seen n ≡ some old
  pub is : map_get hashes n ≡ some new'
  pub apart : (old.hash == new'.hash) ≡ false

seen_with-some :
    (hash : B256) (o : Option Seen)
    → seen_with (λ h. not (h == hash)) o ≡ true
    → (old : Seen) × (o ≡ some old) × ((old.hash == hash) ≡ false)
seen_with-some hash none e = cc e
seen_with-some hash (some old) e = (old, refl, ground (arith, e))

next_entry :
    (x : Entry) (es : List Entry) (n : ℕ) (s : Seen)
    → All (λ y. x.number < y.number) es
    → map_get es n ≡ some s
    → map_get (x ∷ es) n ≡ some s
unfolding map_get
next_entry x es n s a e = ground (arith, e, map_get-above x.number n es s a)

this_entry : (x : Entry) (es : List Entry) → map_get (x ∷ es) x.number ≡ some x.seen
unfolding map_get
this_entry x es = ground arith

next-Changed :
    (seen hashes : List Entry) (x : Entry) (n : ℕ)
    → All (λ y. x.number < y.number) hashes
    → Changed seen hashes n
    → Changed seen (x ∷ hashes) n
next-Changed seen hashes x n a c = record {
  old = c.old;
  new' = c.new';
  was = c.was;
  is = next_entry x hashes n c.new' a c.is;
  apart = c.apart;
}

this-Changed :
    (seen hashes : List Entry) (x : Entry)
    → seen_with (λ h. not (h == x.seen.hash)) (map_get seen x.number) ≡ true
    → Changed seen (x ∷ hashes) x.number
this-Changed seen hashes x f =
    let (old, was, apart) = seen_with-some x.seen.hash (map_get seen x.number) f in
    record { old = old; new' = x.seen; was = was; is = this_entry x hashes; apart = apart }

this_or_later :
    (k n : ℕ) (p : Bool) (ns : List ℕ)
    → set_contains (if p then k ∷ ns else ns) n ≡ true
    → ((p ≡ true) × (k ≡ n)) ⊎ (set_contains ns n ≡ true)
this_or_later k n false ns m = inr m
this_or_later k n true ns m = ground (arith, m)

changed-Changed :
    (seen hashes : List Entry) (n : ℕ)
    → Ascending hashes
    → set_contains (changed seen hashes) n ≡ true
    → Changed seen hashes n
unfolding changed
changed-Changed seen [] n a m = cc m
changed-Changed seen (x ∷ hashes) n a m =
    elim (this_or_later x.number n (seen_with (λ h. not (h == x.seen.hash)) (map_get seen x.number))
      (changed seen hashes) m) [
        | inl (f, same) ↦
            subst (λ k. Changed seen (x ∷ hashes) k) same (this-Changed seen hashes x f)
        | inr k ↦ next-Changed seen hashes x n a.0 (changed-Changed seen hashes n a.1 k)
      ]

-- The rows of a height that are gone.
pub record Gone (r : QueryResponse) (hashes seen : List Entry) (n : ℕ) : Type 0 where
  pub old : Seen
  pub was : map_get seen n ≡ some old
  pub rows : old.rows ≡ true
  pub complete : r.complete ≡ true
  pub hot : in_hot r.segments n ≡ true
  pub gone : has_rows (map_get hashes n) ≡ false

next-Gone :
    (r : QueryResponse) (hashes seen : List Entry) (x : Entry) (n : ℕ)
    → All (λ y. x.number < y.number) seen
    → Gone r hashes seen n
    → Gone r hashes (x ∷ seen) n
next-Gone r hashes seen x n a g = record {
  old = g.old;
  was = next_entry x seen n g.old a g.was;
  rows = g.rows;
  complete = g.complete;
  hot = g.hot;
  gone = g.gone;
}

this-Gone :
    (r : QueryResponse) (hashes seen : List Entry) (x : Entry)
    → (r.complete
        && (x.seen.rows
            && (in_hot r.segments x.number && not (has_rows (map_get hashes x.number)))))
      ≡ true
    → Gone r hashes (x ∷ seen) x.number
this-Gone r hashes seen x f = record {
  old = x.seen;
  was = this_entry x seen;
  rows = ground (arith, f);
  complete = ground (arith, f);
  hot = ground (arith, f);
  gone = ground (arith, f);
}

vanished-Gone :
    (r : QueryResponse) (hashes seen : List Entry) (n : ℕ)
    → Ascending seen
    → set_contains (vanished r hashes seen) n ≡ true
    → Gone r hashes seen n
unfolding vanished
vanished-Gone r hashes [] n a m = cc m
vanished-Gone r hashes (x ∷ seen) n a m =
    elim (this_or_later x.number n
      (r.complete
        && (x.seen.rows
            && (in_hot r.segments x.number && not (has_rows (map_get hashes x.number)))))
      (vanished r hashes seen) m) [
        | inl (f, same) ↦ subst (λ k. Gone r hashes (x ∷ seen) k) same (this-Gone r hashes seen x f)
        | inr k ↦ next-Gone r hashes seen x n a.0 (vanished-Gone r hashes seen n a.1 k)
      ]

has_rows-no_rows :
    (r : QueryResponse) (n : ℕ)
    → hot_at r.segments n ≡ true
    → has_rows (map_get (hot_hashes r) n) ≡ false
    → row_hash r.rows n ≡ none
has_rows-no_rows r n h e = ground (arith, h, e, map_get-hot_hashes r n)

pub mismatches-Disagrees :
    (c : ProvisionalCursor) (r : QueryResponse) (n : ℕ)
    → Ascending c.seen
    → set_contains (mismatches c r) n ≡ true
    → Disagrees c r n
mismatches-Disagrees c r n a m =
    elim ((set_contains-append (changed c.seen (hot_hashes r)) (vanished r (hot_hashes r) c.seen)
        n).0
      m) [
        | inl k ↦
            let d = changed-Changed c.seen (hot_hashes r) n (hot_hashes-Ascending r) k in
            other_hash d.old d.new' d.was (sym (map_get-hot_hashes r n) ∙ d.is) d.apart
        | inr k ↦
            let g = vanished-Gone r (hot_hashes r) c.seen n a k in
            let hot = sym (in_hot-hot_at r.segments n) ∙ g.hot in
            rows_gone g.old g.was g.rows g.complete hot (has_rows-no_rows r n hot g.gone)
      ]
