-- ===== src/Store/Follow/Rows.antt =====
-- The rows of `follow_progress` of crates/store/src/follow.rs: how their marks stand to each other, and
-- what an update of them keeps.
use datalens.Prelude.{
  ◌≡◌, refl, sym, ap, ◌∙◌, inl, inr, Bool, true, false, ◌&&◌, List, [], ◌∷◌, ◌==◌, if◌then◌else◌,
  All, All-imp, arith, Bool-cases, subst,
}
use datalens.Core.Wire.{dataset_eq}
use datalens.Store.Codec.{Result, ok, err, ℤ, lebℤ, predℤ}
use datalens.Store.Follow.{FollowKey, FollowProgress, has_key, follow_row, update_rows}

abbrev pub key_of : FollowProgress → FollowKey
key_of row = record {
  chain_id = row.chain_id;
  dataset = row.dataset;
  selector_id = row.selector_id;
}

-- `from_block - 1 <= finalized_to <= promoted_to <= head_block`
pub record Ordered (row : FollowProgress) : Type 0 where
  pub starts : lebℤ (predℤ row.from_block) row.finalized_to ≡ true
  pub finalized : lebℤ row.finalized_to row.promoted_to ≡ true
  pub promoted : lebℤ row.promoted_to row.head_block ≡ true

-- Each row is ordered, and no other row has its key.
abbrev pub IsValid : List FollowProgress → Type 0
IsValid [] = Unit {0}
IsValid (row ∷ rows) = Ordered row × (All (λ k. has_key (key_of row) k ≡ false) rows × IsValid rows)

abbrev SameKey : FollowProgress → FollowProgress → Type 0
SameKey row row' = key_of row' ≡ key_of row

-- A row's durable marks are at least what they were.
abbrev pub Further : FollowProgress → Result FollowProgress → Type 0
Further row (ok row') =
    (lebℤ row.promoted_to row'.promoted_to ≡ true)
    × (lebℤ row.finalized_to row'.finalized_to ≡ true)
Further row (err e) = ⊥

-- The rows after an operation: they are valid, and no row's durable marks moved back.
pub record Onward (rows rows' : List FollowProgress) : Type 0 where
  pub valid : IsValid rows'
  pub forward :
      (key : FollowKey) (row : FollowProgress)
      → follow_row key rows ≡ ok row
      → Further row (follow_row key rows')

pub leℤ_refl : (a : ℤ) → lebℤ a a ≡ true
leℤ_refl a = ground arith

pub same-Onward : (rows : List FollowProgress) → IsValid rows → Onward rows rows
same-Onward rows v = record {
  valid = v;
  forward = λ key row e. rw e (leℤ_refl row.promoted_to, leℤ_refl row.finalized_to);
}

-- The update keeps each row's key, moves no durable mark back, and the order of each row that it reaches.
pub record Keeps (p : FollowProgress → Bool) (f : FollowProgress → FollowProgress)
    (row : FollowProgress) : Type 0 where
  pub key : key_of (f row) ≡ key_of row
  pub order : p row ≡ true → Ordered row → Ordered (f row)
  pub further : p row ≡ true → Ordered row → Further row (ok (f row))

pub has_key-key_of :
    (key : FollowKey) (row row' : FollowProgress)
    → key_of row' ≡ key_of row
    → has_key key row' ≡ has_key key row
has_key-key_of key row row' e =
    ap
      (λ k.
        k.chain_id == key.chain_id
        && (dataset_eq k.dataset key.dataset && k.selector_id == key.selector_id))
      e

no_second :
    (key : FollowKey) (row k : FollowProgress)
    → has_key key row ≡ true
    → has_key (key_of row) k ≡ false
    → has_key key k ≡ false
no_second key row k h n = ground (arith, h, n)

found_row :
    (key : FollowKey) (row current : FollowProgress) (rows : List FollowProgress)
    → has_key key row ≡ true
    → follow_row key (row ∷ rows) ≡ ok current
    → row ≡ current
unfolding follow_row
found_row key row current rows h e = ground (arith, h, e)

here_row :
    (key : FollowKey) (row : FollowProgress) (rows : List FollowProgress)
    → has_key key row ≡ true
    → follow_row key (row ∷ rows) ≡ ok row
unfolding follow_row
here_row key row rows h = ground (arith, h)

pub no_row : (key : FollowKey) (row : FollowProgress) {P : Type 0} → follow_row key [] ≡ ok row → P
unfolding follow_row
no_row key row e = cc e

pub next_row :
    (key : FollowKey) (row : FollowProgress) (rows : List FollowProgress)
    → has_key key row ≡ false
    → follow_row key (row ∷ rows) ≡ follow_row key rows
unfolding follow_row
next_row key row rows h = ground (arith, h)

module _ (p : FollowProgress → Bool) (f : FollowProgress → FollowProgress) where
  updated : FollowProgress → FollowProgress
  updated row = if p row then f row else row

  updated-key : (row : FollowProgress) → Keeps p f row → key_of (updated row) ≡ key_of row
  unfolding updated
  updated-key row k = elim (Bool-cases (p row)) [ inl e ↦ rw e k.key | inr e ↦ rw e refl ]

  updated-Ordered : (row : FollowProgress) → Keeps p f row → Ordered row → Ordered (updated row)
  unfolding updated
  updated-Ordered row k o = elim (Bool-cases (p row)) [
    | inl e ↦ rw e (k.order e o)
    | inr e ↦ rw e o
  ]

  updated_apart :
      (key : FollowKey) (rows : List FollowProgress)
      → All (Keeps p f) rows
      → All (λ k. has_key key k ≡ false) rows
      → All (λ k. has_key key k ≡ false) (update_rows p f rows)
  unfolding update_rows updated
  updated_apart key [] k a = tt
  updated_apart key (row ∷ rows) k a = (
    has_key-key_of key row (updated row) (updated-key row k.0) ∙ a.0,
    updated_apart key rows k.1 a.1,
  )

  pub update_rows-IsValid :
      (rows : List FollowProgress)
      → IsValid rows
      → All (Keeps p f) rows
      → IsValid (update_rows p f rows)
  unfolding update_rows updated
  update_rows-IsValid [] v k = tt
  update_rows-IsValid (row ∷ rows) v k = (
    updated-Ordered row k.0 v.0,
    (
      subst (λ key. All (λ r. has_key key r ≡ false) (update_rows p f rows))
          (sym (updated-key row k.0)) (updated_apart (key_of row) rows k.1 v.1.0),
      update_rows-IsValid rows v.1.1 k.1,
    ),
  )

  updated-Further :
      (row : FollowProgress) → Keeps p f row → Ordered row → Further row (ok (updated row))
  unfolding updated
  updated-Further row k o = elim (Bool-cases (p row)) [
    | inl e ↦ rw e (k.further e o)
    | inr e ↦ rw e (leℤ_refl row.promoted_to, leℤ_refl row.finalized_to)
  ]

  update_rows-forward :
      (rows : List FollowProgress)
      → IsValid rows
      → All (Keeps p f) rows
      → (key : FollowKey) (row : FollowProgress) → follow_row key rows ≡ ok row
      → Further row (follow_row key (update_rows p f rows))
  unfolding update_rows updated
  update_rows-forward [] v k key row e = no_row key row e
  update_rows-forward (r ∷ rows) v k key row e =
      let h' = has_key-key_of key r (updated r) (updated-key r k.0) in
      elim (Bool-cases (has_key key r)) [
        | inl h ↦
            rw
              (
                here_row key (updated r) (update_rows p f rows) (h' ∙ h),
                sym (found_row key r row rows h e),
              )
              (updated-Further r k.0 v.0)
        | inr h ↦
            rw (next_row key (updated r) (update_rows p f rows) (h' ∙ h))
              (update_rows-forward rows v.1.1 k.1 key row (sym (next_row key r rows h) ∙ e))
      ]

  pub update_rows-Onward :
      (rows : List FollowProgress)
      → IsValid rows
      → All (Keeps p f) rows
      → Onward rows (update_rows p f rows)
  update_rows-Onward rows v k = record {
    valid = update_rows-IsValid rows v k;
    forward = update_rows-forward rows v k;
  }

-- The row that a search finds is the only one with the key.
pub only-row :
    (key : FollowKey) (rows : List FollowProgress) (current : FollowProgress)
    → IsValid rows
    → follow_row key rows ≡ ok current
    → All (λ row. has_key key row ≡ true → row ≡ current) rows
only-row key [] current v e = tt
only-row key (row ∷ rows) current v e = elim (Bool-cases (has_key key row)) [
  | inl h ↦ (
    (λ g. found_row key row current rows h e),
    All-imp rows (λ k n g. cc (no_second key row k h n, g)) v.1.0,
  )
  | inr h ↦ ((λ g. cc (h, g)), only-row key rows current v.1.1 (sym (next_row key row rows h) ∙ e))
]

pub All-rows :
    (P : FollowProgress → Type 0) (rows : List FollowProgress)
    → ((row : FollowProgress) → P row)
    → All P rows
All-rows P [] h = tt
All-rows P (row ∷ rows) h = (h row, All-rows P rows h)
