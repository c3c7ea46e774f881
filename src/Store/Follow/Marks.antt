-- ===== src/Store/Follow/Marks.antt =====
-- How each operation of crates/store/src/follow.rs moves the marks of a row.
use datalens.Prelude.{
  ℕ, ◌≡◌, refl, sym, ◌∙◌, ◌⊎◌, inl, inr, Bool, true, false, not, ◌&&◌, List, [], ◌∷◌, any,
  if◌then◌else◌, All, All-imp, arith, Bool-cases,
}
use datalens.Core.Wire.{B256}
use datalens.Store.Codec.{invalid, Result, ok, err, ℤ, pos, lebℤ, predℤ, u64_to_i64}
use datalens.Store.Follow.{
  FollowKey, FollowProgress, Followed, has_key, follow_row, update_rows, new_row, returning_row,
  follow_get_or_init, advance_follow_head, advance_follow_promoted, advance_follow_finalized,
}
use datalens.Store.Follow.Rows.{
  key_of, Ordered, IsValid, Keeps, Further, Onward, same-Onward, leℤ_refl, All-rows, no_row,
  next_row, only-row, update_rows-Onward,
}

-- The rows after an operation that may fail.
abbrev pub rows_after : List FollowProgress → Result Followed → List FollowProgress
rows_after rows (ok followed) = followed.rows
rows_after rows (err e) = rows

pub record After (rows : List FollowProgress) (r : Result Followed) : Type 0 where
  pub onward : Onward rows (rows_after rows r)

returned-After :
    (rows rows' : List FollowProgress) (r : Result FollowProgress)
    → IsValid rows
    → Onward rows rows'
    → After rows (returning_row rows' r)
returned-After rows rows' (ok row) v v' = record { onward = v' }
returned-After rows rows' (err e) v v' = record { onward = same-Onward rows v }

choose-After :
    (rows : List FollowProgress) (b : Bool) (x y : Result Followed)
    → After rows x
    → After rows y
    → After rows (if b then x else y)
choose-After rows true x y hx hy = hx
choose-After rows false x y hx hy = hy

leℤ_trans : (a b c : ℤ) → lebℤ a b ≡ true → lebℤ b c ≡ true → lebℤ a c ≡ true
leℤ_trans a b c = ground arith

none_with_key :
    (key : FollowKey) (rows : List FollowProgress)
    → any (has_key key) rows ≡ false
    → All (λ k. has_key key k ≡ false) rows
none_with_key key [] h = tt
none_with_key key (row ∷ rows) h = (ground (arith, h), none_with_key key rows (ground (arith, h)))

new_row-Ordered :
    (key : FollowKey) (from_block : ℕ) (head_hash : B256)
    → Ordered (new_row key from_block head_hash)
new_row-Ordered key from_block head_hash = record {
  starts = same (predℤ from_block);
  finalized = same (predℤ from_block);
  promoted = same (predℤ from_block);
}
  where
    same : (a : ℤ) → lebℤ a a ≡ true
    same a = ground arith

one_key :
    (k key : FollowKey) (r : FollowProgress)
    → has_key k (new_row key 0 0) ≡ true
    → has_key k r ≡ true
    → has_key key r ≡ false
    → ⊥
one_key k key r h g n = ground (arith, h, g, n)

found-has_key :
    (k key : FollowKey) (rows : List FollowProgress) (row : FollowProgress)
    → follow_row k rows ≡ ok row
    → has_key k (new_row key 0 0) ≡ true
    → All (λ r. has_key key r ≡ false) rows
    → ⊥
found-has_key k key [] row e h a = no_row k row e
found-has_key k key (r ∷ rows) row e h a = elim (Bool-cases (has_key k r)) [
  | inl g ↦ one_key k key r h g a.0
  | inr g ↦ found-has_key k key rows row (sym (next_row k r rows g) ∙ e) h a.1
]

new_row-other :
    (k key : FollowKey) (from_block : ℕ) (head_hash : B256) (rows : List FollowProgress)
    (row : FollowProgress)
    → follow_row k rows ≡ ok row
    → All (λ r. has_key key r ≡ false) rows
    → follow_row k (new_row key from_block head_hash ∷ rows) ≡ follow_row k rows
new_row-other k key from_block head_hash rows row e a =
    elim (Bool-cases (has_key k (new_row key from_block head_hash))) [
      | inr h ↦ next_row k (new_row key from_block head_hash) rows h
      | inl h ↦ absurd (found-has_key k key rows row e h a)
    ]

pub u64_to_i64-cases : (n : ℕ) → (u64_to_i64 n ≡ ok (pos n)) ⊎ (u64_to_i64 n ≡ err invalid)
unfolding u64_to_i64
u64_to_i64-cases n = ground arith

pub follow_get_or_init-After :
    (key : FollowKey) (from_block : ℕ) (head_hash : B256) (rows : List FollowProgress)
    → IsValid rows
    → After rows (follow_get_or_init key from_block head_hash rows)
unfolding follow_get_or_init
follow_get_or_init-After key from_block head_hash rows v = elim (u64_to_i64-cases from_block) [
  | inr f ↦ rw (f, follow_get_or_init) (record { onward = same-Onward rows v })
  | inl f ↦
      let inserted =
        if any (has_key key) rows then rows else new_row key from_block head_hash ∷ rows in
      rw (f, follow_get_or_init)
        (returned-After rows inserted (follow_row key inserted) v
          (one_more (any (has_key key) rows) refl))
]
  where
    one_more :
        (b : Bool)
        → any (has_key key) rows ≡ b
        → Onward rows (if b then rows else new_row key from_block head_hash ∷ rows)
    one_more true h = same-Onward rows v
    one_more false h = record {
      valid = (new_row-Ordered key from_block head_hash, (none_with_key key rows h, v));
      forward = λ k row e.
          rw (new_row-other k key from_block head_hash rows row e (none_with_key key rows h))
            ((same-Onward rows v).forward k row e);
    }

pub advance_follow_head-After :
    (key : FollowKey) (head_block : ℕ) (head_hash : B256) (rows : List FollowProgress)
    → IsValid rows
    → After rows (advance_follow_head key head_block head_hash rows)
unfolding advance_follow_head
advance_follow_head-After key head_block head_hash rows v = elim (u64_to_i64-cases head_block) [
  | inr f ↦ rw (f, advance_follow_head) (record { onward = same-Onward rows v })
  | inl f ↦
      let moves : FollowProgress → Bool =
        λ row. has_key key row && lebℤ row.head_block (pos head_block) in
      let move : FollowProgress → FollowProgress =
        λ row. record row { head_block = pos head_block; head_hash = head_hash } in
      let moved = update_rows-Onward moves move rows v (
        All-rows (Keeps moves move) rows (λ row. record {
          key = refl;
          order = λ m o. record {
            starts = o.starts;
            finalized = o.finalized;
            promoted =
                leℤ_trans row.promoted_to row.head_block (pos head_block) o.promoted
                  (ground (arith, m));
          };
          further = λ m o. (leℤ_refl row.promoted_to, leℤ_refl row.finalized_to);
        })) in
      rw (f, advance_follow_head)
        (choose-After rows (any moves rows) _ _
          (returned-After rows (update_rows moves move rows)
            (follow_row key (update_rows moves move rows)) v moved)
          (stays (pos head_block) (follow_row key rows)))
]
  where
    stays :
        (head : ℤ) (r : Result FollowProgress)
        → After rows (elim r as (λ x. Result Followed) [
          | err e ↦ err e
          | ok current ↦
              if not (lebℤ current.head_block head)
              then err invalid
              else ok (record { rows = rows; row = current })
        ])
    stays head (err e) = record { onward = same-Onward rows v }
    stays head (ok current) = elim (Bool-cases (lebℤ current.head_block head)) [
      | inl g ↦ rw g (record { onward = same-Onward rows v })
      | inr g ↦ rw g (record { onward = same-Onward rows v })
    ]

-- A mark of the one row with the key is set between two others of the row.
module _ (rows : List FollowProgress) (v : IsValid rows) (key : FollowKey) (mark : ℤ)
    (low high : FollowProgress → ℤ) (set : FollowProgress → FollowProgress)
    (same : (row : FollowProgress) → key_of (set row) ≡ key_of row)
    (order : (row : FollowProgress)
      → lebℤ (low row) mark ≡ true
      → lebℤ mark (high row) ≡ true
      → Ordered row
      → Ordered (set row))
    (further : (row : FollowProgress)
      → lebℤ (low row) mark ≡ true
      → Further row (ok (set row))) where
  set-Keeps :
      (current : FollowProgress)
      → lebℤ (low current) mark ≡ true
      → lebℤ mark (high current) ≡ true
      → (row : FollowProgress) → (has_key key row ≡ true → row ≡ current)
      → Keeps (has_key key) set row
  set-Keeps current g h row only = record {
    key = same row;
    order = λ m o. order row (rw (only m) g) (rw (only m) h) o;
    further = λ m o. further row (rw (only m) g);
  }

  set-After :
      (r : Result FollowProgress)
      → follow_row key rows ≡ r
      → After rows (elim r as (λ x. Result Followed) [
        | err e ↦ err e
        | ok current ↦
            if not (lebℤ (low current) mark)
            then err invalid
            else if not (lebℤ mark (high current))
            then err invalid
            else returning_row
                (update_rows (has_key key) set rows)
                (follow_row key (update_rows (has_key key) set rows))
      ])
  set-After (err e) c = record { onward = same-Onward rows v }
  set-After (ok current) c = elim (Bool-cases (lebℤ (low current) mark)) [
    | inr g ↦ rw g (record { onward = same-Onward rows v })
    | inl g ↦ elim (Bool-cases (lebℤ mark (high current))) [
      | inr h ↦ rw (g, h) (record { onward = same-Onward rows v })
      | inl h ↦
          rw (g, h)
            (returned-After rows (update_rows (has_key key) set rows)
              (follow_row key (update_rows (has_key key) set rows)) v
              (update_rows-Onward (has_key key) set rows v
                (All-imp rows (set-Keeps current g h) (only-row key rows current v c))))
    ]
  ]

pub advance_follow_promoted-After :
    (key : FollowKey) (promoted_to : ℕ) (rows : List FollowProgress)
    → IsValid rows
    → After rows (advance_follow_promoted key promoted_to rows)
unfolding advance_follow_promoted
advance_follow_promoted-After key promoted_to rows v = elim (u64_to_i64-cases promoted_to) [
  | inr f ↦ rw (f, advance_follow_promoted) (record { onward = same-Onward rows v })
  | inl f ↦
      rw (f, advance_follow_promoted)
        (set-After rows v key (pos promoted_to) (λ row. row.promoted_to) (λ row. row.head_block)
          (λ row. record row { promoted_to = pos promoted_to }) (λ row. refl)
          (λ row g h o. record {
            starts = o.starts;
            finalized = leℤ_trans row.finalized_to row.promoted_to (pos promoted_to) o.finalized g;
            promoted = h;
          })
          (λ row g. (g, leℤ_refl row.finalized_to)) (follow_row key rows) refl)
]

pub advance_follow_finalized-After :
    (key : FollowKey) (finalized_to : ℕ) (rows : List FollowProgress)
    → IsValid rows
    → After rows (advance_follow_finalized key finalized_to rows)
unfolding advance_follow_finalized
advance_follow_finalized-After key finalized_to rows v = elim (u64_to_i64-cases finalized_to) [
  | inr f ↦ rw (f, advance_follow_finalized) (record { onward = same-Onward rows v })
  | inl f ↦
      rw (f, advance_follow_finalized)
        (set-After rows v key (pos finalized_to) (λ row. row.finalized_to) (λ row. row.promoted_to)
          (λ row. record row { finalized_to = pos finalized_to }) (λ row. refl)
          (λ row g h o. record {
            starts =
                leℤ_trans (predℤ row.from_block) row.finalized_to (pos finalized_to) o.starts g;
            finalized = h;
            promoted = o.promoted;
          })
          (λ row g. (leℤ_refl row.promoted_to, g)) (follow_row key rows) refl)
]
