-- ===== src/Store/Follow/Rewind.antt =====
-- Runs of the operations of crates/store/src/follow.rs, and where a rewind leaves the rows.
use datalens.Prelude.{
  ℕ, zero, suc, ◌≡◌, refl, ◌⊎◌, inl, inr, Bool, true, false, List, [], ◌∷◌, ◌==◌, if◌then◌else◌,
  All, arith, Bool-cases,
}
use datalens.Core.Wire.{B256}
use datalens.Store.Codec.{invalid, Result, ok, err, ℤ, pos, lebℤ, minℤ, maxℤ, predℤ, u64_to_i64}
use datalens.Store.Follow.{
  FollowKey, FollowProgress, follow_row, update_rows, follow_get_or_init, advance_follow_head,
  advance_follow_promoted, advance_follow_finalized, rewound, reaches_fork, rewind_follow,
  delete_unwatched_follow, has_key,
}
use datalens.Store.Follow.Rows.{
  IsValid, Keeps, Further, Onward, same-Onward, leℤ_refl, All-rows, update_rows-Onward,
}
use datalens.Store.Follow.Deleted.{delete_unwatched_follow-IsValid, delete_unwatched_follow-row}
use datalens.Store.Follow.Marks.{
  rows_after, follow_get_or_init-After, advance_follow_head-After, advance_follow_promoted-After,
  advance_follow_finalized-After, u64_to_i64-cases,
}

abbrev pub rewound_rows : List FollowProgress → Result (List FollowProgress) → List FollowProgress
rewound_rows rows (ok rows') = rows'
rewound_rows rows (err e) = rows

-- Each operation that changes the rows, whoever runs it.
pub data Step : List FollowProgress → List FollowProgress → Type 0 where
  initialised :
      (rows : List FollowProgress) (key : FollowKey) (from_block : ℕ) (head_hash : B256)
      → Step rows (rows_after rows (follow_get_or_init key from_block head_hash rows))
  head_advanced :
      (rows : List FollowProgress) (key : FollowKey) (head_block : ℕ) (head_hash : B256)
      → Step rows (rows_after rows (advance_follow_head key head_block head_hash rows))
  promoted_advanced :
      (rows : List FollowProgress) (key : FollowKey) (promoted_to : ℕ)
      → Step rows (rows_after rows (advance_follow_promoted key promoted_to rows))
  finalized_advanced :
      (rows : List FollowProgress) (key : FollowKey) (finalized_to : ℕ)
      → Step rows (rows_after rows (advance_follow_finalized key finalized_to rows))
  rewound_to :
      (rows : List FollowProgress) (chain from_block : ℕ) (head_hash : B256)
      → Step rows (rewound_rows rows (rewind_follow chain from_block head_hash rows))
  unwatched_deleted :
      (rows : List FollowProgress) (chain : ℕ) (watched : FollowProgress → Bool)
      → Step rows (delete_unwatched_follow chain watched rows)

pub data Reach (s : List FollowProgress) : List FollowProgress → Type 0 where
  here : Reach s s
  next : {t u : List FollowProgress} → Reach s t → Step t u → Reach s u

-- A step does not delete the row of a key: it deletes none, or those of another chain, or the key's
-- selector is watched.
abbrev pub Spared : {t u : List FollowProgress} → FollowKey → Step t u → Type 0
Spared key (initialised rows k from_block head_hash) = Unit
Spared key (head_advanced rows k head_block head_hash) = Unit
Spared key (promoted_advanced rows k promoted_to) = Unit
Spared key (finalized_advanced rows k finalized_to) = Unit
Spared key (rewound_to rows chain from_block head_hash) = Unit
Spared key (unwatched_deleted rows chain watched) =
    ((key.chain_id == chain) ≡ false)
    ⊎ ((row : FollowProgress) → has_key key row ≡ true → watched row ≡ true)

abbrev pub SparedAll : {t u : List FollowProgress} → FollowKey → Reach t u → Type 0
SparedAll key here = Unit
SparedAll key (next r s) = SparedAll key r × Spared key s

-- The rows after some steps are valid, and the marks of a key's row that none of them deleted did not
-- move back.
pub record OnwardFor (rows rows' : List FollowProgress) (Kept : FollowKey → Type 0) : Type 0 where
  pub valid : IsValid rows'
  pub forward :
      (key : FollowKey) (row : FollowProgress)
      → Kept key
      → follow_row key rows ≡ ok row
      → Further row (follow_row key rows')

max-right : (a b : ℤ) → lebℤ b (maxℤ a b) ≡ true
max-right a b = ground arith

rewound-Keeps :
    (chain fork : ℕ) (head_hash : B256) (row : FollowProgress)
    → Keeps (reaches_fork chain fork) (rewound fork head_hash) row
unfolding rewound
rewound-Keeps chain fork head_hash row = record {
  key = refl;
  order = λ m o. record {
    starts = o.starts;
    finalized = o.finalized;
    promoted = max-right (minℤ row.head_block (predℤ fork)) row.promoted_to;
  };
  further = λ m o. (leℤ_refl row.promoted_to, leℤ_refl row.finalized_to);
}

rewind_follow-Onward :
    (rows : List FollowProgress) (chain from_block : ℕ) (head_hash : B256)
    → IsValid rows
    → Onward rows (rewound_rows rows (rewind_follow chain from_block head_hash rows))
unfolding rewind_follow
rewind_follow-Onward rows chain from_block head_hash v = go (u64_to_i64 from_block)
  where
    go :
        (r : Result ℤ)
        → Onward rows (
            rewound_rows rows (elim r as (λ x. Result (List FollowProgress)) [
              | err e ↦ err e
              | ok n ↦
                  ok (
                    update_rows (reaches_fork chain from_block) (rewound from_block head_hash) rows)
            ]))
    go (err e) = same-Onward rows v
    go (ok n) =
        update_rows-Onward (reaches_fork chain from_block) (rewound from_block head_hash) rows v (
          All-rows (Keeps (reaches_fork chain from_block) (rewound from_block head_hash)) rows
            (rewound-Keeps chain from_block head_hash))

any_key : {t u : List FollowProgress} {Kept : FollowKey → Type 0} → Onward t u → OnwardFor t u Kept
any_key o = record { valid = o.valid; forward = λ key row k e. o.forward key row e }

Step-Onward :
    {t u : List FollowProgress} (s : Step t u) → IsValid t → OnwardFor t u (λ key. Spared key s)
Step-Onward (initialised rows key from_block head_hash) v =
    any_key (follow_get_or_init-After key from_block head_hash rows v).onward
Step-Onward (head_advanced rows key head_block head_hash) v =
    any_key (advance_follow_head-After key head_block head_hash rows v).onward
Step-Onward (promoted_advanced rows key promoted_to) v =
    any_key (advance_follow_promoted-After key promoted_to rows v).onward
Step-Onward (finalized_advanced rows key finalized_to) v =
    any_key (advance_follow_finalized-After key finalized_to rows v).onward
Step-Onward (rewound_to rows chain from_block head_hash) v =
    any_key (rewind_follow-Onward rows chain from_block head_hash v)
Step-Onward (unwatched_deleted rows chain watched) v = record {
  valid = delete_unwatched_follow-IsValid chain watched rows v;
  forward = λ key row k e.
      rw (delete_unwatched_follow-row key chain watched rows k, e)
        (leℤ_refl row.promoted_to, leℤ_refl row.finalized_to);
}

Further-trans :
    (a : FollowProgress) (b c : Result FollowProgress)
    → Further a b
    → ((row : FollowProgress) → b ≡ ok row → Further row c)
    → Further a c
Further-trans a (err e) c h g = absurd h
Further-trans a (ok b) (err e) h g = g b refl
Further-trans a (ok b) (ok c) h g = ground (arith, h, g b refl)

-- From valid rows, through any run of the operations on them, a rewind and the deletion of unwatched rows
-- included, the rows stay valid: in each `from_block - 1 <= finalized_to <= promoted_to <= head_block`,
-- and no two have one key. The row of a key that no deletion of the run reaches, since it is on another
-- chain or its selector was watched then, stays, and its `promoted_to` and `finalized_to` never move back.
pub Reach-Onward :
    {t u : List FollowProgress}
    → IsValid t
    → (r : Reach t u) → OnwardFor t u (λ key. SparedAll key r)
Reach-Onward {t} v here = any_key (same-Onward t v)
Reach-Onward {t} {u = w} v (next {t = u} r s) =
    let before = Reach-Onward v r in
    let step = Step-Onward s before.valid in
    record {
      valid = step.valid;
      forward = λ key row k e.
          Further-trans row (follow_row key u) (follow_row key w) (before.forward key row k.0 e)
            (λ row' e'. step.forward key row' k.1 e');
    }

-- Where a rewind to before `fork` leaves a row of the chain: below the fork, or at a promoted block with
-- an unknown hash.
abbrev pub Landed : ℕ → FollowProgress → Type 0
Landed fork row =
    (lebℤ row.head_block (predℤ fork) ≡ true)
    ⊎ ((row.head_block ≡ row.promoted_to) × (row.head_hash ≡ 0))

abbrev pub LandedRows : ℕ → ℕ → Result (List FollowProgress) → Type 0
LandedRows chain fork (ok rows) = All (λ row. (row.chain_id == chain) ≡ true → Landed fork row) rows
LandedRows chain fork (err e) = e ≡ invalid

at_promoted : (fork : ℕ) (h p : ℤ) → lebℤ (pos fork) p ≡ true → maxℤ (minℤ h (predℤ fork)) p ≡ p
at_promoted zero h p e = ground (arith, e)
at_promoted (suc fork) h p e = ground (arith, e)

below_fork :
    (fork : ℕ) (h p : ℤ)
    → lebℤ (pos fork) p ≡ false
    → lebℤ (maxℤ (minℤ h (predℤ fork)) p) (predℤ fork) ≡ true
below_fork zero h p e = ground (arith, e)
below_fork (suc fork) h p e = ground (arith, e)

not_at : (fork : ℕ) (h : ℤ) → lebℤ (pos fork) h ≡ false → lebℤ h (predℤ fork) ≡ true
not_at zero h e = ground (arith, e)
not_at (suc fork) h e = ground (arith, e)

rewound-Landed :
    (fork : ℕ) (head_hash : B256) (row : FollowProgress) → Landed fork (rewound fork head_hash row)
unfolding rewound
rewound-Landed fork head_hash row = elim (Bool-cases (lebℤ (pos fork) row.promoted_to)) [
  | inl e ↦ inr (at_promoted fork row.head_block row.promoted_to e, rw e refl)
  | inr e ↦ inl (below_fork fork row.head_block row.promoted_to e)
]

below-Landed :
    (chain fork : ℕ) (row : FollowProgress)
    → reaches_fork chain fork row ≡ false
    → (row.chain_id == chain) ≡ true
    → Landed fork row
below-Landed chain fork row h c = inl (not_at fork row.head_block (ground (arith, h, c)))

-- After a rewind to before `from_block`, the head of each row of the chain is below `from_block`, or it
-- is at `promoted_to` with the zero hash, which says that its block's hash is not known.
pub rewind_follow-LandedRows :
    (rows : List FollowProgress) (chain from_block : ℕ) (head_hash : B256)
    → LandedRows chain from_block (rewind_follow chain from_block head_hash rows)
unfolding rewind_follow update_rows
rewind_follow-LandedRows rows chain from_block head_hash = elim (u64_to_i64-cases from_block) [
  | inr f ↦ rw (f, rewind_follow) refl
  | inl f ↦ rw (f, rewind_follow) (land rows)
]
  where
    one :
        (row : FollowProgress) (b : Bool)
        → reaches_fork chain from_block row ≡ b
        → let row' = if b then rewound from_block head_hash row else row in
          (row'.chain_id == chain) ≡ true → Landed from_block row'
    one row true h c = rewound-Landed from_block head_hash row
    one row false h c = below-Landed chain from_block row h c

    land :
        (rows : List FollowProgress)
        → All
            (λ row. (row.chain_id == chain) ≡ true → Landed from_block row)
            (update_rows (reaches_fork chain from_block) (rewound from_block head_hash) rows)
    land [] = tt
    land (row ∷ rows) = (one row (reaches_fork chain from_block row) refl, land rows)
