-- ===== src/Store/Jobs/Rows.antt =====
-- The rows of `fill_jobs` of crates/store/src/jobs.rs: what every table keeps, and which rows an
-- `update` that names its rows by their ids reaches.
use datalens.Prelude.{
  ℕ, zero, suc, ◌<◌, ◌≡◌, refl, inl, inr, Bool, true, false, ◌&&◌, ◌||◌, none, some, List, [], ◌∷◌,
  All, All-imp2, ◌==◌, set_contains, if◌then◌else◌, arith, Bool-cases,
}
use datalens.Store.Jobs.{
  Job, JobTable, is_active, is_running, is_chunk, chunk_of, update_where, select_where,
  delete_where, insert_by, sort_by, take_jobs, ids_of,
}

-- A running row has a worker and a lease.
abbrev pub is_leased : Job → Bool
is_leased j =
    (elim j.worker_id [ none ↦ false | some worker ↦ true ])
    && (elim j.lease_until [ none ↦ false | some until ↦ true ])

-- Two rows have other ids, and are not both active for one chunk.
pub record Apart (j k : Job) : Type 0 where
  pub ids : (j.id == k.id) ≡ false
  pub chunks : (is_active j && is_active k && is_chunk (chunk_of j) k) ≡ false

pub record RowValid (next_id : ℕ) (j : Job) : Type 0 where
  pub below : j.id < next_id
  pub leased : is_running j.status ≡ true → is_leased j ≡ true

abbrev pub RowsValid : ℕ → List Job → Type 0
RowsValid next_id [] = Unit {0}
RowsValid next_id (j ∷ rows) = RowValid next_id j × (All (Apart j) rows × RowsValid next_id rows)

abbrev pub IsValid : JobTable → Type 0
IsValid t = RowsValid t.next_id t.rows

-- What an update leaves of a row.
pub record Keeps (j k : Job) : Type 0 where
  pub id : k.id ≡ j.id
  pub chain_id : k.chain_id ≡ j.chain_id
  pub dataset : k.dataset ≡ j.dataset
  pub selector_id : k.selector_id ≡ j.selector_id
  pub blocks : k.blocks ≡ j.blocks
  pub active : is_active k ≡ true → is_active j ≡ true
  pub leased : is_running k.status ≡ true → is_leased k ≡ true

Keeps-chunk :
    (a a' b b' : Job)
    → Keeps a a'
    → Keeps b b'
    → is_chunk (chunk_of a') b' ≡ is_chunk (chunk_of a) b
Keeps-chunk a a' b b' ka kb =
    rw
      (
        ka.chain_id, ka.dataset, ka.selector_id, ka.blocks, kb.chain_id, kb.dataset, kb.selector_id,
        kb.blocks,
      )
      refl

still_apart :
    (a b a' b' c c' : Bool)
    → (a' ≡ true → a ≡ true)
    → (b' ≡ true → b ≡ true)
    → c' ≡ c
    → (a && b && c) ≡ false
    → (a' && b' && c') ≡ false
still_apart a b true true c c' ha hb e h = ground (arith, ha refl, hb refl, e, h)
still_apart a b true false c c' ha hb e h = refl
still_apart a b false b' c c' ha hb e h = refl

Keeps-Apart : (a a' b b' : Job) → Keeps a a' → Keeps b b' → Apart a b → Apart a' b'
Keeps-Apart a a' b b' ka kb h = record {
  ids = rw (ka.id, kb.id) h.ids;
  chunks =
      still_apart (is_active a) (is_active b) (is_active a') (is_active b')
        (is_chunk (chunk_of a) b) (is_chunk (chunk_of a') b') ka.active kb.active
        (Keeps-chunk a a' b b' ka kb) h.chunks;
}

-- What an update does to each row that it reaches.
abbrev pub Safe : (Job → Bool) → (Job → Job) → Job → Type 0
Safe p f j = p j ≡ true → Keeps j (f j)

updated-Keeps :
    (p : Job → Bool) (f : Job → Job) (n : ℕ) (j : Job)
    → RowValid n j
    → Safe p f j
    → Keeps j (if p j then f j else j)
updated-Keeps p f n j v s = elim (Bool-cases (p j)) [
  | inl e ↦ rw e (s e)
  | inr e ↦ rw e (record {
    id = refl;
    chain_id = refl;
    dataset = refl;
    selector_id = refl;
    blocks = refl;
    active = λ h. h;
    leased = v.leased;
  })
]

updated-Apart :
    (p : Job → Bool) (f : Job → Job) (n : ℕ) (j j' : Job) (rows : List Job)
    → Keeps j j'
    → All (Apart j) rows
    → RowsValid n rows
    → All (Safe p f) rows
    → All (Apart j') (update_where p f rows)
unfolding update_where
updated-Apart p f n j j' [] k a v s = tt
updated-Apart p f n j j' (x ∷ rows) k a v s = (
  Keeps-Apart j j' x (if p x then f x else x) k (updated-Keeps p f n x v.0 s.0) a.0,
  updated-Apart p f n j j' rows k a.1 v.1.1 s.1,
)

pub update_where-Valid :
    (p : Job → Bool) (f : Job → Job) (n : ℕ) (rows : List Job)
    → RowsValid n rows
    → All (Safe p f) rows
    → RowsValid n (update_where p f rows)
unfolding update_where
update_where-Valid p f n [] v s = tt
update_where-Valid p f n (j ∷ rows) v s =
    let k = updated-Keeps p f n j v.0 s.0 in
    (
      record { below = rw k.id v.0.below; leased = k.leased },
      (
        updated-Apart p f n j (if p j then f j else j) rows k v.1.0 v.1.1 s.1,
        update_where-Valid p f n rows v.1.1 s.1,
      ),
    )

-- Which ids an ordered and limited selection has.
ids-insert_by :
    (before : Job → Job → Bool) (j : Job) (rows : List Job) (i : ℕ)
    → set_contains (ids_of (insert_by before j rows)) i
      ≡ (j.id == i || set_contains (ids_of rows) i)
unfolding insert_by
ids-insert_by before j [] i = refl
ids-insert_by before j (k ∷ rows) i = ground (arith, ids-insert_by before j rows i)

pub ids-sort_by :
    (before : Job → Job → Bool) (rows : List Job) (i : ℕ)
    → set_contains (ids_of (sort_by before rows)) i ≡ set_contains (ids_of rows) i
unfolding sort_by
ids-sort_by before [] i = refl
ids-sort_by before (j ∷ rows) i =
    ground (arith, ids-insert_by before j (sort_by before rows) i, ids-sort_by before rows i)

pub ids-take_jobs :
    (n : ℕ) (rows : List Job) (i : ℕ)
    → set_contains (ids_of (take_jobs n rows)) i ≡ true
    → set_contains (ids_of rows) i ≡ true
unfolding take_jobs
ids-take_jobs zero rows i h = cc
ids-take_jobs (suc n) [] i h = cc
ids-take_jobs (suc n) (j ∷ rows) i h = ground (arith, ids-take_jobs n rows i)

not_selected :
    (q : Job → Bool) (j : Job) (rows : List Job)
    → All (Apart j) rows
    → set_contains (ids_of (select_where q rows)) j.id ≡ false
unfolding select_where
not_selected q j [] a = refl
not_selected q j (k ∷ rows) a = ground (arith, a.0.ids, not_selected q j rows a.1)

ids-select_where :
    (q : Job → Bool) (j : Job) (rows : List Job) (i : ℕ)
    → set_contains (ids_of (select_where q (j ∷ rows))) i
      ≡ (q j && j.id == i || set_contains (ids_of (select_where q rows)) i)
unfolding select_where
ids-select_where q j rows i = ground arith

head_holds :
    (q : Job → Bool) (j : Job) (rows : List Job)
    → All (Apart j) rows
    → set_contains (ids_of (select_where q (j ∷ rows))) j.id ≡ true
    → q j ≡ true
head_holds q j rows a h = ground (arith, ids-select_where q j rows j.id, not_selected q j rows a, h)

tail_holds :
    (q : Job → Bool) (j : Job) (rows : List Job) (k : Job)
    → Apart j k
    → set_contains (ids_of (select_where q (j ∷ rows))) k.id ≡ true
    → set_contains (ids_of (select_where q rows)) k.id ≡ true
tail_holds q j rows k a h = ground (arith, ids-select_where q j rows k.id, a.ids, h)

-- A row whose id is selected is itself selected.
pub selected-holds :
    (q : Job → Bool) (n : ℕ) (rows : List Job)
    → RowsValid n rows
    → All (λ j. set_contains (ids_of (select_where q rows)) j.id ≡ true → q j ≡ true) rows
selected-holds q n [] v = tt
selected-holds q n (j ∷ rows) v = (
  head_holds q j rows v.1.0,
  All-imp2 rows (λ k a h e. h (tail_holds q j rows k a e)) v.1.0 (selected-holds q n rows v.1.1),
)

delete-Apart :
    (p : Job → Bool) (j : Job) (rows : List Job)
    → All (Apart j) rows
    → All (Apart j) (delete_where p rows)
unfolding delete_where
delete-Apart p j [] a = tt
delete-Apart p j (k ∷ rows) a = elim (Bool-cases (p k)) [
  | inl e ↦ rw e (delete-Apart p j rows a.1)
  | inr e ↦ rw e (a.0, delete-Apart p j rows a.1)
]

pub delete_where-Valid :
    (p : Job → Bool) (n : ℕ) (rows : List Job)
    → RowsValid n rows
    → RowsValid n (delete_where p rows)
unfolding delete_where
delete_where-Valid p n [] v = tt
delete_where-Valid p n (j ∷ rows) v = elim (Bool-cases (p j)) [
  | inl e ↦ rw e (delete_where-Valid p n rows v.1.1)
  | inr e ↦ rw e (v.0, (delete-Apart p j rows v.1.0, delete_where-Valid p n rows v.1.1))
]

pub Rows-each : (n : ℕ) (rows : List Job) → RowsValid n rows → All (RowValid n) rows
Rows-each n [] v = tt
Rows-each n (j ∷ rows) v = (v.0, Rows-each n rows v.1.1)
