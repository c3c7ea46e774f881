-- ===== src/Store/Jobs/Enqueue.antt =====
-- What a caller of `enqueue` of crates/store/src/jobs.rs gets while other sessions commit.
use datalens.Prelude.{
  ℕ, ◌+◌, ◌-◌, ◌≡◌, refl, subst, inl, inr, Bool, true, false, ◌&&◌, ◌||◌, Option, none, some, List,
  [], ◌∷◌, All, ◌==◌, any, arith, Bool-cases,
}
use datalens.Store.Coverage.{Span}
use datalens.Store.Jobs.{
  Job, JobTable, JobPurpose, Chunk, Result, ok, err, Enqueued, is_chunk, is_done, chunk_of,
  insert_job, is_active_chunk, enqueue, enqueue_rounds, newest, spans_hold, new_job,
}

-- A row of the chunk with that id.
abbrev is_row : Chunk → ℕ → Job → Bool
is_row c id j = j.id == id && is_chunk c j

-- The result names a row of the chunk, and each notified job is done.
abbrev Names : Chunk → Result ℕ → JobTable → Type 0
Names c (ok id) t = any (is_row c id) t.rows ≡ true
Names c (err e) t = ⊥

abbrev IsDone : JobTable → ℕ → Type 0
IsDone t id = any (λ j. j.id == id && is_done j.status) t.rows ≡ true

pub record Served (c : Chunk) (e : Enqueued) : Type 0 where
  pub names : Names c e.id e.table
  pub notified_done : All (IsDone e.table) e.notified

abbrev Found : Chunk → List Job → Option ℕ → Type 0
Found c rows none = any (is_chunk c) rows ≡ false
Found c rows (some id) = any (is_row c id) rows ≡ true

newest-Found : (c : Chunk) (rows : List Job) → Found c rows (newest c rows)
unfolding newest
newest-Found c [] = refl
newest-Found c (j ∷ rows) = ground (arith, newest-Found c rows)

active_present :
    (c : Chunk) (rows : List Job)
    → any (is_active_chunk c) rows ≡ true
    → any (is_chunk c) rows ≡ true
active_present c [] h = h
active_present c (j ∷ rows) h = ground (arith, active_present c rows)

is_chunk_refl : (c : Chunk) (j : Job) → chunk_of j ≡ c → is_chunk c j ≡ true
is_chunk_refl c j e = ground arith

insert_job-Served :
    (t : JobTable) (c : Chunk) (purpose : JobPurpose) (application_id now : ℕ)
    (coverage : List Span)
    → Served c (insert_job t c purpose application_id now coverage)
unfolding insert_job
insert_job-Served t c purpose application_id now coverage =
    elim (Bool-cases (spans_hold coverage c.blocks.start (c.blocks.end + 1 - c.blocks.start))) [
      | inl e ↦ rw e (record { names = own; notified_done = (ground arith, tt) })
      | inr e ↦ rw e (record { names = own; notified_done = tt })
    ]
  where
    own :
        (((t.next_id == t.next_id) && is_chunk c (new_job t.next_id c purpose application_id now))
          || any (is_row c t.next_id) t.rows)
        ≡ true
    own = ground (arith, is_chunk_refl c (new_job t.next_id c purpose application_id now) refl)

-- A session that keeps a row of each chunk that has one.
abbrev KeepsChunk : Chunk → (JobTable → JobTable) → Type 0
KeepsChunk c other =
    (t : JobTable) → any (is_chunk c) t.rows ≡ true → any (is_chunk c) (other t).rows ≡ true

-- While the other sessions do not delete the last row of the chunk between the two statements of a
-- round, `enqueue` never fails: it returns the id of a row of the chunk, and every job that it
-- notifies of is `done`.
pub enqueue-Served :
    (others : ℕ → JobTable → JobTable) (coverage : ℕ → List Span) (t : JobTable) (c : Chunk)
    (purpose : JobPurpose) (application_id now : ℕ)
    → ((n : ℕ) → KeepsChunk c (others n))
    → Served c (enqueue others coverage t c purpose application_id now)
unfolding enqueue enqueue_rounds
enqueue-Served others coverage t c purpose application_id now h =
    let before = others 0 t in
    let between = others 1 before in
    elim (Bool-cases (any (is_active_chunk c) before.rows)) [
      | inl a ↦ found a (h 1 before (active_present c before.rows a)) (newest c between.rows) refl
      | inr a ↦ rw a (insert_job-Served before c purpose application_id now (coverage 0))
    ]
  where
    found :
        any (is_active_chunk c) (others 0 t).rows ≡ true
        → any (is_chunk c) (others 1 (others 0 t)).rows ≡ true
        → (o : Option ℕ) → newest c (others 1 (others 0 t)).rows ≡ o
        → Served c (enqueue others coverage t c purpose application_id now)
    found a p none e = cc (
      p,
      subst (Found c (others 1 (others 0 t)).rows) e (newest-Found c (others 1 (others 0 t)).rows),
    )
    found a p (some id) e =
        rw (a, e)
          (record {
            names =
                subst (Found c (others 1 (others 0 t)).rows) e
                  (newest-Found c (others 1 (others 0 t)).rows);
            notified_done = tt;
          })
