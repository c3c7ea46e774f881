-- ===== src/Store/Jobs/Find.antt =====
-- Which rows the statements of crates/store/src/jobs.rs leave as they are.
use datalens.Prelude.{
  ℕ, ◌+◌, ◌<◌, ◌≡◌, refl, sym, subst, inl, inr, Bool, true, false, ◌&&◌, Option, none, some, List,
  [], ◌∷◌, All, leb, ◌==◌, set_contains, if◌then◌else◌, arith, Bool-cases,
}
use datalens.Store.Coverage.{Span}
use datalens.Store.Jobs.{
  Job, JobTable, JobPurpose, Chunk, is_pending, update_where, select_where, ids_of, has_id, claim,
  claim_batch_siblings, complete_jobs, fail_job, extend_lease, prune_done, prune_failed, insert_job,
  start_job, change, is_due, claimed_ids, sibling_ids, is_held, is_done, is_failed, done, fail_as,
  delete_where, find_job,
}
use datalens.Store.Jobs.Rows.{RowValid, IsValid, Rows-each, selected-holds}
use datalens.Store.Jobs.Steps.{
  Step, inserted, claimed, siblings_claimed, completed, given_up, extended, done_pruned,
  failed_pruned, table_after,
}
use datalens.Store.Jobs.Claims.{
  is_claimable, claimed_ids-selected, is_sibling, sibling_ids-selected,
}

-- The row that a search by its id finds is one of the rows.
find-All :
    (P : Job → Type 0) (i : ℕ) (j : Job) (rows : List Job)
    → All P rows
    → find_job i rows ≡ some j
    → P j
unfolding find_job
find-All P i j [] a e = cc
find-All P i j (k ∷ rows) a e = elim (Bool-cases (k.id == i)) [
  | inl h ↦ subst P (found k rows h e) a.0
  | inr h ↦ find-All P i j rows a.1 (rest k rows h e)
]
  where
    found :
        (k : Job) (rows : List Job)
        → (k.id == i) ≡ true
        → (if k.id == i then some k else find_job i rows) ≡ some j
        → k ≡ j
    found k rows h e = ground (arith, h, e)

    rest :
        (k : Job) (rows : List Job)
        → (k.id == i) ≡ false
        → (if k.id == i then some k else find_job i rows) ≡ some j
        → find_job i rows ≡ some j
    rest k rows h e = ground (arith, h, e)

find-id : (i : ℕ) (j : Job) (rows : List Job) → find_job i rows ≡ some j → j.id ≡ i
unfolding find_job
find-id i j [] e = cc
find-id i j (k ∷ rows) e = ground (arith, find-id i j rows)

find-update_where :
    (p : Job → Bool) (f : Job → Job) (i : ℕ) (j : Job) (rows : List Job)
    → ((k : Job) → (f k).id ≡ k.id)
    → p j ≡ false
    → find_job i rows ≡ some j
    → find_job i (update_where p f rows) ≡ some j
unfolding find_job update_where
find-update_where p f i j [] hf hp e = e
find-update_where p f i j (k ∷ rows) hf hp e =
    ground (arith, hf k, find-update_where p f i j rows hf hp)

find-delete_where :
    (p : Job → Bool) (i : ℕ) (j : Job) (rows : List Job)
    → p j ≡ false
    → find_job i rows ≡ some j
    → find_job i (delete_where p rows) ≡ some j
unfolding find_job delete_where
find-delete_where p i j [] hp e = e
find-delete_where p i j (k ∷ rows) hp e = ground (arith, find-delete_where p i j rows hp)

-- What the statement asks of a row does not hold of `j`.
abbrev pub Spares : Job → {t u : JobTable} → Step t u → Type 0
Spares j (inserted t c purpose application_id now coverage h) = Unit {0}
Spares j (claimed t worker_id lease limit chain locked now) = is_due now j ≡ false
Spares j (siblings_claimed t job limit locked now) = is_pending j.status ≡ false
Spares j (completed t worker_id job_ids now) = is_held worker_id j ≡ false
Spares j (given_up t job_id worker_id error retryable backoff now) = is_held worker_id j ≡ false
Spares j (extended t worker_id job_ids lease now) = is_held worker_id j ≡ false
Spares j (done_pruned t older_than now) = is_done j.status ≡ false
Spares j (failed_pruned t older_than now) = is_failed j.status ≡ false

insert_job-find :
    (t : JobTable) (c : Chunk) (purpose : JobPurpose) (application_id now : ℕ)
    (coverage : List Span) (i : ℕ) (j : Job)
    → i < t.next_id
    → find_job i t.rows ≡ some j
    → find_job i (insert_job t c purpose application_id now coverage).table.rows ≡ some j
unfolding insert_job find_job
insert_job-find t c purpose application_id now coverage i j b e = ground (arith, b, e)

-- An update through selected ids passes over a row that the selection refuses.
started-find :
    (t : JobTable) (ids : List ℕ) (q : Job → Bool) (worker_id lease_until now i : ℕ) (j : Job)
    → ((i : ℕ) → set_contains ids i ≡ true → set_contains (ids_of (select_where q t.rows)) i ≡ true)
    → q j ≡ false
    → IsValid t
    → find_job i t.rows ≡ some j
    → find_job i (change t (has_id ids) (start_job worker_id lease_until now)).table.rows ≡ some j
started-find t ids q worker_id lease_until now i j hi hq v e =
    let own =
      find-All (λ j. set_contains (ids_of (select_where q t.rows)) j.id ≡ true → q j ≡ true) i j
        t.rows (selected-holds q t.next_id t.rows v) e in
    find-update_where (has_id ids) (start_job worker_id lease_until now) i j t.rows (λ k. refl)
      (not_in own) e
  where
    not_in :
        (set_contains (ids_of (select_where q t.rows)) j.id ≡ true → q j ≡ true)
        → set_contains ids j.id ≡ false
    not_in own = ground (arith, hq, hi j.id, own)

claim-find :
    (t : JobTable) (worker_id lease limit : ℕ) (chain : Option ℕ) (locked : ℕ → Bool) (now i : ℕ)
    (j : Job)
    → is_due now j ≡ false
    → IsValid t
    → find_job i t.rows ≡ some j
    → find_job i (claim t worker_id lease limit chain locked now).table.rows ≡ some j
unfolding claim
claim-find t worker_id lease limit chain locked now i j d v e = elim (Bool-cases (limit == 0)) [
  | inl z ↦ rw z e
  | inr z ↦ rw z (
      started-find t (claimed_ids t limit chain locked now) (is_claimable now chain locked)
        worker_id (now + lease) now i j (claimed_ids-selected t limit chain locked now)
        (ground (arith, d)) v e)
]

siblings-find :
    (t : JobTable) (job : Job) (limit : ℕ) (locked : ℕ → Bool) (now i : ℕ) (j : Job)
    → is_pending j.status ≡ false
    → IsValid t
    → find_job i t.rows ≡ some j
    → find_job i (table_after t (claim_batch_siblings t job limit locked now)).rows ≡ some j
unfolding claim_batch_siblings
siblings-find t job limit locked now i j p v e = go job.worker_id job.lease_until refl refl
  where
    go :
        (w u : Option ℕ)
        → job.worker_id ≡ w
        → job.lease_until ≡ u
        → find_job i (table_after t (claim_batch_siblings t job limit locked now)).rows ≡ some j
    go none u f g = rw f e
    go (some w) none f g = rw (f, g) e
    go (some w) (some u) f g = elim (Bool-cases (limit == 0)) [
      | inl z ↦ rw (f, g, z) e
      | inr z ↦
          rw (f, g, z)
            (started-find t (sibling_ids t job limit locked now) (is_sibling job now locked) w u now
              i j (sibling_ids-selected t job limit locked now) (ground (arith, p)) v e)
    ]

-- A statement leaves a row that it spares.
pub Step-find :
    {t u : JobTable} (s : Step t u) (i : ℕ) (j : Job)
    → Spares j s
    → IsValid t
    → find_job i t.rows ≡ some j
    → find_job i u.rows ≡ some j
unfolding complete_jobs fail_job extend_lease prune_done prune_failed
Step-find (inserted t c purpose application_id now coverage h) i j p v e =
    insert_job-find t c purpose application_id now coverage i j
      (rw (sym (find-id i j t.rows e))
        (find-All (RowValid t.next_id) i j t.rows (Rows-each t.next_id t.rows v) e).below)
      e
Step-find (claimed t worker_id lease limit chain locked now) i j p v e =
    claim-find t worker_id lease limit chain locked now i j p v e
Step-find (siblings_claimed t job limit locked now) i j p v e =
    siblings-find t job limit locked now i j p v e
Step-find (completed t worker_id job_ids now) i j p v e =
    find-update_where (λ j. has_id job_ids j && is_held worker_id j)
      (λ j. record j { status = done; worker_id = none; lease_until = none; updated_at = now }) i j
      t.rows (λ k. refl) (ground (arith, p)) e
Step-find (given_up t job_id worker_id error retryable backoff now) i j p v e =
    find-update_where (λ j. j.id == job_id && is_held worker_id j)
      (fail_as retryable error backoff now) i j t.rows (λ k. refl) (ground (arith, p)) e
Step-find (extended t worker_id job_ids lease now) i j p v e =
    find-update_where (λ j. has_id job_ids j && is_held worker_id j)
      (λ j. record j { lease_until = some (now + lease); updated_at = now }) i j t.rows (λ k. refl)
      (ground (arith, p)) e
Step-find (done_pruned t older_than now) i j p v e =
    find-delete_where (λ j. is_done j.status && leb (j.updated_at + older_than) now) i j t.rows
      (ground (arith, p)) e
Step-find (failed_pruned t older_than now) i j p v e =
    find-delete_where (λ j. is_failed j.status && leb (j.updated_at + older_than) now) i j t.rows
      (ground (arith, p)) e
