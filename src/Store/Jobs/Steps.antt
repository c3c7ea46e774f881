-- ===== src/Store/Jobs/Steps.antt =====
-- The statements of crates/store/src/jobs.rs as steps of the table, in any order.
use datalens.Prelude.{ℕ, ◌≡◌, Bool, false, Option, List, any}
use datalens.Store.Coverage.{Span}
use datalens.Store.Jobs.{
  Job, JobTable, JobPurpose, Chunk, Result, ok, err, claim, claim_batch_siblings, complete_jobs,
  fail_job, extend_lease, prune_done, prune_failed, Changed, insert_job, is_active_chunk,
}

abbrev pub table_after : JobTable → Result Changed → JobTable
table_after t (ok c) = c.table
table_after t (err e) = t

-- Each statement that changes the table, whoever runs it, and at any time.
pub data Step : JobTable → JobTable → Type 0 where
  inserted :
      (t : JobTable) (c : Chunk) (purpose : JobPurpose) (application_id now : ℕ)
      (coverage : List Span)
      → any (is_active_chunk c) t.rows ≡ false
      → Step t (insert_job t c purpose application_id now coverage).table
  claimed :
      (t : JobTable) (worker_id lease limit : ℕ) (chain : Option ℕ) (locked : ℕ → Bool) (now : ℕ)
      → Step t (claim t worker_id lease limit chain locked now).table
  siblings_claimed :
      (t : JobTable) (job : Job) (limit : ℕ) (locked : ℕ → Bool) (now : ℕ)
      → Step t (table_after t (claim_batch_siblings t job limit locked now))
  completed :
      (t : JobTable) (worker_id : ℕ) (job_ids : List ℕ) (now : ℕ)
      → Step t (complete_jobs t worker_id job_ids now).table
  given_up :
      (t : JobTable) (job_id worker_id error : ℕ) (retryable : Bool) (backoff now : ℕ)
      → Step t (fail_job t job_id worker_id error retryable backoff now).0
  extended :
      (t : JobTable) (worker_id : ℕ) (job_ids : List ℕ) (lease now : ℕ)
      → Step t (extend_lease t worker_id job_ids lease now).table
  done_pruned : (t : JobTable) (older_than now : ℕ) → Step t (prune_done t older_than now)
  failed_pruned : (t : JobTable) (older_than now : ℕ) → Step t (prune_failed t older_than now)

pub data Reach (s : JobTable) : JobTable → Type 0 where
  here : Reach s s
  next : {t u : JobTable} → Reach s t → Step t u → Reach s u
