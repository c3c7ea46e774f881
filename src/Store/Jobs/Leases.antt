-- ===== src/Store/Jobs/Leases.antt =====
-- Which statements of crates/store/src/jobs.rs leave a row as it is: a lease keeps other workers
-- away, and a finished job stays as it ended.
use datalens.Prelude.{ℕ, ◌<◌, ◌≡◌, true, false, some, ◌==◌, arith}
use datalens.Store.Jobs.{Job, JobTable, is_terminal, is_due, is_held, find_job}
use datalens.Store.Jobs.Rows.{IsValid}
use datalens.Store.Jobs.Steps.{
  Step, inserted, claimed, siblings_claimed, completed, given_up, extended, done_pruned,
  failed_pruned, Reach, here, next,
}
use datalens.Store.Jobs.Reach.{Reach-IsValid}
use datalens.Store.Jobs.Find.{Spares, Step-find}

-- A statement that another worker than `owner` runs, a claim before the time `until`.
abbrev pub Foreign : ℕ → ℕ → (t u : JobTable) → Step t u → Type 0
Foreign owner until _ _ (inserted t c purpose application_id now coverage h) = Unit {0}
Foreign owner until _ _ (claimed t worker_id lease limit chain locked now) = now < until
Foreign owner until _ _ (siblings_claimed t job limit locked now) = Unit {0}
Foreign owner until _ _ (completed t worker_id job_ids now) = (worker_id == owner) ≡ false
Foreign owner until _ _ (given_up t job_id worker_id error retryable backoff now) =
    (worker_id == owner) ≡ false
Foreign owner until _ _ (extended t worker_id job_ids lease now) = (worker_id == owner) ≡ false
Foreign owner until _ _ (done_pruned t older_than now) = Unit {0}
Foreign owner until _ _ (failed_pruned t older_than now) = Unit {0}

held_not_due :
    (owner until now : ℕ) (j : Job)
    → is_held owner j ≡ true
    → j.lease_until ≡ some until
    → now < until
    → is_due now j ≡ false
unfolding is_due
held_not_due owner until now j h l n = ground (arith, h, l, n)

held_by_one :
    (owner worker_id : ℕ) (j : Job)
    → is_held owner j ≡ true
    → (worker_id == owner) ≡ false
    → is_held worker_id j ≡ false
held_by_one owner worker_id j h n = ground (arith, h, n)

Foreign-Spares :
    {t u : JobTable} (s : Step t u) (owner until : ℕ) (j : Job)
    → is_held owner j ≡ true
    → j.lease_until ≡ some until
    → Foreign owner until t u s
    → Spares j s
Foreign-Spares (inserted t c purpose application_id now coverage h) owner until j e l f = tt
Foreign-Spares (claimed t worker_id lease limit chain locked now) owner until j e l f =
    held_not_due owner until now j e l f
Foreign-Spares (siblings_claimed t job limit locked now) owner until j e l f = ground (arith, e)
Foreign-Spares (completed t worker_id job_ids now) owner until j e l f =
    held_by_one owner worker_id j e f
Foreign-Spares (given_up t job_id worker_id error retryable backoff now) owner until j e l f =
    held_by_one owner worker_id j e f
Foreign-Spares (extended t worker_id job_ids lease now) owner until j e l f =
    held_by_one owner worker_id j e f
Foreign-Spares (done_pruned t older_than now) owner until j e l f = ground (arith, e)
Foreign-Spares (failed_pruned t older_than now) owner until j e l f = ground (arith, e)

-- Each step of a run has the property.
abbrev pub Always : ((t u : JobTable) → Step t u → Type 0) → {t u : JobTable} → Reach t u → Type 0
Always P here = Unit {0}
Always P (next {t} {u} r s) = Always P r × P t u s

-- From a valid table, while a job is `running` under a worker with a lease until some time, a run of
-- statements by anyone but that worker, with claims only before that time, leaves the job's row
-- exactly as it is.
pub leased-find :
    {t u : JobTable} (r : Reach t u) (owner until i : ℕ) (j : Job)
    → IsValid t
    → find_job i t.rows ≡ some j
    → is_held owner j ≡ true
    → j.lease_until ≡ some until
    → Always (Foreign owner until) r
    → find_job i u.rows ≡ some j
leased-find here owner until i j v e h l a = e
leased-find (next r s) owner until i j v e h l a =
    Step-find s i j (Foreign-Spares s owner until j h l a.1) (Reach-IsValid v r)
      (leased-find r owner until i j v e h l a.0)

abbrev pub IsNoPrune : (t u : JobTable) → Step t u → Type 0
IsNoPrune _ _ (inserted t c purpose application_id now coverage h) = Unit {0}
IsNoPrune _ _ (claimed t worker_id lease limit chain locked now) = Unit {0}
IsNoPrune _ _ (siblings_claimed t job limit locked now) = Unit {0}
IsNoPrune _ _ (completed t worker_id job_ids now) = Unit {0}
IsNoPrune _ _ (given_up t job_id worker_id error retryable backoff now) = Unit {0}
IsNoPrune _ _ (extended t worker_id job_ids lease now) = Unit {0}
IsNoPrune _ _ (done_pruned t older_than now) = ⊥
IsNoPrune _ _ (failed_pruned t older_than now) = ⊥

terminal-Spares :
    {t u : JobTable} (s : Step t u) (j : Job)
    → is_terminal j.status ≡ true
    → IsNoPrune t u s
    → Spares j s
unfolding is_due
terminal-Spares (inserted t c purpose application_id now coverage h) j e n = tt
terminal-Spares (claimed t worker_id lease limit chain locked now) j e n = ground (arith, e)
terminal-Spares (siblings_claimed t job limit locked now) j e n = ground (arith, e)
terminal-Spares (completed t worker_id job_ids now) j e n = ground (arith, e)
terminal-Spares (given_up t job_id worker_id error retryable backoff now) j e n = ground (arith, e)
terminal-Spares (extended t worker_id job_ids lease now) j e n = ground (arith, e)
terminal-Spares (done_pruned t older_than now) j e n = absurd n
terminal-Spares (failed_pruned t older_than now) j e n = absurd n

-- From a valid table, a job that is `done` or `failed` keeps its row exactly as it is through every
-- run of statements in which nothing is pruned.
pub terminal-find :
    {t u : JobTable} (r : Reach t u) (i : ℕ) (j : Job)
    → IsValid t
    → find_job i t.rows ≡ some j
    → is_terminal j.status ≡ true
    → Always IsNoPrune r
    → find_job i u.rows ≡ some j
terminal-find here i j v e h a = e
terminal-find (next r s) i j v e h a =
    Step-find s i j (terminal-Spares s j h a.1) (Reach-IsValid v r) (terminal-find r i j v e h a.0)
