-- ===== src/Store/Jobs/Reach.antt =====
-- What runs of the statements of crates/store/src/jobs.rs keep, and `enqueue` as such a run.
use datalens.Prelude.{
  ℕ, zero, suc, ◌+◌, ◌-◌, ◌≡◌, refl, sym, subst, inl, inr, Bool, true, false, ◌&&◌, none, some,
  List, [], ◌∷◌, All, All-imp, leb, ◌==◌, any, arith, Bool-cases, Option-cases,
}
use datalens.Core.Wire.{Dataset, dataset_eq, evm_logs, evm_blocks}
use datalens.Store.Coverage.{Span}
use datalens.Store.Jobs.{
  Job, JobTable, JobPurpose, Chunk, is_active, is_running, is_chunk, chunk_of, has_id,
  complete_jobs, fail_job, extend_lease, prune_done, prune_failed, insert_job, is_active_chunk,
  change, is_held, is_done, is_failed, done, fail_as, enqueue, enqueue_rounds, newest, spans_hold,
  complete_as, new_job,
}
use datalens.Store.Jobs.Rows.{
  Apart, RowsValid, IsValid, Keeps, is_leased, update_where-Valid, delete_where-Valid, Rows-each,
}
use datalens.Store.Jobs.Steps.{
  Step, inserted, claimed, siblings_claimed, completed, given_up, extended, done_pruned,
  failed_pruned, Reach, here, next,
}
use datalens.Store.Jobs.Claims.{claim-IsValid, siblings-IsValid}

-- The index of a chunk's active row finds every other one.
dataset_eq_refl : (d : Dataset) → dataset_eq d d ≡ true
dataset_eq_refl evm_logs = refl
dataset_eq_refl evm_blocks = refl

other_chunk :
    (c : Chunk) (j k : Job)
    → chunk_of j ≡ c
    → is_active_chunk c k ≡ false
    → (is_active j && is_active k && is_chunk (chunk_of j) k) ≡ false
other_chunk c j k e h =
    let h' = subst (λ c. is_active_chunk c k ≡ false) (sym e) h in ground (arith, h')

none_active :
    (c : Chunk) (j : Job) (n : ℕ) (rows : List Job)
    → chunk_of j ≡ c
    → j.id ≡ n
    → RowsValid n rows
    → any (is_active_chunk c) rows ≡ false
    → All (Apart j) rows
none_active c j n [] e i v h = tt
none_active c j n (k ∷ rows) e i v h = (
  record { ids = ground (arith, v.0.below, i); chunks = other_chunk c j k e (ground (arith, h)) },
  none_active c j n rows e i v.1.1 (ground (arith, h)),
)

later_Valid : (n : ℕ) (rows : List Job) → RowsValid n rows → RowsValid (n + 1) rows
later_Valid n [] v = tt
later_Valid n (j ∷ rows) v = (
  record { below = omega (arith, v.0.below); leased = v.0.leased },
  (v.1.0, later_Valid n rows v.1.1),
)

insert_job-IsValid :
    (t : JobTable) (c : Chunk) (purpose : JobPurpose) (application_id now : ℕ)
    (coverage : List Span)
    → any (is_active_chunk c) t.rows ≡ false
    → IsValid t
    → IsValid (insert_job t c purpose application_id now coverage).table
unfolding insert_job
insert_job-IsValid t c purpose application_id now coverage h v =
    elim (Bool-cases (spans_hold coverage c.blocks.start (c.blocks.end + 1 - c.blocks.start))) [
      | inl e ↦ rw e (
        record { below = omega arith; leased = λ h. cc },
        (
          none_active c (complete_as now (new_job t.next_id c purpose application_id now)) t.next_id
              t.rows refl refl v h,
          later_Valid t.next_id t.rows v,
        ),
      )
      | inr e ↦ rw e (
        record { below = omega arith; leased = λ h. cc },
        (
          none_active c (new_job t.next_id c purpose application_id now) t.next_id t.rows refl refl
              v h,
          later_Valid t.next_id t.rows v,
        ),
      )
    ]

-- An update of rows that are `running` under a worker.
held_where-IsValid :
    (t : JobTable) (p : Job → Bool) (f : Job → Job)
    → ((j : Job) → p j ≡ true → is_running j.status ≡ true)
    → ((j : Job) → is_running j.status ≡ true → is_leased j ≡ true → Keeps j (f j))
    → IsValid t
    → IsValid (change t p f).table
held_where-IsValid t p f hp k v =
    update_where-Valid p f t.next_id t.rows v
      (All-imp t.rows (λ j r e. k j (hp j e) (r.leased (hp j e))) (Rows-each t.next_id t.rows v))

complete_jobs-IsValid :
    (t : JobTable) (worker_id : ℕ) (job_ids : List ℕ) (now : ℕ)
    → IsValid t
    → IsValid (complete_jobs t worker_id job_ids now).table
unfolding complete_jobs
complete_jobs-IsValid t worker_id job_ids now v =
    held_where-IsValid t (λ j. has_id job_ids j && is_held worker_id j)
      (λ j. record j { status = done; worker_id = none; lease_until = none; updated_at = now })
      (λ j e. ground (arith, e))
      (λ j r l. record {
        id = refl;
        chain_id = refl;
        dataset = refl;
        selector_id = refl;
        blocks = refl;
        active = λ e. cc;
        leased = λ e. cc;
      })
      v

fail_as-Keeps :
    (retryable : Bool) (error backoff now : ℕ) (j : Job)
    → is_running j.status ≡ true
    → Keeps j (fail_as retryable error backoff now j)
fail_as-Keeps retryable error backoff now j r = record {
  id = refl;
  chain_id = refl;
  dataset = refl;
  selector_id = refl;
  blocks = refl;
  active = λ e. ground (arith, r);
  leased = λ e. ground (arith, e);
}

fail_job-IsValid :
    (t : JobTable) (job_id worker_id error : ℕ) (retryable : Bool) (backoff now : ℕ)
    → IsValid t
    → IsValid (fail_job t job_id worker_id error retryable backoff now).0
unfolding fail_job
fail_job-IsValid t job_id worker_id error retryable backoff now v =
    held_where-IsValid t (λ j. j.id == job_id && is_held worker_id j)
      (fail_as retryable error backoff now) (λ j e. ground (arith, e))
      (λ j r l. fail_as-Keeps retryable error backoff now j r) v

extend_lease-IsValid :
    (t : JobTable) (worker_id : ℕ) (job_ids : List ℕ) (lease now : ℕ)
    → IsValid t
    → IsValid (extend_lease t worker_id job_ids lease now).table
unfolding extend_lease
extend_lease-IsValid t worker_id job_ids lease now v =
    held_where-IsValid t (λ j. has_id job_ids j && is_held worker_id j)
      (λ j. record j { lease_until = some (now + lease); updated_at = now })
      (λ j e. ground (arith, e))
      (λ j r l. record {
        id = refl;
        chain_id = refl;
        dataset = refl;
        selector_id = refl;
        blocks = refl;
        active = λ e. e;
        leased = λ e. ground (arith, l);
      })
      v

pub Step-IsValid : {t u : JobTable} → Step t u → IsValid t → IsValid u
unfolding prune_done prune_failed
Step-IsValid (inserted t c purpose application_id now coverage h) v =
    insert_job-IsValid t c purpose application_id now coverage h v
Step-IsValid (claimed t worker_id lease limit chain locked now) v =
    claim-IsValid t worker_id lease limit chain locked now v
Step-IsValid (siblings_claimed t job limit locked now) v = siblings-IsValid t job limit locked now v
Step-IsValid (completed t worker_id job_ids now) v = complete_jobs-IsValid t worker_id job_ids now v
Step-IsValid (given_up t job_id worker_id error retryable backoff now) v =
    fail_job-IsValid t job_id worker_id error retryable backoff now v
Step-IsValid (extended t worker_id job_ids lease now) v =
    extend_lease-IsValid t worker_id job_ids lease now v
Step-IsValid (done_pruned t older_than now) v =
    delete_where-Valid (λ j. is_done j.status && leb (j.updated_at + older_than) now) t.next_id
      t.rows v
Step-IsValid (failed_pruned t older_than now) v =
    delete_where-Valid (λ j. is_failed j.status && leb (j.updated_at + older_than) now) t.next_id
      t.rows v

-- From a table that is valid, whatever statements run and in whatever order, the table stays valid:
-- ids are distinct and below the sequence, no two pending or running jobs have one chunk, and each
-- running job has a worker and a lease.
pub Reach-IsValid : {t u : JobTable} → IsValid t → Reach t u → IsValid u
Reach-IsValid v here = v
Reach-IsValid v (next r s) = Step-IsValid s (Reach-IsValid v r)

trans-Reach : {t u w : JobTable} → Reach t u → Reach u w → Reach t w
trans-Reach r here = r
trans-Reach r (next q s) = next (trans-Reach r q) s

-- `enqueue` is a sequence of such steps, of its own and of the sessions between its statements.
pub enqueue-Reach :
    (others : ℕ → JobTable → JobTable) (coverage : ℕ → List Span) (t : JobTable) (c : Chunk)
    (purpose : JobPurpose) (application_id now : ℕ)
    → ((n : ℕ) (u : JobTable) → Reach u (others n u))
    → Reach t (enqueue others coverage t c purpose application_id now).table
unfolding enqueue enqueue_rounds
enqueue-Reach others coverage t c purpose application_id now h = rounds 3 0 t
  where
    rounds :
        (k n : ℕ) (t : JobTable)
        → Reach t (enqueue_rounds others coverage k n t c purpose application_id now).table
    rounds zero n t = here
    rounds (suc k) n t =
        let before = others n t in
        let between = others (n + 1) before in
        let to_between = trans-Reach (h n t) (h (n + 1) before) in
        elim (Bool-cases (any (is_active_chunk c) before.rows)) [
          | inl a ↦ elim (Option-cases (newest c between.rows)) [
            | inl e ↦ rw (a, e) (trans-Reach to_between (rounds k (n + 2) between))
            | inr (id, e) ↦ rw (a, e) to_between
          ]
          | inr a ↦
              rw a (next (h n t) (inserted before c purpose application_id now (coverage n) a))
        ]
