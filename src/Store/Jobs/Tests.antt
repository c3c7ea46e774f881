-- ===== src/Store/Jobs/Tests.antt =====
-- The job table at concrete inputs.
use datalens.Prelude.{ℕ, ◌≡◌, refl, Bool, true, false, none, some, List, [], ◌∷◌, map, arith}
use datalens.Core.Wire.{evm_logs}
use datalens.Core.Finality.{finalized}
use datalens.Store.Coverage.{Span}
use datalens.Store.Jobs.{
  Job, JobTable, Chunk, query, backfill, ok, pending, running, done, enqueue, insert_job, claim,
  fail_job, complete_jobs, find_job, job_status,
}
use datalens.Store.Jobs.Rows.{IsValid}
use datalens.Store.Jobs.Steps.{Reach, here, next, inserted, claimed, completed}
use datalens.Store.Jobs.Reach.{Reach-IsValid, enqueue-Reach}
use datalens.Store.Jobs.Enqueue.{Served, enqueue-Served}
use datalens.Store.Jobs.Leases.{Always, Foreign, leased-find, terminal-find}

abbrev no_jobs : JobTable
no_jobs = record { rows = []; next_id = 1 }

abbrev chunk : Chunk
chunk = record {
  chain_id = 46;
  dataset = evm_logs;
  selector_id = 7;
  blocks = record { start = 0; end = 9 };
}

abbrev other_chunk : Chunk
other_chunk = record chunk { selector_id = 8 }

abbrev quiet : ℕ → JobTable → JobTable
quiet n t = t

abbrev no_coverage : ℕ → List Span
no_coverage n = []

abbrev full_coverage : ℕ → List Span
full_coverage n = record { start = 0; end = 20; finality = finalized } ∷ []

abbrev nobody : ℕ → Bool
nobody id = false

abbrev the_job : Job
the_job = record {
  id = 1;
  chain_id = 46;
  dataset = evm_logs;
  selector_id = 7;
  blocks = record { start = 0; end = 9 };
  purpose = query;
  application_id = 3;
  status = running;
  attempts = 1;
  worker_id = some 5;
  lease_until = some 160;
  next_run_at = 100;
  updated_at = 100;
  last_error = none;
}

abbrev one_job : JobTable
one_job = record { rows = the_job ∷ []; next_id = 2 }

abbrev finished : Job
finished = record the_job { status = done; worker_id = none; lease_until = none; updated_at = 150 }

abbrev done_job : JobTable
done_job = record { rows = finished ∷ []; next_id = 2 }

done_job-IsValid : IsValid done_job
done_job-IsValid = (record { below = ground arith; leased = λ e. cc }, (tt, tt))

complete_held :
    complete_jobs one_job 5 (1 ∷ []) 150 ≡ record { table = done_job; jobs = finished ∷ [] }
unfolding complete_jobs
complete_held = refl

enqueue-claim :
    (claim (enqueue quiet no_coverage no_jobs chunk query 3 100).table 5 60 4 none nobody 100).table
    ≡ one_job
unfolding claim enqueue
enqueue-claim = refl

-- A chunk that the coverage holds is stored as done, with a notification.
enqueue_covered : (enqueue quiet full_coverage no_jobs chunk query 3 100).notified ≡ 1 ∷ []
unfolding enqueue
enqueue_covered = refl

enqueue_twice : (enqueue quiet no_coverage one_job chunk backfill 4 110).id ≡ ok 1
unfolding enqueue
enqueue_twice = refl

-- The lease is over at 160: another worker takes the job.
claim_expired : map (λ j. j.attempts) (claim one_job 6 60 4 none nobody 160).jobs ≡ 2 ∷ []
unfolding claim
claim_expired = refl

claim_leased : (claim one_job 6 60 4 none nobody 159).jobs ≡ []
unfolding claim
claim_leased = refl

fail_retryable :
    job_status (fail_job one_job 1 5 9 true 30 120).0 (1 ∷ 2 ∷ [])
    ≡ record { id = 1; status = pending; last_error = some 9 } ∷ []
unfolding fail_job job_status
fail_retryable = refl

one_job-IsValid : IsValid one_job
one_job-IsValid = (record { below = ground arith; leased = λ e. refl }, (tt, tt))

-- A second chunk is enqueued, and worker 6 polls and reports on the job that it does not hold.
others_run :
    Reach one_job
      (complete_jobs
        (claim
          (insert_job one_job other_chunk backfill 4 120 []).table
          6
          60
          4
          none
          nobody
          150).table
        6
        (1 ∷ [])
        155).table
others_run =
    next
      (next (next here (inserted one_job other_chunk backfill 4 120 [] refl))
        (claimed _ 6 60 4 none nobody 150))
      (completed _ 6 (1 ∷ []) 155)

Reach-IsValid_example :
    IsValid
      (complete_jobs
        (claim
          (insert_job one_job other_chunk backfill 4 120 []).table
          6
          60
          4
          none
          nobody
          150).table
        6
        (1 ∷ [])
        155).table
Reach-IsValid_example = Reach-IsValid one_job-IsValid others_run

leased-find_example :
    find_job 1
      (complete_jobs
        (claim
          (insert_job one_job other_chunk backfill 4 120 []).table
          6
          60
          4
          none
          nobody
          150).table
        6
        (1 ∷ [])
        155).table.rows
    ≡ some the_job
leased-find_example = leased-find others_run 5 160 1 the_job one_job-IsValid found refl refl spared
  where
    found : find_job 1 one_job.rows ≡ some the_job
    found = unfold find_job in refl

    spared : Always (Foreign 5 160) others_run
    spared = unfold others_run in (((tt, tt), ground arith), refl)

terminal-find_example :
    find_job 1 (claim done_job 6 60 4 none nobody 170).table.rows ≡ some finished
terminal-find_example =
    terminal-find (next here (claimed done_job 6 60 4 none nobody 170)) 1 finished done_job-IsValid
      found refl (tt, tt)
  where
    found : find_job 1 done_job.rows ≡ some finished
    found = unfold find_job in refl

enqueue-Reach_example :
    Reach one_job (enqueue quiet no_coverage one_job other_chunk query 3 120).table
enqueue-Reach_example =
    enqueue-Reach quiet no_coverage one_job other_chunk query 3 120 (λ n u. here)

enqueue-Served_example :
    Served other_chunk (enqueue quiet no_coverage one_job other_chunk query 3 120)
enqueue-Served_example =
    enqueue-Served quiet no_coverage one_job other_chunk query 3 120 (λ n t h. h)
