-- ===== src/Store/Jobs.antt =====
-- crates/store/src/jobs.rs: the table `fill_jobs` and the statements on it. A row is what the table
-- holds; texts (applications, workers, error values) are numbers, times and durations milliseconds.
-- `now` is `now()` of the statement's transaction; `locked id` says that another transaction holds
-- the row's lock, which `for update skip locked` passes over. `wait_done` and the conversion of rows
-- and durations, which fails on values out of range, are left out.
pub mod Rows
pub mod Steps
pub mod Claims
pub mod Reach
pub mod Find
pub mod Leases
pub mod Enqueue
mod Tests
use datalens.Prelude.{
  ℕ, zero, suc, ◌+◌, ◌-◌, Bool, true, false, not, ◌&&◌, ◌||◌, Option, none, some, List, [], ◌∷◌,
  map, leb, ltb, ◌==◌, any, if◌then◌else◌, set_contains,
}
use datalens.Core.Range.{BlockRange}
use datalens.Core.Wire.{Dataset, dataset_eq, evm_logs, evm_blocks}
use datalens.Store.Coverage.{Span, finality_at}
pub use datalens.Store.Codec.{Result, ok, err, StoreError, not_found, invalid}

pub data JobPurpose : Type 0 where
  query backfill : JobPurpose

pub data JobStatus : Type 0 where
  pending running done failed : JobStatus

pub record Job : Type 0 where
  pub id : ℕ
  pub chain_id : ℕ
  pub dataset : Dataset
  pub selector_id : ℕ
  pub blocks : BlockRange
  pub purpose : JobPurpose
  pub application_id : ℕ
  pub status : JobStatus
  pub attempts : ℕ
  pub worker_id : Option ℕ
  pub lease_until : Option ℕ
  pub next_run_at : ℕ
  pub updated_at : ℕ
  pub last_error : Option ℕ

-- The rows, newest first, and the next value of the id's sequence.
pub record JobTable : Type 0 where
  pub rows : List Job
  pub next_id : ℕ

abbrev pub is_pending : JobStatus → Bool
is_pending pending = true
is_pending running = false
is_pending done = false
is_pending failed = false

abbrev pub is_running : JobStatus → Bool
is_running pending = false
is_running running = true
is_running done = false
is_running failed = false

-- `JobStatus::is_terminal`
abbrev pub is_terminal : JobStatus → Bool
is_terminal pending = false
is_terminal running = false
is_terminal done = true
is_terminal failed = true

abbrev pub is_done : JobStatus → Bool
is_done pending = false
is_done running = false
is_done done = true
is_done failed = false

abbrev pub is_failed : JobStatus → Bool
is_failed pending = false
is_failed running = false
is_failed done = false
is_failed failed = true

abbrev pub is_query : JobPurpose → Bool
is_query query = true
is_query backfill = false

abbrev pub opt_eq : Option ℕ → ℕ → Bool
opt_eq none n = false
opt_eq (some m) n = m == n

-- The columns of the partial unique index `fill_jobs_active`.
pub record Chunk : Type 0 where
  pub chain_id : ℕ
  pub dataset : Dataset
  pub selector_id : ℕ
  pub blocks : BlockRange

abbrev pub same_blocks : BlockRange → BlockRange → Bool
same_blocks a b = a.start == b.start && a.end == b.end

abbrev pub is_chunk : Chunk → Job → Bool
is_chunk c j =
    c.chain_id == j.chain_id
    && (dataset_eq c.dataset j.dataset
        && (c.selector_id == j.selector_id && same_blocks c.blocks j.blocks))

abbrev pub chunk_of : Job → Chunk
chunk_of j = record {
  chain_id = j.chain_id;
  dataset = j.dataset;
  selector_id = j.selector_id;
  blocks = j.blocks;
}

-- `status in ('pending', 'running')`
abbrev pub is_active : Job → Bool
is_active j = is_pending j.status || is_running j.status

-- `update … set f where p`
pub update_where : (Job → Bool) → (Job → Job) → List Job → List Job
update_where p f [] = []
update_where p f (j ∷ rows) = (if p j then f j else j) ∷ update_where p f rows

pub select_where : (Job → Bool) → List Job → List Job
select_where p [] = []
select_where p (j ∷ rows) = if p j then j ∷ select_where p rows else select_where p rows

-- The rows that an update returns.
abbrev pub returning : (Job → Bool) → (Job → Job) → List Job → List Job
returning p f rows = map f (select_where p rows)

pub delete_where : (Job → Bool) → List Job → List Job
delete_where p [] = []
delete_where p (j ∷ rows) = if p j then delete_where p rows else j ∷ delete_where p rows

abbrev pub ids_of : List Job → List ℕ
ids_of rows = map (λ j. j.id) rows

-- A stable sort by `before`, for `order by` and `sort_by_key`.
pub insert_by : (Job → Job → Bool) → Job → List Job → List Job
insert_by before j [] = j ∷ []
insert_by before j (k ∷ rows) = if before k j then k ∷ insert_by before j rows else j ∷ k ∷ rows

pub sort_by : (Job → Job → Bool) → List Job → List Job
unfolding insert_by
sort_by before [] = []
sort_by before (j ∷ rows) = insert_by before j (sort_by before rows)

pub take_jobs : ℕ → List Job → List Job
take_jobs zero rows = []
take_jobs (suc n) [] = []
take_jobs (suc n) (j ∷ rows) = j ∷ take_jobs n rows

abbrev pub by_id : Job → Job → Bool
by_id a b = ltb a.id b.id

-- `order by (purpose = 'query') desc, next_run_at, id`
pub claims_before : Job → Job → Bool
claims_before a b =
    if is_query a.purpose
    then (if is_query b.purpose
        then ltb a.next_run_at b.next_run_at || (a.next_run_at == b.next_run_at && ltb a.id b.id)
        else true)
    else (if is_query b.purpose
        then false
        else ltb a.next_run_at b.next_run_at || (a.next_run_at == b.next_run_at && ltb a.id b.id))

-- `insert … on conflict do nothing`, with the defaults of the columns.
abbrev pub new_job : ℕ → Chunk → JobPurpose → ℕ → ℕ → Job
new_job id c purpose application_id now = record {
  id = id;
  chain_id = c.chain_id;
  dataset = c.dataset;
  selector_id = c.selector_id;
  blocks = c.blocks;
  purpose = purpose;
  application_id = application_id;
  status = pending;
  attempts = 0;
  worker_id = none;
  lease_until = none;
  next_run_at = now;
  updated_at = now;
  last_error = none;
}

abbrev pub is_active_chunk : Chunk → Job → Bool
is_active_chunk c j = is_active j && is_chunk c j

-- `int8multirange(blocks) <@ range_agg(…)`: each of the `n` blocks from `b` on is in a span.
abbrev pub spans_hold : List Span → ℕ → ℕ → Bool
spans_hold spans b zero = true
spans_hold spans b (suc n) =
    (elim (finality_at b spans) [ none ↦ false | some f ↦ true ]) && spans_hold spans (b + 1) n

abbrev pub complete_as : ℕ → Job → Job
complete_as now j = record j { status = done; updated_at = now }

-- The last row of a chunk by its id.
pub newest : Chunk → List Job → Option ℕ
newest c [] = none
newest c (j ∷ rows) = elim (newest c rows) [
  | none ↦ if is_chunk c j then some j.id else none
  | some id ↦ if is_chunk c j && ltb id j.id then some j.id else some id
]

-- What a call returns, the table after it, and the ids that it notifies of.
pub record Enqueued : Type 0 where
  pub id : Result ℕ
  pub table : JobTable
  pub notified : List ℕ

-- The rows once the new job is stored, which is `done` where the coverage already holds its chunk.
pub insert_job : JobTable → Chunk → JobPurpose → ℕ → ℕ → List Span → Enqueued
unfolding update_where
insert_job t c purpose application_id now coverage =
    let job = new_job t.next_id c purpose application_id now in
    let covered = spans_hold coverage c.blocks.start (c.blocks.end + 1 - c.blocks.start) in
    record {
      id = ok t.next_id;
      table = record {
        rows = (if covered then complete_as now job else job) ∷ t.rows;
        next_id = t.next_id + 1;
      };
      notified = if covered then t.next_id ∷ [] else [];
    }

-- The rounds of `enqueue`. `others n` is what other sessions commit before the n-th statement, and
-- `coverage n` the selector's coverage that it reads.
pub enqueue_rounds :
    (ℕ → JobTable → JobTable)
    → (ℕ → List Span)
    → ℕ
    → ℕ
    → JobTable
    → Chunk
    → JobPurpose
    → ℕ
    → ℕ
    → Enqueued
unfolding insert_job newest
enqueue_rounds others coverage zero n t c purpose application_id now = record {
  id = err not_found;
  table = t;
  notified = [];
}
enqueue_rounds others coverage (suc rounds) n t c purpose application_id now =
    let before = others n t in
    let between = others (n + 1) before in
    let again =
      enqueue_rounds others coverage rounds (n + 2) between c purpose application_id now in
    if any (is_active_chunk c) before.rows
    then elim (newest c between.rows) [
      | none ↦ again
      | some id ↦ record { id = ok id; table = between; notified = [] }
    ]
    else insert_job before c purpose application_id now (coverage n)

pub enqueue :
    (ℕ → JobTable → JobTable) → (ℕ → List Span) → JobTable → Chunk → JobPurpose → ℕ → ℕ → Enqueued
unfolding enqueue_rounds
enqueue others coverage t c purpose application_id now =
    enqueue_rounds others coverage 3 0 t c purpose application_id now

pub active_job : JobTable → Chunk → Option ℕ
active_job t c = elim (select_where (is_active_chunk c) t.rows) [ [] ↦ none | j ∷ rows ↦ some j.id ]

-- A pending job whose time has come, or a running one whose lease is over.
pub is_due : ℕ → Job → Bool
is_due now j =
    (is_pending j.status && leb j.next_run_at now)
    || (is_running j.status && (elim j.lease_until [ none ↦ false | some until ↦ leb until now ]))

abbrev pub on_chain : Option ℕ → Job → Bool
on_chain none j = true
on_chain (some chain) j = j.chain_id == chain

abbrev pub start_job : ℕ → ℕ → ℕ → Job → Job
start_job worker_id lease_until now j = record j {
  status = running;
  worker_id = some worker_id;
  lease_until = some lease_until;
  attempts = j.attempts + 1;
  updated_at = now;
}

abbrev pub has_id : List ℕ → Job → Bool
has_id ids j = set_contains ids j.id

-- A statement's table and the rows that it returns.
pub record Changed : Type 0 where
  pub table : JobTable
  pub jobs : List Job

abbrev pub change : JobTable → (Job → Bool) → (Job → Job) → Changed
change t p f = record {
  table = record t { rows = update_where p f t.rows };
  jobs = returning p f t.rows;
}

-- The subselect of `claim`.
pub claimed_ids : JobTable → ℕ → Option ℕ → (ℕ → Bool) → ℕ → List ℕ
unfolding is_due sort_by claims_before take_jobs select_where
claimed_ids t limit chain locked now = ids_of (
    take_jobs limit (
      sort_by claims_before
        (select_where (λ j. is_due now j && (on_chain chain j && not (locked j.id))) t.rows)))

pub claim : JobTable → ℕ → ℕ → ℕ → Option ℕ → (ℕ → Bool) → ℕ → Changed
unfolding claimed_ids update_where select_where sort_by
claim t worker_id lease limit chain locked now =
    if limit == 0
    then record { table = t; jobs = [] }
    else (let c =
          change t (has_id (claimed_ids t limit chain locked now))
            (start_job worker_id (now + lease) now) in
        record { table = c.table; jobs = sort_by by_id c.jobs })

abbrev pub by_selector : Job → Job → Bool
by_selector a b =
    ltb a.selector_id b.selector_id || (a.selector_id == b.selector_id && ltb a.id b.id)

pub sibling_ids : JobTable → Job → ℕ → (ℕ → Bool) → ℕ → List ℕ
unfolding sort_by take_jobs select_where
sibling_ids t job limit locked now = ids_of (
    take_jobs limit (
      sort_by by_id (
        select_where
          (λ j.
            job.chain_id == j.chain_id
            && (dataset_eq job.dataset j.dataset
                && (same_blocks job.blocks j.blocks
                    && (is_pending j.status
                        && (leb j.next_run_at now
                            && (not (j.id == job.id) && not (locked j.id)))))))
          t.rows)))

pub claim_batch_siblings : JobTable → Job → ℕ → (ℕ → Bool) → ℕ → Result Changed
unfolding sibling_ids update_where select_where sort_by
claim_batch_siblings t job limit locked now = elim job.worker_id [
  | none ↦ err invalid
  | some worker_id ↦ elim job.lease_until [
    | none ↦ err invalid
    | some lease_until ↦
        if limit == 0
        then ok (record { table = t; jobs = [] })
        else (let c =
              change t (has_id (sibling_ids t job limit locked now))
                (start_job worker_id lease_until now) in
            ok (record { table = c.table; jobs = sort_by by_selector c.jobs }))
  ]
]

-- `status = 'running' and worker_id = …`
abbrev pub is_held : ℕ → Job → Bool
is_held worker_id j = is_running j.status && opt_eq j.worker_id worker_id

-- `complete_jobs`; it notifies of the jobs that it returns.
pub complete_jobs : JobTable → ℕ → List ℕ → ℕ → Changed
unfolding update_where select_where sort_by
complete_jobs t worker_id job_ids now =
    let c =
      change t (λ j. has_id job_ids j && is_held worker_id j)
        (λ j. record j { status = done; worker_id = none; lease_until = none; updated_at = now }) in
    record { table = c.table; jobs = sort_by by_id c.jobs }

-- A failed job, and a job that goes back to wait.
abbrev pub fail_as : Bool → ℕ → ℕ → ℕ → Job → Job
fail_as retryable error backoff now j = record j {
  status = if retryable then pending else failed;
  last_error = some error;
  worker_id = none;
  lease_until = none;
  next_run_at = if retryable then now + backoff else j.next_run_at;
  updated_at = now;
}

-- The result says whether the worker held the job; a final failure notifies of it.
pub fail_job : JobTable → ℕ → ℕ → ℕ → Bool → ℕ → ℕ → JobTable × Bool
unfolding update_where
fail_job t job_id worker_id error retryable backoff now =
    let holds = λ (j : Job). j.id == job_id && is_held worker_id j in
    (
      record t { rows = update_where holds (fail_as retryable error backoff now) t.rows },
      any holds t.rows,
    )

pub extend_lease : JobTable → ℕ → List ℕ → ℕ → ℕ → Changed
unfolding update_where select_where sort_by
extend_lease t worker_id job_ids lease now =
    let c =
      change t (λ j. has_id job_ids j && is_held worker_id j)
        (λ j. record j { lease_until = some (now + lease); updated_at = now }) in
    record { table = c.table; jobs = sort_by by_id c.jobs }

pub record JobState : Type 0 where
  pub id : ℕ
  pub status : JobStatus
  pub last_error : Option ℕ

pub find_job : ℕ → List Job → Option Job
find_job id [] = none
find_job id (j ∷ rows) = if j.id == id then some j else find_job id rows

pub job_status : JobTable → List ℕ → List JobState
unfolding find_job
job_status t [] = []
job_status t (id ∷ job_ids) = elim (find_job id t.rows) [
  | none ↦ job_status t job_ids
  | some j ↦ record { id = id; status = j.status; last_error = j.last_error } ∷ job_status t job_ids
]

-- `prune_done` and `prune_failed`.
pub prune_done : JobTable → ℕ → ℕ → JobTable
unfolding delete_where
prune_done t older_than now = record t {
  rows = delete_where (λ j. is_done j.status && leb (j.updated_at + older_than) now) t.rows;
}

pub prune_failed : JobTable → ℕ → ℕ → JobTable
unfolding delete_where
prune_failed t older_than now = record t {
  rows = delete_where (λ j. is_failed j.status && leb (j.updated_at + older_than) now) t.rows;
}

-- `order by updated_at desc, id desc`
abbrev pub recent_first : Job → Job → Bool
recent_first a b = ltb b.updated_at a.updated_at || (a.updated_at == b.updated_at && ltb b.id a.id)

abbrev pub status_eq : JobStatus → JobStatus → Bool
status_eq pending s = is_pending s
status_eq running s = is_running s
status_eq done s = is_done s
status_eq failed s = is_failed s

abbrev pub has_status : Option JobStatus → Job → Bool
has_status none j = true
has_status (some s) j = status_eq s j.status

pub list_jobs : JobTable → Option JobStatus → ℕ → List (Job × Option ℕ)
unfolding sort_by take_jobs select_where
list_jobs t status limit =
    map (λ j. (j, j.last_error))
      (take_jobs limit (sort_by recent_first (select_where (has_status status) t.rows)))

-- `count(*)` of the rows with a status; `job_counts` has a slot for each of `JobStatus::ALL`.
pub count_status : JobStatus → List Job → ℕ
count_status s [] = 0
count_status s (j ∷ rows) =
    if status_eq s j.status then suc (count_status s rows) else count_status s rows

pub job_counts : JobTable → List (JobStatus × ℕ)
unfolding count_status
job_counts t = map (λ s. (s, count_status s t.rows)) (pending ∷ running ∷ done ∷ failed ∷ [])
