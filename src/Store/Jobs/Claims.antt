-- ===== src/Store/Jobs/Claims.antt =====
-- What `claim` and `claim_batch_siblings` of crates/store/src/jobs.rs leave of a valid table.
use datalens.Prelude.{
  ℕ, ◌+◌, ◌≡◌, refl, sym, ◌∙◌, inl, inr, Bool, true, not, ◌&&◌, Option, none, some, List, All-imp,
  leb, ◌==◌, set_contains, arith, Bool-cases,
}
use datalens.Core.Wire.{dataset_eq}
use datalens.Store.Jobs.{
  Job, JobTable, is_active, is_pending, select_where, sort_by, ids_of, has_id, claim,
  claim_batch_siblings, start_job, change, is_due, on_chain, claimed_ids, claims_before,
  sibling_ids, same_blocks, by_id,
}
use datalens.Store.Jobs.Rows.{
  IsValid, Keeps, update_where-Valid, ids-sort_by, ids-take_jobs, selected-holds,
}
use datalens.Store.Jobs.Steps.{table_after}

-- The rows that `start_job` reaches by their ids were active.
start_job-Keeps :
    (worker_id lease_until now : ℕ) (j : Job)
    → is_active j ≡ true
    → Keeps j (start_job worker_id lease_until now j)
start_job-Keeps worker_id lease_until now j h = record {
  id = refl;
  chain_id = refl;
  dataset = refl;
  selector_id = refl;
  blocks = refl;
  active = λ e. h;
  leased = λ e. refl;
}

pub started-IsValid :
    (t : JobTable) (ids : List ℕ) (q : Job → Bool) (worker_id lease_until now : ℕ)
    → ((i : ℕ) → set_contains ids i ≡ true → set_contains (ids_of (select_where q t.rows)) i ≡ true)
    → ((j : Job) → q j ≡ true → is_active j ≡ true)
    → IsValid t
    → IsValid (change t (has_id ids) (start_job worker_id lease_until now)).table
started-IsValid t ids q worker_id lease_until now hi hq v =
    update_where-Valid (has_id ids) (start_job worker_id lease_until now) t.next_id t.rows v (
      All-imp t.rows (λ j h e. start_job-Keeps worker_id lease_until now j (hq j (h (hi j.id e))))
        (selected-holds q t.next_id t.rows v))

abbrev pub is_claimable : ℕ → Option ℕ → (ℕ → Bool) → Job → Bool
is_claimable now chain locked j = is_due now j && (on_chain chain j && not (locked j.id))

pub claimed_ids-selected :
    (t : JobTable) (limit : ℕ) (chain : Option ℕ) (locked : ℕ → Bool) (now i : ℕ)
    → set_contains (claimed_ids t limit chain locked now) i ≡ true
    → set_contains (ids_of (select_where (is_claimable now chain locked) t.rows)) i ≡ true
unfolding claimed_ids
claimed_ids-selected t limit chain locked now i h =
    let rows = select_where (is_claimable now chain locked) t.rows in
    sym (ids-sort_by claims_before rows i) ∙ ids-take_jobs limit (sort_by claims_before rows) i h

due-active : (now : ℕ) (j : Job) → is_due now j ≡ true → is_active j ≡ true
unfolding is_due
due-active now j h = ground arith

pub claim-IsValid :
    (t : JobTable) (worker_id lease limit : ℕ) (chain : Option ℕ) (locked : ℕ → Bool) (now : ℕ)
    → IsValid t
    → IsValid (claim t worker_id lease limit chain locked now).table
unfolding claim
claim-IsValid t worker_id lease limit chain locked now v = elim (Bool-cases (limit == 0)) [
  | inl e ↦ rw e v
  | inr e ↦ rw e (
      started-IsValid t (claimed_ids t limit chain locked now) (is_claimable now chain locked)
        worker_id (now + lease) now (claimed_ids-selected t limit chain locked now)
        (λ j h. due-active now j (ground (arith, h))) v)
]

abbrev pub is_sibling : Job → ℕ → (ℕ → Bool) → Job → Bool
is_sibling job now locked j =
    job.chain_id == j.chain_id
    && (dataset_eq job.dataset j.dataset
        && (same_blocks job.blocks j.blocks
            && (is_pending j.status
                && (leb j.next_run_at now && (not (j.id == job.id) && not (locked j.id))))))

pub sibling_ids-selected :
    (t : JobTable) (job : Job) (limit : ℕ) (locked : ℕ → Bool) (now i : ℕ)
    → set_contains (sibling_ids t job limit locked now) i ≡ true
    → set_contains (ids_of (select_where (is_sibling job now locked) t.rows)) i ≡ true
unfolding sibling_ids
sibling_ids-selected t job limit locked now i h =
    let rows = select_where (is_sibling job now locked) t.rows in
    sym (ids-sort_by by_id rows i) ∙ ids-take_jobs limit (sort_by by_id rows) i h

pub siblings-IsValid :
    (t : JobTable) (job : Job) (limit : ℕ) (locked : ℕ → Bool) (now : ℕ)
    → IsValid t
    → IsValid (table_after t (claim_batch_siblings t job limit locked now))
unfolding claim_batch_siblings
siblings-IsValid t job limit locked now v = go job.worker_id job.lease_until refl refl
  where
    go :
        (w u : Option ℕ)
        → job.worker_id ≡ w
        → job.lease_until ≡ u
        → IsValid (table_after t (claim_batch_siblings t job limit locked now))
    go none u e f = rw e v
    go (some w) none e f = rw (e, f) v
    go (some w) (some u) e f = elim (Bool-cases (limit == 0)) [
      | inl z ↦ rw (e, f, z) v
      | inr z ↦
          rw (e, f, z)
            (started-IsValid t (sibling_ids t job limit locked now) (is_sibling job now locked) w u
              now (sibling_ids-selected t job limit locked now) (λ j h. ground (arith, h)) v)
    ]
