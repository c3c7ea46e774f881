-- ===== src/Engine/Durable.antt =====
-- `fill_durable` and `blocker` of crates/engine/src/query.rs: how the durable part of a query is read,
-- filled by jobs, and read again. `active` and `enqueue` are the store's statements at the n-th chunk,
-- `first` and `second` the coverage that it returns for a range, `promoted` what it returns after each
-- change of the head until the deadline, and `status` a job's state. `none` is the error of a range
-- that cannot be; the errors of the store and the text of a blocker are left out.
mod Filled
mod Tests
use datalens.Prelude.{
  ℕ, zero, suc, ◌+◌, ◌-◌, min, max, Bool, true, false, not, ◌&&◌, ◌||◌, Option, none, some, List,
  [], ◌∷◌, ◌++◌, leb, ltb, ◌==◌, if◌then◌else◌,
}
use datalens.Core.Range.{BlockRange, new, len, contains}
use datalens.Core.Wire.{
  Heads, IncompleteReason, pending, provider_error, budget_exhausted, not_followed_yet,
}
use datalens.Store.Coverage.{longest_covered_prefix}
use datalens.Store.Jobs.{JobStatus, is_failed}
use datalens.Engine.Plan.{grid_span, fill_chunks}
use datalens.Engine.Budget.{FillBudget, try_take}
use datalens.Engine.Query.{Progress, reaches}

-- `checked_sub(1)`, cut at the safe head.
abbrev end_before : ℕ → ℕ → Option ℕ
end_before zero safe = none
end_before (suc n) safe = some (min n safe)

-- Where fills end: before the blocks that a follow row owns, the caller's or another's.
pub fill_end_of : Option ℕ → Option ℕ → ℕ → Option ℕ
fill_end_of (some from_block) existing safe = end_before from_block safe
fill_end_of none (some from_block) safe = end_before from_block safe
fill_end_of none none safe = some safe

pub fill_span_of : BlockRange → ℕ → Option ℕ → Option BlockRange
fill_span_of durable chunk none = none
fill_span_of durable chunk (some end) =
    if leb durable.start end then grid_span durable chunk end else none

abbrev pub span_of : BlockRange → Option BlockRange → Option BlockRange
span_of durable none = some durable
span_of durable (some fill) = new fill.start (max fill.end durable.end)

-- The jobs of a request, and whether a charge was refused.
pub record Joined : Type 0 where
  pub jobs : List (ℕ × BlockRange)
  pub over_budget : Bool

abbrev with_job : ℕ → BlockRange → Joined → Joined
with_job id chunk j = record j { jobs = (id, chunk) ∷ j.jobs }

module _ (active : ℕ → BlockRange → Option ℕ) (enqueue : ℕ → BlockRange → ℕ) (clock : ℕ → ℕ) where
  -- The loop over the planned chunks.
  pub join_from : ℕ → Option FillBudget → Bool → List BlockRange → Joined
  unfolding len
  join_from n budget over_budget [] = record { jobs = []; over_budget = over_budget }
  join_from n none over_budget (chunk ∷ planned) =
      with_job (enqueue n chunk) chunk (join_from (n + 1) none over_budget planned)
  join_from n (some b) over_budget (chunk ∷ planned) =
      let taken = try_take b (clock n) (len chunk) in
      let joined = join_from (n + 1) (some b) over_budget planned in
      let skipped = join_from (n + 1) (some b) true planned in
      let refused = join_from (n + 1) (some taken.0) true planned in
      let granted = join_from (n + 1) (some taken.0) over_budget planned in
      elim (active n chunk) [
        | some id ↦ with_job id chunk joined
        | none ↦
            if over_budget
            then skipped
            else if taken.1
            then with_job (enqueue n chunk) chunk granted
            else refused
      ]

-- The kind of a job's last error, by the two that are told apart.
pub data ErrorKind : Type 0 where
  out_of_tokens other_kind : ErrorKind

abbrev job_of : ℕ → List (ℕ × BlockRange) → Option ℕ
job_of block [] = none
job_of block ((id, chunk) ∷ jobs) = if contains chunk block then some id else job_of block jobs

abbrev kind_reason : Option ErrorKind → IncompleteReason
kind_reason (some out_of_tokens) = budget_exhausted
kind_reason (some other_kind) = pending
kind_reason none = pending

-- Why a block is not covered yet.
pub blocker : (ℕ → Option (JobStatus × Option ErrorKind)) → Joined → ℕ → IncompleteReason
unfolding contains
blocker status j block = elim (job_of block j.jobs) [
  | none ↦ if j.over_budget then budget_exhausted else pending
  | some id ↦ elim (status id) [
    | none ↦ pending
    | some (s, kind) ↦ if is_failed s then provider_error else kind_reason kind
  ]
]

-- A part that is served up to its end, or else what follows.
abbrev pub complete_or : BlockRange → Option BlockRange → Progress → Progress
complete_or durable served short =
    if reaches (record { served = served; blocker = none }) durable.end
    then record { served = served; blocker = none }
    else short

-- The loop that waits for the promotion of blocks that the follower owns.
pub await_promotion : BlockRange → Option BlockRange → List (List BlockRange) → Progress
await_promotion durable served [] = record { served = served; blocker = some not_followed_yet }
await_promotion durable served (covered ∷ promoted) =
    let next = longest_covered_prefix covered durable in
    complete_or durable next (await_promotion durable next promoted)

abbrev first_missing : BlockRange → Option BlockRange → ℕ
first_missing durable none = durable.start
first_missing durable (some served) = served.end + 1

-- `fill_end.is_none_or(|end| first_missing(served) > end)`
abbrev past_fills : BlockRange → Option ℕ → Option BlockRange → Bool
past_fills durable none served = true
past_fills durable (some end) served = ltb end (first_missing durable served)

abbrev planned_chunks : Option BlockRange → Option ℕ → List BlockRange → ℕ → List BlockRange
planned_chunks (some fill) (some end) covered chunk = fill_chunks fill covered chunk end
planned_chunks (some fill) none covered chunk = []
planned_chunks none end covered chunk = []

module _ (active : ℕ → BlockRange → Option ℕ) (enqueue : ℕ → BlockRange → ℕ) (clock : ℕ → ℕ)
    (first second : BlockRange → List BlockRange) (promoted : List (List BlockRange))
    (status : ℕ → Option (JobStatus × Option ErrorKind)) where
  -- What follows once the fills were waited for.
  pub after_fills : BlockRange → Option ℕ → Joined → Progress
  unfolding await_promotion blocker
  after_fills durable fill_end j =
      let served = longest_covered_prefix (second durable) durable in
      complete_or durable served (
        if past_fills durable fill_end served
        then await_promotion durable served promoted
        else record {
          served = served;
          blocker = some (blocker status j (first_missing durable served));
        })

  pub fill_durable :
      BlockRange → ℕ → Option ℕ → Option ℕ → Heads → Option FillBudget → Option Progress
  unfolding fill_end_of fill_span_of join_from after_fills
  fill_durable durable chunk follow existing heads budget =
      let fill_end = fill_end_of follow existing heads.safe in
      let fill_span = fill_span_of durable chunk fill_end in
      elim (span_of durable fill_span) [
        | none ↦ none
        | some span ↦
            let covered = first span in
            let j =
              join_from active enqueue clock 0 budget false
                (planned_chunks fill_span fill_end covered chunk) in
            some (
              complete_or durable (longest_covered_prefix covered durable)
                (after_fills durable fill_end j))
      ]
