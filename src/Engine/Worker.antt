-- ===== src/Engine/Worker.antt =====
-- crates/engine/src/worker.rs: what a worker fetches for a batch of log jobs, what it commits, and how
-- a failure is recorded. The members come in the order of their ids. `get_logs n` is the n-th call of crates/evm/src/logs.rs's `get_logs`. Times are
-- milliseconds. The store's transactions, the leases' renewal, usage and metrics are left out.
pub mod Groups
pub mod Fill
pub mod Calls
mod Tests
use datalens.Prelude.{
  ℕ, zero, suc, ◌+◌, ◌-◌, ◌*◌, ◌^◌, min, max, Bool, true, false, not, ◌&&◌, ◌||◌, Option, none,
  some, List, [], ◌∷◌, ◌++◌, map, any, leb, ltb, ◌==◌, if◌then◌else◌, set_contains, saturating_sub,
}
use datalens.Core.Range.{BlockRange, new}
use datalens.Core.Selector.{LogSelector, batch, matches}
use datalens.Core.Wire.{LogRow}
use datalens.Evm.Logs.{LogsPage}
use datalens.Engine.Plan.{uncovered}
use datalens.Provider.Errors.{
  ProviderError, not_ready, rate_limited, transient, budget_exhausted, throttled, fatal, limit,
  batch_too_large, provider_text,
}

-- A job's selector, with what its coverage has of the cell.
pub record Member : Type 0 where
  pub id : ℕ
  pub selector : LogSelector
  pub covered : List BlockRange

pub record Gaps : Type 0 where
  pub missing : List BlockRange
  pub members : List Member

abbrev pub ranges_eq : List BlockRange → List BlockRange → Bool
ranges_eq [] [] = true
ranges_eq [] (r ∷ rs) = false
ranges_eq (r ∷ rs) [] = false
ranges_eq (r ∷ rs) (s ∷ ss) = (r.start == s.start && r.end == s.end) && ranges_eq rs ss

-- A member joins the gaps with the same missing parts, or new ones.
pub add_gaps : List BlockRange → Member → List Gaps → List Gaps
add_gaps missing m [] = record { missing = missing; members = m ∷ [] } ∷ []
add_gaps missing m (g ∷ gaps) =
    if ranges_eq g.missing missing
    then record g { members = g.members ++ m ∷ [] } ∷ gaps
    else g ∷ add_gaps missing m gaps

-- The loop of `fill` over the members.
pub gaps_from : BlockRange → List Gaps → List Member → List Gaps
unfolding add_gaps
gaps_from blocks gaps [] = gaps
gaps_from blocks gaps (m ∷ members) =
    let missing = uncovered blocks m.covered in
    let added = add_gaps missing m gaps in
    elim missing [ [] ↦ gaps_from blocks gaps members | r ∷ rs ↦ gaps_from blocks added members ]

abbrev selectors_of : List Member → List LogSelector
selectors_of members = map (λ m. m.selector) members

-- The loop of `batch_groups`, with the last group where there is one.
pub groups_from : ℕ → Option (List Member) → List Member → List (List Member)
groups_from max_addresses none [] = []
groups_from max_addresses (some group) [] = group ∷ []
groups_from max_addresses none (m ∷ members) = groups_from max_addresses (some (m ∷ [])) members
groups_from max_addresses (some group) (m ∷ members) =
    let grown = groups_from max_addresses (some (group ++ m ∷ [])) members in
    let next = group ∷ groups_from max_addresses (some (m ∷ [])) members in
    elim (batch (selectors_of (group ++ m ∷ [])) max_addresses) [ none ↦ next | some s ↦ grown ]

pub batch_groups : List Member → ℕ → List (List Member)
unfolding groups_from
batch_groups members max_addresses = groups_from max_addresses none members

-- One call of `get_logs`: a group and a gap, in the order of the loops of `fetch_logs`.
pub record Task : Type 0 where
  pub group : List Member
  pub gap : BlockRange

abbrev pub tasks_of_group : List Member → List BlockRange → List Task
tasks_of_group group missing = map (λ gap. record { group = group; gap = gap }) missing

abbrev pub tasks_of_groups : List (List Member) → List BlockRange → List Task
tasks_of_groups [] missing = []
tasks_of_groups (group ∷ groups) missing =
    tasks_of_group group missing ++ tasks_of_groups groups missing

pub tasks_of : ℕ → List Gaps → List Task
unfolding batch_groups
tasks_of max_addresses [] = []
tasks_of max_addresses (g ∷ gaps) =
    tasks_of_groups (batch_groups g.members max_addresses) g.missing ++ tasks_of max_addresses gaps

-- How a call of `get_logs` ends: its page, whole or up to an error.
pub record PageEnd : Type 0 where
  pub page : LogsPage
  pub error : Option ProviderError

pub record Fetch : Type 0 where
  pub members : List ℕ
  pub blocks : Option BlockRange
  pub calls : ℕ

pub record Fetched : Type 0 where
  pub logs : List LogRow
  pub fetches : List Fetch
  pub error : Option ProviderError

-- `rows.insert` of a map by block number and log index.
pub insert_row : LogRow → List LogRow → List LogRow
insert_row row [] = row ∷ []
insert_row row (r ∷ rows) =
    if row.block_number == r.block_number && row.log_index == r.log_index
    then row ∷ rows
    else if ltb row.block_number r.block_number
        || (row.block_number == r.block_number && ltb row.log_index r.log_index)
    then row ∷ r ∷ rows
    else r ∷ insert_row row rows

-- The rows of a page that some member of the group matches.
pub insert_matching : List Member → List LogRow → List LogRow → List LogRow
unfolding insert_row
insert_matching group [] rows = rows
insert_matching group (row ∷ page) rows =
    insert_matching group page
      (if any (λ s. matches s row) (selectors_of group) then insert_row row rows else rows)

abbrev first_selector : List Member → Option LogSelector
first_selector [] = none
first_selector (m ∷ members) = some m.selector

pub query_of : List Member → ℕ → Option LogSelector
query_of group max_addresses = elim (batch (selectors_of group) max_addresses) [
  | some s ↦ some s
  | none ↦ first_selector group
]

-- `and_then(|end| BlockRange::new(gap.start(), end).ok())`
abbrev pub fetched_blocks : BlockRange → Option ℕ → Option BlockRange
fetched_blocks gap none = none
fetched_blocks gap (some end) = new gap.start end

module _ (get_logs : ℕ → LogSelector → BlockRange → PageEnd) where
  -- The loops of `fetch_logs`, which stop at the first error. No group is empty, since each starts with
  -- a member; an empty one would end the loops.
  pub fetch_from : ℕ → ℕ → List Task → List LogRow → Fetched
  unfolding insert_matching query_of
  fetch_from max_addresses n [] rows = record { logs = rows; fetches = []; error = none }
  fetch_from max_addresses n (t ∷ tasks) rows = elim (query_of t.group max_addresses) [
    | none ↦ record { logs = rows; fetches = []; error = some (fatal provider_text) }
    | some query ↦
        let e = get_logs n query t.gap in
        let rows' = insert_matching t.group e.page.rows rows in
        let fetch : Fetch = record {
          members = map (λ m. m.id) t.group;
          blocks = fetched_blocks t.gap e.page.fetched_to;
          calls = e.page.calls;
        } in
        let rest = fetch_from max_addresses (n + 1) tasks rows' in
        elim e.error [
          | some error ↦ record { logs = rows'; fetches = fetch ∷ []; error = some error }
          | none ↦ record rest { fetches = fetch ∷ rest.fetches }
        ]
  ]

  pub fetch_logs : ℕ → List Gaps → Fetched
  unfolding fetch_from tasks_of
  fetch_logs max_addresses gaps = fetch_from max_addresses 0 (tasks_of max_addresses gaps) []

-- One row of coverage that `add_coverage_many` adds.
pub record Commit : Type 0 where
  pub id : ℕ
  pub blocks : BlockRange

-- `held_members` of a fetch, each with the blocks fetched.
pub commits_of_members : List ℕ → BlockRange → List ℕ → List Commit
commits_of_members held blocks [] = []
commits_of_members held blocks (id ∷ ids) =
    let rest = commits_of_members held blocks ids in
    if set_contains held id then record { id = id; blocks = blocks } ∷ rest else rest

-- The loop of `fill` that adds coverage.
pub commits_of : List ℕ → List Fetch → List Commit
unfolding commits_of_members
commits_of held [] = []
commits_of held (f ∷ fetches) = elim f.blocks [
  | none ↦ commits_of held fetches
  | some blocks ↦ commits_of_members held blocks f.members ++ commits_of held fetches
]

-- What the transaction of `fill` commits for the held selectors: rows, coverage, and whether the held
-- jobs are completed.
pub record Filled : Type 0 where
  pub logs : List LogRow
  pub coverage : List Commit
  pub completes : Bool
  pub error : Option ProviderError

pub fill_logs :
    (ℕ → LogSelector → BlockRange → PageEnd) → ℕ → BlockRange → List Member → List ℕ → Filled
unfolding fetch_logs gaps_from commits_of
fill_logs get_logs max_addresses blocks members held =
    let fetched = fetch_logs get_logs max_addresses (gaps_from blocks [] members) in
    record {
      logs = fetched.logs;
      coverage = commits_of held fetched.fetches;
      completes = elim fetched.error [ none ↦ true | some e ↦ false ];
      error = fetched.error;
    }

pub data FillError : Type 0 where
  provider : ProviderError → FillError
  reorg_at : ℕ → FillError
  internal : FillError

-- The parts of `Failure` that decide what becomes of a job.
pub record Failure : Type 0 where
  pub retryable : Bool
  pub retry_after : ℕ

is_retryable : ProviderError → Bool
is_retryable not_ready = true
is_retryable (rate_limited retry_after) = true
is_retryable (transient status) = true
is_retryable budget_exhausted = true
is_retryable throttled = true
is_retryable limit = false
is_retryable (fatal message) = false
is_retryable batch_too_large = false

retry_after_of : ProviderError → ℕ
retry_after_of (rate_limited retry_after) = retry_after
retry_after_of e = 0

abbrev pub internal_attempts : ℕ
internal_attempts = 3

-- The `match` of `execute`, for a leader with so many attempts.
pub failure_of : FillError → ℕ → Failure
unfolding is_retryable retry_after_of
failure_of (provider e) attempts = record {
  retryable = is_retryable e;
  retry_after = retry_after_of e;
}
failure_of (reorg_at block) attempts = record { retryable = true; retry_after = 0 }
failure_of internal attempts = record {
  retryable = ltb attempts internal_attempts;
  retry_after = 0;
}

abbrev pub max_backoff : ℕ
max_backoff = 300000

-- `backoff`; attempts are never negative.
pub backoff : ℕ → ℕ
backoff attempts = min (1000 * 2 ^ min (saturating_sub attempts 1) 9) max_backoff

-- The delay with which `execute` records a job's failure.
pub job_backoff : Failure → ℕ → ℕ
unfolding backoff
job_backoff failure attempts = min (max (backoff attempts) failure.retry_after) max_backoff
