-- ===== src/Engine/Worker/Tests.antt =====
-- A fill of two jobs at a concrete provider.
use datalens.Prelude.{ℕ, ◌≡◌, refl, List, [], ◌∷◌, true, false, some, none, map, arith}
use datalens.Core.Range.{BlockRange, intersect, new}
use datalens.Core.Selector.{LogSelector, any_topic, batch}
use datalens.Provider.Errors.{rate_limited}
use datalens.Engine.Worker.{
  Member, Filled, PageEnd, fill_logs, backoff, job_backoff, failure_of, provider, internal,
}
use datalens.Engine.Plan.{uncovered}
use datalens.Engine.Worker.Fill.{Covered, fill_logs-Covered}

abbrev of_address : ℕ → LogSelector
of_address address = record {
  addresses = address ∷ [];
  topic0 = any_topic;
  topic1 = any_topic;
  topic2 = any_topic;
  topic3 = any_topic;
}

abbrev cell : BlockRange
cell = record { start = 0; end = 19 }

-- The two lack other parts of the cell, and so are fetched apart.
abbrev members : List Member
members =
    record { id = 1; selector = of_address 7; covered = record { start = 0; end = 9 } ∷ [] }
    ∷ record { id = 2; selector = of_address 8; covered = [] }
    ∷ []

abbrev served : ℕ → LogSelector → BlockRange → PageEnd
served n query gap = record {
  page = record { rows = []; fetched_to = some gap.end; calls = 1 };
  error = none;
}

abbrev filled : Filled
filled = fill_logs served 2 cell members (1 ∷ 2 ∷ [])

backoffs : map backoff (0 ∷ 1 ∷ 2 ∷ 5 ∷ 20 ∷ []) ≡ 1000 ∷ 1000 ∷ 2000 ∷ 16000 ∷ 300000 ∷ []
unfolding backoff
backoffs = refl

long_hold : job_backoff (failure_of (provider (rate_limited 900000)) 1) 1 ≡ 300000
unfolding job_backoff failure_of
long_hold = refl

third_internal : (failure_of internal 3).retryable ≡ false
unfolding failure_of
third_internal = refl

filled-completes : filled.completes ≡ true
unfolding fill_logs batch uncovered intersect new
filled-completes = refl

committed :
    filled.coverage
    ≡ record { id = 1; blocks = record { start = 10; end = 19 } }
      ∷ record { id = 2; blocks = cell }
      ∷ []
unfolding fill_logs batch uncovered intersect new
committed = refl

fill_logs-Covered_example :
    Covered served (λ n query gap v e. refl) cell members (1 ∷ 2 ∷ []) filled
fill_logs-Covered_example =
    fill_logs-Covered served (λ n query gap v e. refl) 2 cell members (1 ∷ 2 ∷ [])
      (record { ordered = omega arith; bounded = omega arith })
      ((0, (omega arith, tt)), ((0, tt), tt)) filled-completes
