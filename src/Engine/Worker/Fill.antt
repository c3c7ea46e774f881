-- ===== src/Engine/Worker/Fill.antt =====
-- What the commit of crates/engine/src/worker.rs covers when it completes jobs.
use datalens.Prelude.{
  ℕ, ◌+◌, ◌≡◌, ◌∙◌, sym, ap, refl, inl, inr, Bool, true, ◌&&◌, ◌||◌, none, some, List, [], ◌∷◌, map,
  any, any-append, All, All-append, All-imp, ◌==◌, arith, Bool-cases, Option-cases, set_contains,
}
use datalens.Core.Range.{BlockRange, IsValid, new, contains}
use datalens.Core.Range.Lists.{holds, StartsFrom}
use datalens.Core.Selector.{LogSelector}
use datalens.Core.Wire.{LogRow}
use datalens.Provider.Errors.{ProviderError}
use datalens.Engine.Plan.{uncovered}
use datalens.Engine.Plan.Gaps.{holds-uncovered, uncovered-DisjointFrom}
use datalens.Engine.Worker.{
  Member, Gaps, Task, add_gaps, gaps_from, batch_groups, tasks_of_group, tasks_of_groups, tasks_of,
  PageEnd, Fetch, Fetched, query_of, fetched_blocks, insert_matching, fetch_from, fetch_logs,
  Commit, commits_of_members, commits_of, Filled, fill_logs,
}
use datalens.Engine.Worker.Groups.{has_member, asks, lacking, lacks-gaps_from, asks-tasks_of}

abbrev pub covers : ℕ → ℕ → List Commit → Bool
covers id b commits = any (λ c. c.id == id && contains c.blocks b) commits

-- The gaps of the calls are valid ranges.
abbrev ValidTasks : List Task → Type 0
ValidTasks tasks = All (λ t. IsValid t.gap) tasks

abbrev ValidGaps : List Gaps → Type 0
ValidGaps gaps = All (λ g. All IsValid g.missing) gaps

uncovered-Valid :
    (blocks : BlockRange) (covered : List BlockRange)
    → IsValid blocks
    → All IsValid (uncovered blocks covered)
uncovered-Valid blocks covered v =
    All-imp (uncovered blocks covered)
      (λ r w. record { ordered = w.ordered; bounded = omega (arith, w.to, v.bounded) })
      (uncovered-DisjointFrom blocks covered v).1

add_gaps-Valid :
    (missing : List BlockRange) (m : Member) (gaps : List Gaps)
    → All IsValid missing
    → ValidGaps gaps
    → ValidGaps (add_gaps missing m gaps)
unfolding add_gaps
add_gaps-Valid missing m [] h g = (h, tt)
add_gaps-Valid missing m (x ∷ gaps) h g = ground (arith, add_gaps-Valid missing m gaps h g.1, h, g)

gaps_from-Valid :
    (blocks : BlockRange) (gaps : List Gaps) (members : List Member)
    → IsValid blocks
    → ValidGaps gaps
    → ValidGaps (gaps_from blocks gaps members)
unfolding gaps_from
gaps_from-Valid blocks gaps [] v g = g
gaps_from-Valid blocks gaps (m ∷ members) v g =
    either (uncovered blocks m.covered) (gaps_from-Valid blocks gaps members v g) (
      gaps_from-Valid blocks (add_gaps (uncovered blocks m.covered) m gaps) members v
        (add_gaps-Valid (uncovered blocks m.covered) m gaps (uncovered-Valid blocks m.covered v) g))
  where
    either :
        (missing : List BlockRange)
        → ValidGaps (gaps_from blocks gaps members)
        → ValidGaps (gaps_from blocks (add_gaps (uncovered blocks m.covered) m gaps) members)
        → ValidGaps (elim missing as (λ x. List Gaps) [
          | [] ↦ gaps_from blocks gaps members
          | r ∷ rs ↦ gaps_from blocks (add_gaps (uncovered blocks m.covered) m gaps) members
        ])
    either [] h k = h
    either (r ∷ rs) h k = k

tasks_of_group-Valid :
    (group : List Member) (missing : List BlockRange)
    → All IsValid missing
    → ValidTasks (tasks_of_group group missing)
tasks_of_group-Valid group [] h = tt
tasks_of_group-Valid group (r ∷ missing) h = (h.0, tasks_of_group-Valid group missing h.1)

tasks_of_groups-Valid :
    (groups : List (List Member)) (missing : List BlockRange)
    → All IsValid missing
    → ValidTasks (tasks_of_groups groups missing)
tasks_of_groups-Valid [] missing h = tt
tasks_of_groups-Valid (group ∷ groups) missing h =
    All-append (λ t. IsValid t.gap) (tasks_of_group group missing) (tasks_of_groups groups missing)
      (tasks_of_group-Valid group missing h) (tasks_of_groups-Valid groups missing h)

tasks_of-Valid :
    (max_addresses : ℕ) (gaps : List Gaps)
    → ValidGaps gaps
    → ValidTasks (tasks_of max_addresses gaps)
unfolding tasks_of
tasks_of-Valid max_addresses [] g = tt
tasks_of-Valid max_addresses (x ∷ gaps) g =
    All-append (λ t. IsValid t.gap)
      (tasks_of_groups (batch_groups x.members max_addresses) x.missing)
      (tasks_of max_addresses gaps)
      (tasks_of_groups-Valid (batch_groups x.members max_addresses) x.missing g.0)
      (tasks_of-Valid max_addresses gaps g.1)

covers-commits_of_members :
    (held : List ℕ) (blocks : BlockRange) (group : List Member) (id b : ℕ)
    → covers id b (commits_of_members held blocks (map (λ m. m.id) group))
      ≡ (set_contains held id && (has_member id group && contains blocks b))
unfolding commits_of_members
covers-commits_of_members held blocks [] id b = ground arith
covers-commits_of_members held blocks (m ∷ group) id b = elim (Bool-cases (m.id == id)) [
  | inl e ↦
      let same : m.id ≡ id = ground (arith, e) in
      ground
        (arith, covers-commits_of_members held blocks group id b, ap (set_contains held) same, e)
  | inr e ↦ ground (arith, covers-commits_of_members held blocks group id b, e)
]

whole-gap : (gap : BlockRange) → IsValid gap → fetched_blocks gap (some gap.end) ≡ some gap
unfolding new
whole-gap gap v = ground (arith, v.ordered, v.bounded)

-- A call for a valid range that has no error fetches to the end of the range.
abbrev pub Reaches : (ℕ → LogSelector → BlockRange → PageEnd) → Type 0
Reaches get_logs =
    (n : ℕ) (query : LogSelector) (gap : BlockRange)
    → IsValid gap
    → (get_logs n query gap).error ≡ none
    → (get_logs n query gap).page.fetched_to ≡ some gap.end

module _ (get_logs : ℕ → LogSelector → BlockRange → PageEnd) (reaches : Reaches get_logs) where
  -- What follows a call that did not fail.
  abbrev after_call : ℕ → ℕ → Task → List Task → List LogRow → LogSelector → Fetched
  after_call max_addresses n t tasks rows query =
      fetch_from get_logs max_addresses (n + 1) tasks
        (insert_matching t.group (get_logs n query t.gap).page.rows rows)

  abbrev fetch_of : ℕ → Task → LogSelector → Fetch
  fetch_of n t query = record {
    members = map (λ m. m.id) t.group;
    blocks = fetched_blocks t.gap (get_logs n query t.gap).page.fetched_to;
    calls = (get_logs n query t.gap).page.calls;
  }

  fetch_from-next :
      (max_addresses n : ℕ) (t : Task) (tasks : List Task) (rows : List LogRow)
      (query : LogSelector)
      → query_of t.group max_addresses ≡ some query
      → (get_logs n query t.gap).error ≡ none
      → fetch_from get_logs max_addresses n (t ∷ tasks) rows
        ≡ record (after_call max_addresses n t tasks rows query) {
          fetches = fetch_of n t query ∷ (after_call max_addresses n t tasks rows query).fetches;
        }
  unfolding fetch_from
  fetch_from-next max_addresses n t tasks rows query q g = rw (q, fetch_from, g) refl

  fetch_from-query :
      (max_addresses n : ℕ) (t : Task) (tasks : List Task) (rows : List LogRow)
      → query_of t.group max_addresses ≡ none
      → (fetch_from get_logs max_addresses n (t ∷ tasks) rows).error ≡ none
      → ⊥
  unfolding fetch_from
  fetch_from-query max_addresses n t tasks rows q e = ground (arith, q, e)

  fetch_from-error :
      (max_addresses n : ℕ) (t : Task) (tasks : List Task) (rows : List LogRow)
      (query : LogSelector) (error : ProviderError)
      → query_of t.group max_addresses ≡ some query
      → (get_logs n query t.gap).error ≡ some error
      → (fetch_from get_logs max_addresses n (t ∷ tasks) rows).error ≡ none
      → ⊥
  unfolding fetch_from
  fetch_from-error max_addresses n t tasks rows query error q g e = ground (arith, q, g, e)

  covers-next :
      (held : List ℕ) (t : Task) (n : ℕ) (query : LogSelector) (fetches : List Fetch) (id b : ℕ)
      → IsValid t.gap
      → (get_logs n query t.gap).error ≡ none
      → covers id b (commits_of held (fetch_of n t query ∷ fetches)) ≡ (
          set_contains held id && (has_member id t.group && contains t.gap b)
          || covers id b (commits_of held fetches))
  unfolding commits_of
  covers-next held t n query fetches id b v g =
      let whole = ap (fetched_blocks t.gap) (reaches n query t.gap v g) ∙ whole-gap t.gap v in
      rw (whole, commits_of)
        (any-append (λ c. c.id == id && contains c.blocks b)
            (commits_of_members held t.gap (map (λ m. m.id) t.group)) (commits_of held fetches)
          ∙ ap (λ x. x || covers id b (commits_of held fetches))
              (covers-commits_of_members held t.gap t.group id b))

  covers-fetch_from :
      (max_addresses n : ℕ) (tasks : List Task) (rows : List LogRow) (held : List ℕ) (id b : ℕ)
      → ValidTasks tasks
      → (fetch_from get_logs max_addresses n tasks rows).error ≡ none
      → covers id b (commits_of held (fetch_from get_logs max_addresses n tasks rows).fetches)
        ≡ (set_contains held id && asks id b tasks)
  unfolding fetch_from commits_of
  covers-fetch_from max_addresses n [] rows held id b v e = ground arith
  covers-fetch_from max_addresses n (t ∷ tasks) rows held id b v e =
      elim (Option-cases (query_of t.group max_addresses)) [
        | inl q ↦ absurd (fetch_from-query max_addresses n t tasks rows q e)
        | inr (query, q) ↦ elim (Option-cases (get_logs n query t.gap).error) [
          | inr (error, g) ↦
              absurd (fetch_from-error max_addresses n t tasks rows query error q g e)
          | inl g ↦
              let step = fetch_from-next max_addresses n t tasks rows query q g in
              let e' : (after_call max_addresses n t tasks rows query).error ≡ none =
                sym (ap (λ f. f.error) step) ∙ e in
              let rest =
                covers-fetch_from max_addresses (n + 1) tasks
                  (insert_matching t.group (get_logs n query t.gap).page.rows rows) held id b v.1
                  e' in
              ap (λ f. covers id b (commits_of held f.fetches)) step
              ∙ (covers-next held t n query (after_call max_addresses n t tasks rows query).fetches
                    id b v.0 g
                  ∙ ground (arith, rest))
        ]
      ]

  -- The cell of each held member, block by block.
  abbrev pub Covered : BlockRange → List Member → List ℕ → Filled → Type 0
  Covered blocks members held filled =
      All
        (λ m.
          set_contains held m.id ≡ true
          → (b : ℕ) → contains blocks b ≡ true
          → (holds m.covered b || covers m.id b filled.coverage) ≡ true)
        members

  lacking-All :
      (blocks : BlockRange) (members : List Member)
      → IsValid blocks
      → All (λ m. (n : ℕ) × StartsFrom n m.covered) members
      → All
          (λ m.
            (b : ℕ)
            → contains blocks b ≡ true
            → (holds m.covered b || lacking blocks m.id b members) ≡ true)
          members
  lacking-All blocks [] v s = tt
  lacking-All blocks (m ∷ members) v s = (
    (λ b c. ground (arith, holds-uncovered blocks m.covered s.0.0 b v s.0.1, c)),
    All-imp members (λ k h b c. ground (arith, h b c)) (lacking-All blocks members v s.1),
  )

  -- For a valid cell, with coverage in the order of its starts, where a call of `get_logs` without an
  -- error reaches the end of its range: if the commit completes the jobs, then each block of the cell
  -- is covered for each held selector, by what was covered before or by what the commit adds.
  pub fill_logs-Covered :
      (max_addresses : ℕ) (blocks : BlockRange) (members : List Member) (held : List ℕ)
      → IsValid blocks
      → All (λ m. (n : ℕ) × StartsFrom n m.covered) members
      → (fill_logs get_logs max_addresses blocks members held).completes ≡ true
      → Covered blocks members held (fill_logs get_logs max_addresses blocks members held)
  unfolding fill_logs fetch_logs
  fill_logs-Covered max_addresses blocks members held v s c =
      let gaps = gaps_from blocks [] members in
      let tasks = tasks_of max_addresses gaps in
      let valid = tasks_of-Valid max_addresses gaps (gaps_from-Valid blocks [] members v tt) in
      let e : (fetch_from get_logs max_addresses 0 tasks []).error ≡ none = ground (arith, c) in
      All-imp members
        (λ m h held' b inside. ground (
          arith,
          h b inside,
          held',
          covers-fetch_from max_addresses 0 tasks [] held m.id b valid e,
          asks-tasks_of max_addresses m.id b gaps,
          lacks-gaps_from blocks m.id b [] members,
        ))
        (lacking-All blocks members v s)
