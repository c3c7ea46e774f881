-- ===== src/Evm/Logs.antt =====
-- crates/evm/src/logs.rs: `get_logs` over adaptive windows and address groups. `reply n` is what
-- `call_counted` returns for the n-th `eth_getLogs`, with each entry decoded by `parse_log`, and how
-- often the provider was contacted for it; `clock n` is the clock after n such calls, read as one value until
-- the next; `others n` is what other users of the same gateway do to its window meanwhile.
pub mod Rows
pub mod Windows
pub mod Pages
use datalens.Prelude.{
  ℕ, zero, suc, ◌+◌, ◌-◌, ◌≤◌, min, Bool, true, false, ◌&&◌, ◌||◌, not, Option, none, some, List,
  [], ◌∷◌, ◌++◌, leb, ltb, ◌==◌, length, if◌then◌else◌, saturating_add, saturating_sub,
  set_contains,
}
use datalens.Core.Range.{BlockRange}
use datalens.Core.Wire.{LogRow, Address}
use datalens.Core.Selector.{LogSelector, filter_matches, topic_at, is_empty}
use datalens.Provider.Errors.{
  ProviderError, limit, fatal, outside_range, wrong_address, wrong_topics, Result, ok, err,
}
use datalens.Provider.Ranges.{RangeBook, current, record_success, record_limit}

pub record LogsPage : Type 0 where
  pub rows : List LogRow
  pub fetched_to : Option ℕ
  pub calls : ℕ

-- `slice.chunks(n)`, which panics at 0, where this makes chunks of one: up to `left` more go into the chunk at hand.
chunk_from : ℕ → ℕ → List Address → List Address → List (List Address)
chunk_from n left open' [] = open' ∷ []
chunk_from n zero open' (a ∷ rest) = open' ∷ chunk_from n (n - 1) (a ∷ []) rest
chunk_from n (suc left) open' (a ∷ rest) = chunk_from n left (open' ++ a ∷ []) rest

pub address_groups : LogSelector → ℕ → List (List Address)
unfolding chunk_from
address_groups selector max_addresses = elim selector.addresses [
  | [] ↦ [] ∷ []
  | a ∷ rest ↦ chunk_from max_addresses (max_addresses - 1) (a ∷ []) rest
]

-- The checks of `parse_log_list` on one decoded row.
check_row : LogSelector → ℕ → ℕ → LogRow → Option ProviderError
check_row selector start end row =
    if ltb row.block_number start || ltb end row.block_number
    then some (fatal outside_range)
    else if not (is_empty selector.addresses) && not (set_contains selector.addresses row.address)
    then some (fatal wrong_address)
    else if filter_matches selector.topic0 (topic_at row.topics 0)
        && (filter_matches selector.topic1 (topic_at row.topics 1)
            && (filter_matches selector.topic2 (topic_at row.topics 2)
                && filter_matches selector.topic3 (topic_at row.topics 3)))
    then none
    else some (fatal wrong_topics)

-- `logs` is what `parse_log` makes of each entry: a row, none for a log that was removed, or an error.
pub parse_log_list : LogSelector → ℕ → ℕ → List (Result (Option LogRow)) → Result (List LogRow)
unfolding check_row
parse_log_list selector start end [] = ok []
parse_log_list selector start end (err error ∷ logs) = err error
parse_log_list selector start end (ok none ∷ logs) = parse_log_list selector start end logs
parse_log_list selector start end (ok (some row) ∷ logs) =
    let rest = parse_log_list selector start end logs in
    elim (check_row selector start end row) [
      | some error ↦ err error
      | none ↦ elim rest [ err error ↦ err error | ok rows ↦ ok (row ∷ rows) ]
    ]

-- The two ways in which one answer fails the window: its own error, and a row that does not fit.
answered : LogSelector → ℕ → ℕ → Result (List (Result (Option LogRow))) → Result (List LogRow)
answered selector start end (err error) = err error
answered selector start end (ok logs) = parse_log_list selector start end logs

-- An answer of the provider, each entry decoded, and how often it was contacted.
pub record Reply : Type 0 where
  pub logs : Result (List (Result (Option LogRow)))
  pub made : ℕ

-- What fetching all groups of a window came to, and the number of the next call.
pub record Groups : Type 0 where
  pub rows : Result (List LogRow)
  pub calls : ℕ
  pub at : ℕ

pub data WindowOutcome : Type 0 where
  window : List LogRow → ℕ → ℕ → WindowOutcome
  lost : ProviderError → ℕ → WindowOutcome
  window_fuel : WindowOutcome

-- A window's outcome, the range book after it, and the number of the next call.
pub record Windowed : Type 0 where
  pub outcome : WindowOutcome
  pub book : RangeBook
  pub at : ℕ

pub data Fetched : Type 0 where
  fetched : LogsPage → Fetched
  failed : LogsPage → ProviderError → Fetched
  fetch_fuel : Fetched

pub window_end : RangeBook → ℕ → ℕ → ℕ → ℕ
window_end book now cursor range_end =
    min (saturating_add cursor (saturating_sub (current book now).0 1)) range_end

module _ (reply : ℕ → LogSelector → ℕ → ℕ → Reply) where
  -- The loop of `fetch_groups`; `rows` and `calls` are what the groups before came to.
  groups_from : LogSelector → List (List Address) → ℕ → ℕ → List LogRow → ℕ → ℕ → Groups
  unfolding answered
  groups_from selector [] start end rows calls n = record { rows = ok rows; calls = calls; at = n }
  groups_from selector (addresses ∷ groups) start end rows calls n =
      let narrowed = record selector { addresses = addresses } in
      let answer = reply n narrowed start end in
      elim (answered narrowed start end answer.logs) [
        | err error ↦ record { rows = err error; calls = calls + answer.made; at = n + 1 }
        | ok parsed ↦
            groups_from selector groups start end (rows ++ parsed) (calls + answer.made) (n + 1)
      ]

  pub fetch_groups : LogSelector → List (List Address) → ℕ → ℕ → ℕ → Groups
  unfolding groups_from
  fetch_groups selector groups start end n = groups_from selector groups start end [] 0 n

  module _ (clock : ℕ → ℕ) (others : ℕ → RangeBook → RangeBook) where
    -- `fetch_window`, with fuel for its rounds.
    pub fetch_window : ℕ → LogSelector → List (List Address) → RangeBook → ℕ → ℕ → ℕ → ℕ → Windowed
    fetch_window zero selector groups book cursor range_end calls n = record {
      outcome = window_fuel;
      book = book;
      at = n;
    }
    fetch_window (suc fuel) selector groups book cursor range_end calls n =
        let end = window_end book (clock n) cursor range_end in
        let g = fetch_groups selector groups cursor end n in
        let now = clock g.at in
        let shared = others g.at (current book (clock n)).1 in
        elim g.rows [
          | ok rows ↦ record {
            outcome = window rows end (calls + g.calls);
            book = record_success shared now;
            at = g.at;
          }
          | err error ↦ elim error [
            | limit ↦
                let (verdict, limited) = record_limit shared now (end - cursor + 1) in
                let next = (current limited now).1 in
                let rest =
                  fetch_window fuel selector groups next cursor range_end (calls + g.calls) g.at in
                elim verdict [
                  | err floor ↦ record {
                    outcome = lost floor (calls + g.calls);
                    book = limited;
                    at = g.at;
                  }
                  | ok shrunk ↦
                      if leb end (window_end limited now cursor range_end)
                      then record { outcome = lost limit (calls + g.calls); book = next; at = g.at }
                      else rest
                ]
            | other ↦ record { outcome = lost other (calls + g.calls); book = shared; at = g.at }
          ]
        ]

    -- The loop of `get_logs`, with fuel for its windows.
    pub windows_from :
        ℕ → LogSelector → List (List Address) → RangeBook → ℕ → ℕ → LogsPage → ℕ → Fetched
    windows_from zero selector groups book cursor range_end page n = fetch_fuel
    windows_from (suc fuel) selector groups book cursor range_end page n =
        let w = fetch_window (range_end + 1) selector groups book cursor range_end 0 n in
        let body : Fetched = elim w.outcome [
          | window_fuel ↦ fetch_fuel
          | lost error calls ↦ failed (record page { calls = page.calls + calls }) error
          | window rows end calls ↦
              let grown : LogsPage = record {
                rows = page.rows ++ rows;
                fetched_to = some end;
                calls = page.calls + calls;
              } in
              let rest = windows_from fuel selector groups w.book (end + 1) range_end grown w.at in
              if end == range_end then fetched grown else rest
        ] in
        if leb cursor range_end then body else fetched page

    pub get_logs : LogSelector → ℕ → BlockRange → RangeBook → ℕ → Fetched
    unfolding windows_from
    get_logs selector max_addresses range book n =
        windows_from (range.end - range.start + 2) selector (address_groups selector max_addresses)
          book range.start range.end (record { rows = []; fetched_to = none; calls = 0 }) n
