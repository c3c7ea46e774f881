-- ===== src/Evm/Logs/Rows.antt =====
-- The rows that crates/evm/src/logs.rs accepts from the provider.
use datalens.Prelude.{
  ℕ, ◌+◌, ◌≤◌, ◌≡◌, refl, true, Option, none, some, List, [], ◌∷◌, ◌++◌, arith, All, All-imp,
  All-append, set_is_subset, subset-contains, subst,
}
use datalens.Core.Wire.{LogRow, Address}
use datalens.Core.Selector.{LogSelector, is_empty, matches}
use datalens.Provider.Errors.{ProviderError, Result, ok, err}
use datalens.Evm.Logs.{Reply, check_row, parse_log_list, groups_from, fetch_groups, answered}

-- A row that matches the selector, in a range.
pub record Fits (selector : LogSelector) (start end : ℕ) (row : LogRow) : Type 0 where
  pub matched : matches selector row ≡ true
  pub from : start ≤ row.block_number
  pub to : row.block_number ≤ end

check_row-Fits :
    (selector : LogSelector) (start end : ℕ) (row : LogRow)
    → check_row selector start end row ≡ none
    → Fits selector start end row
unfolding check_row matches
check_row-Fits selector start end row e = ground arith

parse-row :
    (selector : LogSelector) (start end : ℕ) (row : LogRow) (logs : List (Result (Option LogRow)))
    (rows : List LogRow)
    → parse_log_list selector start end (ok (some row) ∷ logs) ≡ ok rows
    → (more : List LogRow) × (check_row selector start end row ≡ none)
      × (parse_log_list selector start end logs ≡ ok more)
      × (row ∷ more ≡ rows)
unfolding parse_log_list
parse-row selector start end row logs rows e =
    go (check_row selector start end row) refl (parse_log_list selector start end logs) refl
  where
    go :
        (o : Option ProviderError)
        → check_row selector start end row ≡ o
        → (r : Result (List LogRow)) → parse_log_list selector start end logs ≡ r
        → (more : List LogRow) × (check_row selector start end row ≡ none)
          × (parse_log_list selector start end logs ≡ ok more)
          × (row ∷ more ≡ rows)
    go (some error) c r p = absurd (ground (arith, c, e))
    go none c (err error) p = absurd (ground (arith, c, p, e))
    go none c (ok more) p = (more, c, p, ground (arith, c, p, e))

parse-Fits :
    (selector : LogSelector) (start end : ℕ) (logs : List (Result (Option LogRow)))
    (rows : List LogRow)
    → parse_log_list selector start end logs ≡ ok rows
    → All (Fits selector start end) rows
unfolding parse_log_list
parse-Fits selector start end [] rows e =
    let is : [] ≡ rows = ground arith in subst (All (Fits selector start end)) is tt
parse-Fits selector start end (err error ∷ logs) rows e = absurd (ground (arith, e))
parse-Fits selector start end (ok none ∷ logs) rows e = parse-Fits selector start end logs rows e
parse-Fits selector start end (ok (some row) ∷ logs) rows e =
    let (more, checked, parsed, is) = parse-row selector start end row logs rows e in
    subst (All (Fits selector start end)) is (
      check_row-Fits selector start end row checked,
      parse-Fits selector start end logs more parsed,
    )

-- A group of addresses out of a selector's: none where it names none, else some of them.
pub record IsGroup (selector : LogSelector) (group : List Address) : Type 0 where
  pub empty : is_empty group ≡ is_empty selector.addresses
  pub subset : set_is_subset group selector.addresses ≡ true

Fits-widen :
    (selector : LogSelector) (group : List Address) (start end : ℕ) (row : LogRow)
    → IsGroup selector group
    → Fits (record selector { addresses = group }) start end row
    → Fits selector start end row
unfolding matches
Fits-widen selector group start end row g f =
    ground (arith, g, f, subset-contains group selector.addresses row.address)

All-Fits-widen :
    (selector : LogSelector) (group : List Address) (start end : ℕ) (rows : List LogRow)
    → IsGroup selector group
    → All (Fits (record selector { addresses = group }) start end) rows
    → All (Fits selector start end) rows
All-Fits-widen selector group start end rows g f =
    All-imp rows (λ row. Fits-widen selector group start end row g) f

abbrev pub RowsFit : LogSelector → ℕ → ℕ → Result (List LogRow) → Type 0
RowsFit selector start end (ok rows) = All (Fits selector start end) rows
RowsFit selector start end (err error) = Unit {0}

answered-Fits :
    (selector : LogSelector) (start end : ℕ) (r : Result (List (Result (Option LogRow))))
    → RowsFit selector start end (answered selector start end r)
unfolding answered
answered-Fits selector start end (err error) = tt
answered-Fits selector start end (ok logs) = go (parse_log_list selector start end logs) refl
  where
    go :
        (r : Result (List LogRow))
        → parse_log_list selector start end logs ≡ r
        → RowsFit selector start end (parse_log_list selector start end logs)
    go (err error) e = rw e tt
    go (ok rows) e = rw e (parse-Fits selector start end logs rows e)

module _ (reply : ℕ → LogSelector → ℕ → ℕ → Reply) (selector : LogSelector) (start end : ℕ) where
  groups_from-Fits :
      (groups : List (List Address)) (rows : List LogRow) (calls n : ℕ)
      → All (IsGroup selector) groups
      → All (Fits selector start end) rows
      → RowsFit selector start end (groups_from reply selector groups start end rows calls n).rows
  unfolding groups_from
  groups_from-Fits [] rows calls n gs f = f
  groups_from-Fits (group ∷ groups) rows calls n gs f =
      go parsed_rows refl
        (answered-Fits (record selector { addresses = group }) start end answer.logs)
        (λ parsed fit.
          groups_from-Fits groups (rows ++ parsed) (calls + answer.made) (n + 1) gs.1
            (All-append (Fits selector start end) rows parsed f fit))
    where
      answer : Reply
      answer = reply n (record selector { addresses = group }) start end

      parsed_rows : Result (List LogRow)
      parsed_rows = answered (record selector { addresses = group }) start end answer.logs

      go :
          (r : Result (List LogRow))
          → parsed_rows ≡ r
          → RowsFit (record selector { addresses = group }) start end parsed_rows
          → ((parsed : List LogRow)
              → All (Fits selector start end) parsed
              → RowsFit selector start end
                  (groups_from reply selector groups start end
                    (rows ++ parsed)
                    (calls + answer.made)
                    (n + 1)).rows)
          → RowsFit selector start end
              (groups_from reply selector (group ∷ groups) start end rows calls n).rows
      go (err error) e fit ih = rw (e, groups_from) tt
      go (ok parsed) e fit ih =
          rw (e, groups_from)
            (ih parsed (
              All-Fits-widen selector group start end parsed gs.0
                (subst (RowsFit (record selector { addresses = group }) start end) e fit)))

  pub fetch_groups-Fits :
      (groups : List (List Address)) (n : ℕ)
      → All (IsGroup selector) groups
      → RowsFit selector start end (fetch_groups reply selector groups start end n).rows
  unfolding fetch_groups
  fetch_groups-Fits groups n gs = groups_from-Fits groups [] 0 n gs tt
