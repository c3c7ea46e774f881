-- ===== src/Evm/Logs/Pages.antt =====
-- The pages that `get_logs` of crates/evm/src/logs.rs returns.
use datalens.Prelude.{
  ℕ, zero, suc, ◌+◌, ◌-◌, ◌≤◌, ◌<◌, ◌≡◌, inl, inr, refl, true, false, Option, none, some, List, [],
  ◌∷◌, ◌++◌, arith, leb, Bool-cases, All, All-imp, All-append, ◌==◌, set_is_subset, subset_refl,
  subst, sym, ◌&&◌,
}
use datalens.Core.Range.{BlockRange, IsValid, max_end}
use datalens.Core.Wire.{LogRow, Address}
use datalens.Core.Selector.{LogSelector, is_empty}
use datalens.Provider.Ranges.{RangeBook, current, record_limit}
use datalens.Evm.Logs.{
  LogsPage, Reply, WindowOutcome, window, lost, window_fuel, Windowed, Fetched, fetched, failed,
  fetch_fuel, window_end, fetch_groups, fetch_window, windows_from, get_logs, address_groups,
  chunk_from,
}
use datalens.Evm.Logs.Rows.{Fits, IsGroup, fetch_groups-Fits}
use datalens.Evm.Logs.Windows.{
  Delivers, fetch_window-Delivers, window_end_bounds, Ends, windows_from-Ends,
}

subset-append :
    (xs ys wide : List Address)
    → set_is_subset (xs ++ ys) wide ≡ (set_is_subset xs wide && set_is_subset ys wide)
subset-append [] ys wide = refl
subset-append (x ∷ xs) ys wide = ground (arith, subset-append xs ys wide)

is_empty-append : (xs : List Address) (y : Address) → is_empty (xs ++ y ∷ []) ≡ false
is_empty-append [] y = refl
is_empty-append (x ∷ xs) y = refl

module _ (selector : LogSelector) where
  chunk_from-IsGroup :
      (n left : ℕ) (open' rest : List Address)
      → IsGroup selector open'
      → is_empty selector.addresses ≡ false
      → set_is_subset rest selector.addresses ≡ true
      → All (IsGroup selector) (chunk_from n left open' rest)
  unfolding chunk_from
  chunk_from-IsGroup n left open' [] g e s = (g, tt)
  chunk_from-IsGroup n zero open' (a ∷ rest) g e s = (
    g,
    chunk_from-IsGroup n (n - 1) (a ∷ []) rest
        (record { empty = ground (arith, e); subset = ground (arith, s) }) e (ground (arith, s)),
  )
  chunk_from-IsGroup n (suc left) open' (a ∷ rest) g e s =
      chunk_from-IsGroup n left (open' ++ a ∷ []) rest
        (record {
          empty = ground (arith, e, is_empty-append open' a);
          subset = ground (arith, g, s, subset-append open' (a ∷ []) selector.addresses);
        })
        e (ground (arith, s))

  address_groups-IsGroup : (n : ℕ) → All (IsGroup selector) (address_groups selector n)
  unfolding address_groups
  address_groups-IsGroup n = go selector.addresses refl
    where
      go :
          (addresses : List Address)
          → selector.addresses ≡ addresses
          → All (IsGroup selector) (address_groups selector n)
      go [] e =
          let is : address_groups selector n ≡ [] ∷ [] = unfold address_groups in rw e refl in
          subst (All (IsGroup selector)) (sym is)
            (record { empty = ground (arith, e); subset = refl }, tt)
      go (a ∷ rest) e =
          let own : set_is_subset (a ∷ rest) selector.addresses ≡ true =
            subst (λ l. set_is_subset l selector.addresses ≡ true) e
              (subset_refl selector.addresses) in
          let is : address_groups selector n ≡ chunk_from n (n - 1) (a ∷ []) rest =
            unfold address_groups in rw e refl in
          subst (All (IsGroup selector)) (sym is) (
            chunk_from-IsGroup n (n - 1) (a ∷ []) rest
              (record { empty = ground (arith, e); subset = ground (arith, own) })
              (ground (arith, e)) (ground (arith, own)))

abbrev pub FitsTo : LogSelector → ℕ → List LogRow → Option ℕ → Type 0
FitsTo selector start rows none = rows ≡ []
FitsTo selector start rows (some to) = All (Fits selector start to) rows

-- The rows of a page lie between the range's start and the block the page reaches.
abbrev pub PageFits : LogSelector → ℕ → LogsPage → Type 0
PageFits selector start page = FitsTo selector start page.rows page.fetched_to

-- The page of a fetch, returned or carried by its error.
abbrev pub PagesFit : LogSelector → ℕ → Fetched → Type 0
PagesFit selector start (fetched page) = PageFits selector start page
PagesFit selector start (failed page error) = PageFits selector start page
PagesFit selector start fetch_fuel = Unit {0}

Fits-widen_range :
    (selector : LogSelector) (start to cursor end : ℕ) (row : LogRow)
    → start ≤ cursor
    → to ≤ end
    → Fits selector cursor to row
    → Fits selector start end row
Fits-widen_range selector start to cursor end row h k f = record {
  matched = f.matched;
  from = omega (arith, f.from);
  to = omega (arith, f.to);
}

-- The rows so far, with those of the next window.
FitsTo-append :
    (selector : LogSelector) (start cursor end : ℕ) (page : LogsPage) (rows : List LogRow)
    → PageFits selector start page
    → ((to : ℕ) → page.fetched_to ≡ some to → to < cursor)
    → start ≤ cursor
    → cursor ≤ end
    → All (Fits selector cursor end) rows
    → All (Fits selector start end) (page.rows ++ rows)
FitsTo-append selector start cursor end page rows f reached h k new =
    All-append (Fits selector start end) page.rows rows (old page.fetched_to refl f)
      (All-imp rows (λ row. Fits-widen_range selector start end cursor end row h (omega arith)) new)
  where
    old :
        (o : Option ℕ)
        → page.fetched_to ≡ o
        → FitsTo selector start page.rows o
        → All (Fits selector start end) page.rows
    old none e is = subst (All (Fits selector start end)) (sym is) tt
    old (some to) e fit =
        All-imp page.rows
          (λ row.
            Fits-widen_range selector start to start end row (omega arith)
              (omega (arith, reached to e)))
          fit

-- A delivered window's rows are in the window.
abbrev pub WindowFits : LogSelector → ℕ → WindowOutcome → Type 0
WindowFits selector cursor (window rows end calls) = All (Fits selector cursor end) rows
WindowFits selector cursor (lost error calls) = Unit {0}
WindowFits selector cursor window_fuel = Unit {0}

module _ (reply : ℕ → LogSelector → ℕ → ℕ → Reply) (clock : ℕ → ℕ)
    (others : ℕ → RangeBook → RangeBook) (selector : LogSelector) (groups : List (List Address))
    (gs : All (IsGroup selector) groups) where
  fetch_window-Fits :
      (fuel : ℕ) (book : RangeBook) (cursor range_end calls n : ℕ)
      → WindowFits selector cursor
          (fetch_window reply clock others fuel selector groups book cursor range_end calls
            n).outcome
  unfolding fetch_window
  fetch_window-Fits zero book cursor range_end calls n = tt
  fetch_window-Fits (suc fuel) book cursor range_end calls n =
      let end = window_end book (clock n) cursor range_end in
      let g = fetch_groups reply selector groups cursor end n in
      let now = clock g.at in
      let shared = others g.at (current book (clock n)).1 in
      let limited = (record_limit shared now (end - cursor + 1)).1 in
      let next = (current limited now).1 in
      ground (
        arith,
        fetch_groups-Fits reply selector cursor end groups n gs,
        fetch_window-Fits fuel next cursor range_end (calls + g.calls) g.at,
      )

  windows_from-Fits :
      (fuel : ℕ) (book : RangeBook) (start cursor range_end : ℕ) (page : LogsPage) (n : ℕ)
      → start ≤ cursor
      → range_end ≤ max_end
      → PageFits selector start page
      → ((to : ℕ) → page.fetched_to ≡ some to → to < cursor)
      → PagesFit selector start
          (windows_from reply clock others fuel selector groups book cursor range_end page n)
  unfolding windows_from
  windows_from-Fits zero book start cursor range_end page n h k f reached = tt
  windows_from-Fits (suc fuel) book start cursor range_end page n h k f reached =
      elim (Bool-cases (leb cursor range_end)) [
        | inr past ↦ rw past f
        | inl within ↦
            go within w.outcome refl
              (fetch_window-Delivers reply clock others (range_end + 1) selector groups book cursor
                range_end 0 n (ground (arith, within)) k
                (omega (
                  arith,
                  window_end_bounds book (clock n) cursor range_end (ground (arith, within)) k,
                )))
              (fetch_window-Fits (range_end + 1) book cursor range_end 0 n)
              (λ c p. windows_from-Fits fuel w.book start c range_end p w.at)
      ]
    where
      w : Windowed
      w = fetch_window reply clock others (range_end + 1) selector groups book cursor range_end 0 n

      go :
          leb cursor range_end ≡ true
          → (o : WindowOutcome) → w.outcome ≡ o
          → Delivers cursor range_end w.outcome
          → WindowFits selector cursor w.outcome
          → ((c : ℕ) (p : LogsPage)
              → start ≤ c
              → range_end ≤ max_end
              → PageFits selector start p
              → ((to : ℕ) → p.fetched_to ≡ some to → to < c)
              → PagesFit selector start
                  (windows_from reply clock others fuel selector groups w.book c range_end p w.at))
          → PagesFit selector start (
              windows_from reply clock others
                (suc fuel)
                selector
                groups
                book
                cursor
                range_end
                page
                n)
      go within (lost error calls) e d fit ih = rw (within, e) f
      go within window_fuel e d fit ih = rw (within, e) tt
      go within (window rows end calls) e d fit ih =
          let (low, high) = subst (Delivers cursor range_end) e d in
          let all : All (Fits selector start end) (page.rows ++ rows) =
            FitsTo-append selector start cursor end page rows f reached h low
              (subst (WindowFits selector cursor) e fit) in
          rw (within, e)
            (elim (Bool-cases (end == range_end)) [
              | inl done ↦ rw done all
              | inr more ↦
                  rw more (ih (end + 1) _ (omega arith) k all (λ to is. ground (arith, is)))
            ])

-- For every valid range and whatever the provider answers, `get_logs` ends: in a page that is fetched to
-- the range's end, or in an error. In both cases every row of the page matches the selector and
-- lies between the range's start and the block that the page says it is fetched to.
pub get_logs-Ends :
    (reply : ℕ → LogSelector → ℕ → ℕ → Reply) (clock : ℕ → ℕ) (others : ℕ → RangeBook → RangeBook)
    (selector : LogSelector) (max_addresses : ℕ) (range : BlockRange) (book : RangeBook) (n : ℕ)
    → IsValid range
    → Ends range.end (get_logs reply clock others selector max_addresses range book n)
      × PagesFit selector range.start
          (get_logs reply clock others selector max_addresses range book n)
unfolding get_logs
get_logs-Ends reply clock others selector max_addresses range book n valid =
    let groups = address_groups selector max_addresses in
    let fuel = range.end - range.start + 2 in
    let none_yet : LogsPage = record { rows = []; fetched_to = none; calls = 0 } in
    (
      windows_from-Ends reply clock others fuel selector groups book range.start range.end none_yet
          n (ground (arith, valid)) (ground (arith, valid)) (omega arith),
      windows_from-Fits reply clock others selector groups
          (address_groups-IsGroup selector max_addresses) fuel book range.start range.start
          range.end none_yet n (omega arith) (ground (arith, valid)) refl
          (λ to is. ground (arith, is)),
    )
