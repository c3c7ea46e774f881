-- ===== src/Evm/Logs/Windows.antt =====
-- The loops of crates/evm/src/logs.rs end.
use datalens.Prelude.{
  ℕ, zero, suc, ◌+◌, ◌-◌, ◌≤◌, ◌<◌, ◌≡◌, inl, inr, refl, some, List, arith, Bool-cases, ◌==◌,
  le→leb,
}
use datalens.Core.Range.{max_end}
use datalens.Core.Wire.{Address}
use datalens.Core.Selector.{LogSelector}
use datalens.Provider.Ranges.{RangeBook, current, record_limit, current_twice}
use datalens.Evm.Logs.{
  LogsPage, Reply, WindowOutcome, window, lost, window_fuel, Windowed, Fetched, fetched, failed,
  fetch_fuel, window_end, fetch_groups, fetch_window, windows_from,
}

pub window_end_bounds :
    (book : RangeBook) (now cursor range_end : ℕ)
    → cursor ≤ range_end
    → range_end ≤ max_end
    → (cursor ≤ window_end book now cursor range_end)
      × (window_end book now cursor range_end ≤ range_end)
unfolding window_end
window_end_bounds book now cursor range_end h k = omega arith

-- Reading the window again at the same time gives the same window.
window_end-twice :
    (book : RangeBook) (now cursor range_end : ℕ)
    → window_end (current book now).1 now cursor range_end ≡ window_end book now cursor range_end
unfolding window_end
window_end-twice book now cursor range_end = rw (current_twice book now)

-- A window is delivered in the range, from the cursor on.
abbrev pub Delivers : ℕ → ℕ → WindowOutcome → Type 0
Delivers cursor range_end (window rows end calls) = (cursor ≤ end) × (end ≤ range_end)
Delivers cursor range_end (lost error calls) = Unit {0}
Delivers cursor range_end window_fuel = ⊥

-- What the fetch of a range comes to: a page that reaches the range's end, or an error.
abbrev pub Ends : ℕ → Fetched → Type 0
Ends range_end (fetched page) = page.fetched_to ≡ some range_end
Ends range_end (failed page error) = Unit {0}
Ends range_end fetch_fuel = ⊥

module _ (reply : ℕ → LogSelector → ℕ → ℕ → Reply) (clock : ℕ → ℕ)
    (others : ℕ → RangeBook → RangeBook) where
  pub fetch_window-Delivers :
      (fuel : ℕ) (selector : LogSelector) (groups : List (List Address)) (book : RangeBook)
      (cursor range_end calls n : ℕ)
      → cursor ≤ range_end
      → range_end ≤ max_end
      → window_end book (clock n) cursor range_end < fuel
      → Delivers cursor range_end
          (fetch_window reply clock others fuel selector groups book cursor range_end calls
            n).outcome
  unfolding fetch_window
  fetch_window-Delivers zero selector groups book cursor range_end calls n h k m =
      absurd (omega arith)
  fetch_window-Delivers (suc fuel) selector groups book cursor range_end calls n h k m =
      let end = window_end book (clock n) cursor range_end in
      let g = fetch_groups reply selector groups cursor end n in
      let now = clock g.at in
      let shared = others g.at (current book (clock n)).1 in
      let limited = (record_limit shared now (end - cursor + 1)).1 in
      let next = (current limited now).1 in
      ground (
        arith,
        window_end_bounds book (clock n) cursor range_end h k,
        window_end-twice limited now cursor range_end,
        fetch_window-Delivers fuel selector groups next cursor range_end (calls + g.calls) g.at,
      )

  pub windows_from-Ends :
      (fuel : ℕ) (selector : LogSelector) (groups : List (List Address)) (book : RangeBook)
      (cursor range_end : ℕ) (page : LogsPage) (n : ℕ)
      → cursor ≤ range_end
      → range_end ≤ max_end
      → range_end < cursor + fuel
      → Ends range_end
          (windows_from reply clock others fuel selector groups book cursor range_end page n)
  unfolding windows_from
  windows_from-Ends zero selector groups book cursor range_end page n h k m = absurd (omega arith)
  windows_from-Ends (suc fuel) selector groups book cursor range_end page n h k m =
      let w =
        fetch_window reply clock others (range_end + 1) selector groups book cursor range_end 0 n in
      let d =
        fetch_window-Delivers (range_end + 1) selector groups book cursor range_end 0 n h k
          (omega (arith, window_end_bounds book (clock n) cursor range_end h k)) in
      go w.outcome refl d (λ c p. windows_from-Ends fuel selector groups w.book c range_end p w.at)
    where
      w : Windowed
      w = fetch_window reply clock others (range_end + 1) selector groups book cursor range_end 0 n

      go :
          (o : WindowOutcome)
          → w.outcome ≡ o
          → Delivers cursor range_end o
          → ((c : ℕ) (p : LogsPage)
              → c ≤ range_end
              → range_end ≤ max_end
              → range_end < c + fuel
              → Ends range_end
                  (windows_from reply clock others fuel selector groups w.book c range_end p w.at))
          → Ends range_end (
              windows_from reply clock others
                (suc fuel)
                selector
                groups
                book
                cursor
                range_end
                page
                n)
      go (lost error calls) e d ih = rw (le→leb cursor range_end h, e) tt
      go window_fuel e d ih = absurd d
      go (window rows end calls) e d ih =
          rw (le→leb cursor range_end h, e)
            (elim (Bool-cases (end == range_end)) [
              | inl done ↦ rw done (ground arith)
              | inr more ↦ rw more (ih (end + 1) _ (ground arith) k (ground arith))
            ])
