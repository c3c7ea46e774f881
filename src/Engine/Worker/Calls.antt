-- ===== src/Engine/Worker/Calls.antt =====
-- The calls of crates/engine/src/worker.rs are those of crates/evm/src/logs.rs.
use datalens.Prelude.{ℕ, ◌≡◌, none, some, []}
use datalens.Core.Range.{BlockRange}
use datalens.Core.Selector.{LogSelector}
use datalens.Provider.Errors.{fatal, provider_text}
use datalens.Provider.Ranges.{RangeBook}
use datalens.Evm.Logs.{Reply, Fetched, fetched, failed, fetch_fuel, get_logs}
use datalens.Evm.Logs.Windows.{Ends}
use datalens.Evm.Logs.Pages.{get_logs-Ends}
use datalens.Engine.Worker.{PageEnd}
use datalens.Engine.Worker.Fill.{Reaches}

-- The `match` on the result of `get_logs`; its fuel is always enough.
abbrev pub page_end : Fetched → PageEnd
page_end (fetched page) = record { page = page; error = none }
page_end (failed page error) = record { page = page; error = some error }
page_end fetch_fuel = record {
  page = record { rows = []; fetched_to = none; calls = 0 };
  error = some (fatal provider_text);
}

module _ (reply : ℕ → ℕ → LogSelector → ℕ → ℕ → Reply) (clock : ℕ → ℕ → ℕ)
    (others : ℕ → ℕ → RangeBook → RangeBook) (book : ℕ → RangeBook) (max_addresses : ℕ) where
  abbrev pub calls : ℕ → LogSelector → BlockRange → PageEnd
  calls n query gap =
      page_end (get_logs (reply n) (clock n) (others n) query max_addresses gap (book n) 0)

  reached :
      (gap : BlockRange) (f : Fetched)
      → Ends gap.end f
      → (page_end f).error ≡ none
      → (page_end f).page.fetched_to ≡ some gap.end
  reached gap (fetched page) h e = h
  reached gap (failed page error) h e = cc
  reached gap fetch_fuel h e = absurd h

  -- `get_logs` is as `fill` relies on, whatever the provider, the clock and the other tasks do.
  pub calls-Reaches : Reaches calls
  calls-Reaches n query gap v =
      reached gap (get_logs (reply n) (clock n) (others n) query max_addresses gap (book n) 0)
        (get_logs-Ends (reply n) (clock n) (others n) query max_addresses gap (book n) 0 v).0
