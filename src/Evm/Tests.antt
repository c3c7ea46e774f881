-- ===== src/Evm/Tests.antt =====
-- A run of `get_logs` of crates/evm/src/logs.rs against a concrete provider.
use datalens.Prelude.{ℕ, ◌+◌, ◌-◌, [], ◌∷◌, some, none, arith, ltb, leb, if◌then◌else◌}
use datalens.Core.Range.{BlockRange, IsValid}
use datalens.Core.Finality.{Finality}
use datalens.Core.Wire.{LogRow}
use datalens.Core.Selector.{LogSelector, any_topic}
use datalens.Provider.Errors.{limit, ok, err}
use datalens.Provider.Ranges.{RangeBook}
use datalens.Evm.Logs.{Reply, get_logs}
use datalens.Evm.Logs.Windows.{Ends}
use datalens.Evm.Logs.Pages.{PagesFit, get_logs-Ends}

abbrev selector : LogSelector
selector = record {
  addresses = 7 ∷ 9 ∷ [];
  topic0 = any_topic;
  topic1 = any_topic;
  topic2 = any_topic;
  topic3 = any_topic;
}

abbrev row : LogRow
row = record {
  block_number = 12;
  log_index = 0;
  block_hash = 5;
  transaction_index = 0;
  transaction_hash = 6;
  address = 9;
  topics = [];
  payload = [];
  finality = Finality.safe;
}

-- A provider that serves at most ten blocks, and has one log.
abbrev reply : ℕ → LogSelector → ℕ → ℕ → Reply
reply n s start end = record {
  logs =
      if ltb 10 (end - start + 1)
      then err limit
      else ok (if leb start 12 then ok (some row) ∷ ok none ∷ [] else []);
  made = 1;
}

abbrev range : BlockRange
range = record { start = 10; end = 29 }

abbrev book : RangeBook
book = record { max_blocks = 16; min_blocks = 1; entry = none }

range-IsValid : IsValid range
range-IsValid = record { ordered = omega arith; bounded = omega arith }

get_logs-Ends_example :
    Ends 29 (get_logs reply (λ n. n) (λ n b. b) selector 2 range book 0)
    × PagesFit selector 10 (get_logs reply (λ n. n) (λ n b. b) selector 2 range book 0)
get_logs-Ends_example =
    get_logs-Ends reply (λ n. n) (λ n b. b) selector 2 range book 0 range-IsValid
