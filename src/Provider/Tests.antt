-- ===== src/Provider/Tests.antt =====
-- Runs of the windows and attempts of crates/provider at concrete inputs.
use datalens.Prelude.{
  if◌then◌else◌, ◌≡◌, refl, ◌-◌, ◌≤◌, ◌<◌, ◌⊎◌, ℕ, true, false, Option, some, none, arith, leb,
}
use datalens.Provider.Errors.{
  ProviderError, transient, limit, Result, ok, err, Phrases, RpcCode, classify_rpc_message,
  classify-eq-limit,
}
use datalens.Provider.Ranges.{
  RangeBook, new, current, record_success, record_limit, IsWithin, record_limit-shrinks,
  book-IsWithin,
}
use datalens.Provider.Retry.{attempts, call_counted, Repeated, EndsAt, call_counted-EndsAt}

-- The first attempt fails at the transport, the second is answered.
abbrev replies : ℕ → Result ℕ
replies n = if leb n 1 then err (transient none) else ok 42

abbrev granted : ℕ → Option ProviderError
granted n = none

call_counted-EndsAt_example :
    (k : ℕ) × (1 ≤ k)
    × (k ≤ attempts)
    × ((j : ℕ) → 1 ≤ j → j < k → Repeated granted replies j)
    × EndsAt granted replies k (k - 1) (call_counted granted replies)
call_counted-EndsAt_example = call_counted-EndsAt granted replies

-- A book whose window is 64 blocks.
abbrev book : RangeBook
book = record {
  max_blocks = 1000;
  min_blocks = 10;
  entry = some (record { current = 64; successes = 3; updated_ms = 100 });
}

book-IsWithin_made : IsWithin book
book-IsWithin_made = record {
  positive = omega arith;
  bounds = omega arith;
  word = omega arith;
  within = (omega arith, omega arith, omega arith);
}

record_limit-shrinks_example :
    ((64 ≤ 10) × ((record_limit book 200 64).0 ≡ err limit))
    ⊎ ((shrunk : ℕ) × ((record_limit book 200 64).0 ≡ ok shrunk)
        × ((current (record_limit book 200 64).1 200).0 ≡ shrunk)
        × (shrunk < 64)
        × (10 ≤ shrunk)
        × (shrunk ≤ 1000))
record_limit-shrinks_example = record_limit-shrinks book 200 64 book-IsWithin_made

book-IsWithin_example :
    IsWithin (new 1000 10)
    × IsWithin (current book 200).1
    × ((10 ≤ (current book 200).0) × ((current book 200).0 ≤ 1000))
    × IsWithin (record_success book 200)
    × IsWithin (record_limit book 200 64).1
book-IsWithin_example =
    book-IsWithin book 1000 10 200 64 (omega arith) (omega arith) (omega arith) book-IsWithin_made

-- `query returned more than 10000 results`
abbrev too_many : Phrases
too_many = record {
  names_not_ready = false;
  names_rate = false;
  names_batch = false;
  names_quota = false;
  names_limit = true;
}

abbrev server_error : RpcCode
server_error = record { is_429 = false; is_32005 = true }

too_many_limit : classify_rpc_message server_error too_many ≡ limit
unfolding classify_rpc_message
too_many_limit = refl

classify-eq-limit_example :
    (true ≡ true)
    × (false ≡ false)
    × (false ≡ false)
    × (false ≡ false)
    × (false ≡ false)
    × (false ≡ false)
classify-eq-limit_example = classify-eq-limit server_error too_many too_many_limit
