-- ===== src/Evm/Blocks/Headers.antt =====
-- `block_headers` of crates/evm/src/blocks.rs gives a header for each block of a range.
use datalens.Prelude.{
  ℕ, ◌+◌, ◌-◌, ◌<◌, ◌≡◌, refl, Option, none, some, List, [], ◌∷◌, map, length, arith,
}
use datalens.Core.Range.{BlockRange}
use datalens.Provider.Errors.{Result, ok, err}
use datalens.Provider.Answers.{Value, Request}
use datalens.Evm.Blocks.{
  BlockRow, parse_each, parse_numbered, batch_chunks, batch_resilient, numbers_from, block_headers,
}
use datalens.Evm.Blocks.Queue.{Ends, Served-length, batch_chunks-Ends}

module _ (gateway : ℕ → List Request → Result (List (Result Value))) (get_block : ℕ → Request)
    (parse_block : Value → Result BlockRow) where
  abbrev parse : ℕ → Value → Result BlockRow
  parse = parse_numbered gateway get_block parse_block

  -- The rows have the numbers, where there are rows.
  abbrev pub Numbered : List ℕ → Result (List BlockRow) → Type 0
  Numbered numbers (ok rows) = map (λ r. r.number) rows ≡ numbers
  Numbered numbers (err e) = Unit {0}

  parse_numbered-number :
      (number : ℕ) (value : Value) (row : BlockRow)
      → parse number value ≡ ok row
      → row.number ≡ number
  unfolding parse_numbered
  parse_numbered-number number value row e = ground (arith, e)

  parse_each-Numbered :
      (numbers : List ℕ) (results : List (Result Value))
      → length results ≡ length numbers
      → Numbered numbers (parse_each gateway get_block parse numbers results)
  unfolding parse_each
  parse_each-Numbered [] results l = refl
  parse_each-Numbered (n ∷ numbers) [] l = ground (arith, l)
  parse_each-Numbered (n ∷ numbers) (err e ∷ results) l = tt
  parse_each-Numbered (n ∷ numbers) (ok value ∷ results) l =
      one (parse n value) (parse_each gateway get_block parse numbers results)
        (λ row e. parse_numbered-number n value row e)
        (parse_each-Numbered numbers results (omega (arith, l)))
    where
      one :
          (r : Result BlockRow) (rest : Result (List BlockRow))
          → ((row : BlockRow) → r ≡ ok row → row.number ≡ n)
          → Numbered numbers rest
          → Numbered (n ∷ numbers) (elim r as (λ x. Result (List BlockRow)) [
            | err e ↦ err e
            | ok row ↦ elim rest as (λ x. Result (List BlockRow)) [
              | err e ↦ err e
              | ok rows ↦ ok (row ∷ rows)
            ]
          ])
      one (err e) rest h g = tt
      one (ok row) (err e) h g = tt
      one (ok row) (ok rows) h g = ground (arith, h row refl, g)

  abbrev pub HasHeaders : List ℕ → Option (Result (List BlockRow)) → Type 0
  HasHeaders numbers none = ⊥
  HasHeaders numbers (some r) = Numbered numbers r

  -- With a batch size, `block_headers` comes to an end, however the batches are cut and answered; where
  -- it gives headers, they are those of the range's blocks, each once and in order.
  pub block_headers-HasHeaders :
      (rpc_batch : ℕ) (range : BlockRange)
      → 0 < rpc_batch
      → HasHeaders
          (numbers_from (range.end + 1 - range.start) range.start)
          (block_headers gateway get_block parse_block rpc_batch range)
  unfolding block_headers batch_resilient
  block_headers-HasHeaders rpc_batch range p =
      let numbers = numbers_from (range.end + 1 - range.start) range.start in
      ended (batch_chunks gateway get_block rpc_batch numbers)
        (batch_chunks-Ends gateway get_block rpc_batch numbers p)
    where
      ended :
          (o : Option (Result (List (Result Value))))
          → Ends gateway get_block (numbers_from (range.end + 1 - range.start) range.start) o
          → HasHeaders
              (numbers_from (range.end + 1 - range.start) range.start)
              (elim o as (λ x. Option (Result (List BlockRow))) [
                | none ↦ none
                | some (err e) ↦ some (err e)
                | some (ok results) ↦ some (
                    parse_each gateway get_block parse
                      (numbers_from (range.end + 1 - range.start) range.start)
                      results)
              ])
      ended none h = absurd h
      ended (some (err e)) h = tt
      ended (some (ok results)) h =
          parse_each-Numbered (numbers_from (range.end + 1 - range.start) range.start) results
            (Served-length gateway get_block h)
