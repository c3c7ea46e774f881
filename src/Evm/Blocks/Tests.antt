-- ===== src/Evm/Blocks/Tests.antt =====
-- Batches and headers at concrete inputs.
use datalens.Prelude.{ℕ, zero, suc, ◌≡◌, refl, some, List, [], ◌∷◌, map, arith}
use datalens.Core.Range.{BlockRange}
use datalens.Provider.Errors.{Result, ok, err, batch_too_large, fatal, tags_out_of_order}
use datalens.Provider.Answers.{Value, int, null, Request}
use datalens.Evm.Blocks.{
  numbers_from, BlockRow, batch_chunks, block_headers, deduped, heads, lag, tags,
}
use datalens.Evm.Blocks.Queue.{Ends, batch_chunks-Ends}
use datalens.Evm.Blocks.Headers.{HasHeaders, block_headers-HasHeaders}

abbrev get_block : ℕ → Request
get_block number = record { method = 1; params = int number }

-- The first batch is too large; each later one is answered by its own numbers.
abbrev gateway : ℕ → List Request → Result (List (Result Value))
gateway zero requests = err batch_too_large
gateway (suc n) requests = ok (map (λ r. ok r.params) requests)

abbrev parse_block : Value → Result BlockRow
parse_block (int number) = ok (record { number = number; hash = number; parent_hash = 0 })
parse_block value = err (fatal tags_out_of_order)

abbrev range : BlockRange
range = record { start = 4; end = 8 }

halved :
    batch_chunks gateway get_block 3 (4 ∷ 5 ∷ 6 ∷ 7 ∷ 8 ∷ [])
    ≡ some (ok (ok (int 4) ∷ ok (int 5) ∷ ok (int 6) ∷ ok (int 7) ∷ ok (int 8) ∷ []))
unfolding batch_chunks
halved = refl

unique : deduped (3 ∷ 4 ∷ 3 ∷ []) ≡ 3 ∷ 4 ∷ []
unfolding deduped
unique = refl

lagging :
    heads parse_block (lag 5 20) (ok (int 12)) (ok [])
    ≡ ok (record { latest = 12; latest_hash = 12; safe = 7; finalized = 0 })
unfolding heads
lagging = refl

misordered :
    heads parse_block tags (ok null) (ok (ok (int 12) ∷ ok (int 7) ∷ ok (int 8) ∷ []))
    ≡ err (fatal tags_out_of_order)
unfolding heads
misordered = refl

batch_chunks-Ends_example :
    Ends gateway get_block
      (4 ∷ 5 ∷ 6 ∷ 7 ∷ 8 ∷ [])
      (batch_chunks gateway get_block 3 (4 ∷ 5 ∷ 6 ∷ 7 ∷ 8 ∷ []))
batch_chunks-Ends_example =
    batch_chunks-Ends gateway get_block 3 (4 ∷ 5 ∷ 6 ∷ 7 ∷ 8 ∷ []) (omega arith)

block_headers-HasHeaders_example :
    HasHeaders gateway get_block parse_block
      (4 ∷ 5 ∷ 6 ∷ 7 ∷ 8 ∷ [])
      (block_headers gateway get_block parse_block 3 range)
unfolding numbers_from
block_headers-HasHeaders_example =
    block_headers-HasHeaders gateway get_block parse_block 3 range (omega arith)
