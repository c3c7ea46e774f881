-- ===== src/Evm/Blocks/Queue.antt =====
-- The queue of `batch_chunks` of crates/evm/src/blocks.rs comes to an end, and serves the items in order.
use datalens.Prelude.{
  ℕ, zero, suc, ◌+◌, ◌*◌, ◌/◌, ◌≤◌, ◌<◌, ◌≡◌, ◌⊎◌, ◌∙◌, sym, ap, refl, subst, inl, inr, false, ◌&&◌,
  Option, none, some, List, [], ◌∷◌, ◌++◌, map, length, arith, length-append, ltb, ◌==◌,
  if◌then◌else◌, Bool-cases,
}
use datalens.Provider.Errors.{ProviderError, fatal, length_mismatch, Result, ok, err}
use datalens.Provider.Answers.{Value, Request}
use datalens.Evm.Blocks.{take, drop, chunks_of, chunk_rounds, batch_chunks, is_too_large}
use datalens.Evm.Blocks.Chunks.{
  concat, weight, rounds, append_assoc, append_nil, take-drop, weight_pos, weight-halves,
  concat-chunks_of, rounds-chunks_of,
}

module _ (gateway : ℕ → List Request → Result (List (Result Value))) {T : Type 0}
    (build : T → Request) where
  -- Results that calls of the gateway gave, each for one chunk of the items, in order.
  pub data Served : List T → List (Result Value) → Type 0 where
    none_served : Served [] []
    then_chunk :
        {items : List T} {out : List (Result Value)} (n : ℕ) (chunk : List T)
        (results : List (Result Value))
        → Served items out
        → gateway n (map build chunk) ≡ ok results
        → length results ≡ length chunk
        → Served (items ++ chunk) (out ++ results)

  -- A call for a chunk ends the queue with the error: it failed with it, and is not a batch that could
  -- be halved, or it was answered with another number of results.
  abbrev pub EndsWith : ℕ → List T → ProviderError → Type 0
  EndsWith n chunk e =
      ((gateway n (map build chunk) ≡ err e) × ((is_too_large e && ltb 1 (length chunk)) ≡ false))
      ⊎ ((results : List (Result Value)) × (gateway n (map build chunk) ≡ ok results)
          × ((length results == length chunk) ≡ false)
          × (e ≡ fatal length_mismatch))

  -- The items before a chunk were served, and the call for the chunk ended the queue.
  pub record FailsAt (items : List T) (e : ProviderError) : Type 0 where
    pub done : List T
    pub chunk : List T
    pub rest : List T
    pub out : List (Result Value)
    pub n : ℕ
    pub parts : items ≡ done ++ (chunk ++ rest)
    pub before : Served done out
    pub failed : EndsWith n chunk e

  -- How the queue ends: all is served, or a call for a chunk ended it.
  abbrev pub Ends : List T → Option (Result (List (Result Value))) → Type 0
  Ends items none = ⊥
  Ends items (some (ok out)) = Served items out
  Ends items (some (err e)) = FailsAt items e

  rounds-Ends :
      (fuel n : ℕ) (queue : List (List T)) (items : List T) (out : List (Result Value))
      → rounds queue ≤ fuel
      → Served items out
      → Ends (items ++ concat queue) (chunk_rounds gateway build fuel n queue out)
  unfolding chunk_rounds
  rounds-Ends fuel n [] items out h s = subst (λ t. Served t out) (sym (append_nil items)) s
  rounds-Ends zero n (chunk ∷ queue) items out h s = absurd (no_fuel h)
    where
      no_fuel : weight chunk + rounds queue ≤ 0 → ⊥
      no_fuel h = omega (arith, h, weight_pos chunk)
  rounds-Ends (suc fuel) n (chunk ∷ queue) items out h s =
      answered (gateway n (map build chunk)) refl
        (λ results e l.
          rounds-Ends fuel (n + 1) queue (items ++ chunk) (out ++ results)
            (omega (arith, h, weight_pos chunk)) (then_chunk n chunk results s e l))
        (λ l.
          rounds-Ends fuel (n + 1)
            (take (length chunk / 2) chunk ∷ drop (length chunk / 2) chunk ∷ queue) items out
            (omega (arith, h, weight-halves chunk l)) s)
    where
      mid : ℕ
      mid = length chunk / 2

      fails : (e : ProviderError) → EndsWith n chunk e → FailsAt (items ++ concat (chunk ∷ queue)) e
      fails e f = record {
        done = items;
        chunk = chunk;
        rest = concat queue;
        out = out;
        n = n;
        parts = refl;
        before = s;
        failed = f;
      }

      answered :
          (r : Result (List (Result Value)))
          → gateway n (map build chunk) ≡ r
          → ((results : List (Result Value))
              → gateway n (map build chunk) ≡ ok results
              → length results ≡ length chunk
              → Ends
                  ((items ++ chunk) ++ concat queue)
                  (chunk_rounds gateway build fuel (n + 1) queue (out ++ results)))
          → (1 < length chunk
              → Ends (items ++ concat (take mid chunk ∷ drop mid chunk ∷ queue)) (
                  chunk_rounds gateway build fuel
                    (n + 1)
                    (take mid chunk ∷ drop mid chunk ∷ queue)
                    out))
          → Ends
              (items ++ concat (chunk ∷ queue))
              (elim r as (λ x. Option (Result (List (Result Value)))) [
                | ok results ↦
                    if length results == length chunk
                    then chunk_rounds gateway build fuel (n + 1) queue (out ++ results)
                    else some (err (fatal length_mismatch))
                | err error ↦
                    if is_too_large error && ltb 1 (length chunk)
                    then chunk_rounds gateway build fuel
                        (n + 1)
                        (take mid chunk ∷ drop mid chunk ∷ queue)
                        out
                    else some (err error)
              ])
      answered (ok results) e next halve = elim (Bool-cases (length results == length chunk)) [
        | inl l ↦
            rw (l, sym (append_assoc items chunk (concat queue)))
              (next results e (ground (arith, l)))
        | inr l ↦ rw l (fails (fatal length_mismatch) (inr (results, e, l, refl)))
      ]
      answered (err error) e next halve =
          elim (Bool-cases (is_too_large error && ltb 1 (length chunk))) [
            | inl l ↦ rw l (
                subst
                  (λ t. Ends (items ++ t) (
                    chunk_rounds gateway build fuel (n + 1)
                      (take mid chunk ∷ drop mid chunk ∷ queue) out))
                  (sym (append_assoc (take mid chunk) (drop mid chunk) (concat queue))
                    ∙ ap (λ t. t ++ concat queue) (take-drop mid chunk))
                  (halve (ground (arith, l))))
            | inr l ↦ rw l (fails error (inl (e, l)))
          ]

  -- With a batch size, the rounds of `batch_chunks` always end within its fuel: either every item is
  -- served by a call for a chunk that holds it, with one result for each item, in the items' order, or
  -- the items before some chunk were, and the call for this chunk either failed with the error that is
  -- returned, not as a batch that could be halved, or was answered with a number of results that is not
  -- the number of its items, and the error says so.
  pub batch_chunks-Ends :
      (rpc_batch : ℕ) (items : List T)
      → 0 < rpc_batch
      → Ends items (batch_chunks gateway build rpc_batch items)
  unfolding batch_chunks
  batch_chunks-Ends rpc_batch items p =
      let whole = concat-chunks_of (length items) rpc_batch items p (omega arith) in
      subst
        (λ t. Ends t (
          chunk_rounds gateway build (2 * length items) 0 (chunks_of (length items) rpc_batch items)
            []))
        whole
        (rounds-Ends (2 * length items) 0 (chunks_of (length items) rpc_batch items) [] []
          (rounds-chunks_of (length items) rpc_batch items p (omega arith)) none_served)

  pub Served-length :
      {items : List T} {out : List (Result Value)} → Served items out → length out ≡ length items
  Served-length none_served = refl
  Served-length (then_chunk {items} {out} n chunk results s e l) =
      omega (arith, Served-length s, l, length-append items chunk, length-append out results)
