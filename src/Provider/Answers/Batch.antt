-- ===== src/Provider/Answers/Batch.antt =====
-- `batch` of crates/provider/src/gateway.rs: one result for each request.
use datalens.Prelude.{
  ℕ, zero, suc, ◌+◌, ◌≡◌, refl, sym, inl, inr, false, Option, none, some, List, [], ◌∷◌, length,
  if◌then◌else◌, arith, Bool-cases, subst,
}
use datalens.Provider.Errors.{ProviderError, Result, ok, err, Phrases}
use datalens.Provider.Retry.{attempts, consider_retry}
use datalens.Provider.Answers.{
  Value, null, scalar, int, negative, text, object, array, Request, HttpReply, batch_body,
  interpret_batch, post, batch_from, batch,
}
use datalens.Provider.Answers.Slots.{well_numbered, length-answers_from}
use datalens.Provider.Answers.Numbered.{is_ok, interpret_batch-by_id}

-- A result has `n` parts, where it is one.
abbrev pub HasLength : ℕ → Result (List (Result Value)) → Type 0
HasLength n (ok results) = length results ≡ n
HasLength n (err e) = Unit {0}

module _ (phrases : Option ℕ → Phrases) where
  refused-HasLength : (n : ℕ) (r : Result (List (Result Value))) → is_ok r ≡ false → HasLength n r
  refused-HasLength n (ok results) h = cc
  refused-HasLength n (err e) h = tt

  interpret_batch-HasLength : (v : Value) (n : ℕ) → HasLength n (interpret_batch phrases v n)
  unfolding interpret_batch
  interpret_batch-HasLength (array items) n =
      let by_id = interpret_batch-by_id phrases items n in
      elim (Bool-cases (well_numbered n items)) [
        | inl w ↦ subst (HasLength n) (sym (by_id.0 w)) (length-answers_from phrases n n 1 items)
        | inr w ↦ refused-HasLength n (interpret_batch phrases (array items) n) (by_id.1 w)
      ]
  interpret_batch-HasLength null n = ground arith
  interpret_batch-HasLength scalar n = ground arith
  interpret_batch-HasLength (int k) n = ground arith
  interpret_batch-HasLength (negative k) n = ground arith
  interpret_batch-HasLength (text k) n = ground arith
  interpret_batch-HasLength (object fields) n = ground arith

  module _ (acquire : ℕ → Option ProviderError) (exchange : ℕ → Value → Option HttpReply) where
    again :
        (n attempt : ℕ) (rest : Result (List (Result Value))) (o : Option ProviderError)
        (r : Result Value)
        → HasLength n rest
        → HasLength n (elim o [
          | some error ↦ err error
          | none ↦ elim r [
            | ok value ↦ interpret_batch phrases value n
            | err error ↦ if consider_retry error attempt then rest else err error
          ]
        ])
    again n attempt rest (some error) r h = tt
    again n attempt rest none (ok value) h = interpret_batch-HasLength value n
    again n attempt rest none (err error) h = ground (arith, h)

    batch_from-HasLength :
        (left attempt : ℕ) (requests : List Request)
        → HasLength (length requests) (batch_from phrases acquire exchange left attempt requests)
    unfolding batch_from
    batch_from-HasLength zero attempt requests = tt
    batch_from-HasLength (suc left) attempt requests =
        again (length requests) attempt
          (batch_from phrases acquire exchange left (attempt + 1) requests) (acquire attempt)
          (post phrases (exchange attempt (batch_body requests)))
          (batch_from-HasLength left (attempt + 1) requests)

    -- However the attempts end, `batch` gives one result for each request, or one error.
    pub batch-HasLength :
        (requests : List Request)
        → HasLength (length requests) (batch phrases acquire exchange requests)
    unfolding batch
    batch-HasLength [] = refl
    batch-HasLength (r ∷ rs) = batch_from-HasLength attempts 1 (r ∷ rs)
