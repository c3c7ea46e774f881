-- ===== src/Provider/Answers/Tests.antt =====
-- The gateway's answers at concrete inputs.
use datalens.Prelude.{ℕ, ◌≡◌, refl, true, false, Option, none, some, List, [], ◌∷◌}
use datalens.Provider.Errors.{
  classify_rpc_message, ok, err, fatal, missing_item, rate_limited, Phrases,
}
use datalens.Provider.Answers.{
  Value, int, negative, text, array, object, Values, nil, item, empty, field, id_key, result_key,
  code_key, Request, HttpReply, interpret_batch, batch, post, classify_error_value,
}
use datalens.Provider.Answers.Slots.{well_numbered, answers_from}
use datalens.Provider.Answers.Numbered.{is_ok, interpret_batch-by_id}
use datalens.Provider.Answers.Batch.{HasLength, batch-HasLength}

abbrev plain : Option ℕ → Phrases
plain message = record {
  names_not_ready = false;
  names_rate = false;
  names_batch = false;
  names_quota = false;
  names_limit = false;
}

abbrev answer : ℕ → ℕ → Value
answer id result = object (field id_key (int id) (field result_key (text result) empty))

-- The provider answers the third request first, and the second not at all.
abbrev shuffled : Values
shuffled = item (answer 3 30) (item (answer 1 10) nil)

interpret_shuffled :
    interpret_batch plain (array shuffled) 3
    ≡ ok (ok (text 10) ∷ err (fatal missing_item) ∷ ok (text 30) ∷ [])
unfolding interpret_batch
interpret_shuffled = refl

abbrev reply : ℕ → Value → Option HttpReply
reply attempt body =
    some (record { status = 200; retry_after = none; json = some (array shuffled); text = 0 })

abbrev requests : List Request
requests =
    record { method = 1; params = array nil }
    ∷ record { method = 1; params = array nil }
    ∷ record { method = 1; params = array nil }
    ∷ []

too_many :
    post plain (some (record { status = 429; retry_after = some 700; json = none; text = 0 }))
    ≡ err (rate_limited 700)
unfolding post
too_many = refl

-- The code -32005 without a known phrase is a rate limit.
rate_code :
    classify_error_value plain (object (field code_key (negative 32004) empty)) ≡ rate_limited 0
unfolding classify_error_value classify_rpc_message
rate_code = refl

interpret_batch-by_id_example :
    (well_numbered 3 shuffled ≡ true
      → interpret_batch plain (array shuffled) 3 ≡ ok (answers_from plain 3 3 1 shuffled))
    × (well_numbered 3 shuffled ≡ false → is_ok (interpret_batch plain (array shuffled) 3) ≡ false)
interpret_batch-by_id_example = interpret_batch-by_id plain shuffled 3

batch-HasLength_example : HasLength 3 (batch plain (λ attempt. none) reply requests)
batch-HasLength_example = batch-HasLength plain (λ attempt. none) reply requests
