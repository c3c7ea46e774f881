-- ===== src/Provider/Answers.antt =====
-- The answers of crates/provider/src/gateway.rs: `post`, `batch`, `interpret_object`,
-- `interpret_batch`, and how an error value is classified. Texts are numbers; `phrases` says what
-- `classify_rpc_message` finds in a message, where `none` is the default "provider error". Metrics,
-- the semaphore and sleeps are left out.
pub mod Slots
pub mod Numbered
pub mod Batch
mod Tests
use datalens.Prelude.{
  ℕ, zero, suc, ◌+◌, ◌-◌, ◌≡◌, Bool, true, false, not, ◌&&◌, ◌||◌, Option, none, some, List, [],
  ◌∷◌, length, leb, ltb, ◌==◌, if◌then◌else◌,
}
use datalens.Provider.Errors.{
  ProviderError, rate_limited, fatal, transient, batch_too_large, Message, retry_loop_ended,
  not_an_object, missing_result, not_an_array, id_out_of_range, duplicate_id, missing_item, Result,
  ok, err, RpcCode, Phrases, classify_rpc_message, http_status, not_json, retry_after_cap,
  retryable,
}
use datalens.Provider.Retry.{attempts, consider_retry}

-- The names that the code reads or writes in an object.
pub data Key : Type 0 where
  id_key error_key result_key code_key message_key method_key params_key jsonrpc_key : Key
  other_key : ℕ → Key

-- A JSON value: `negative n` is the integer -(n + 1), and `scalar` a value that is neither an `i64`,
-- a text, an array nor an object.
mutual
  pub data Value : Type 0 where
    null scalar : Value
    int negative text : ℕ → Value
    array : Values → Value
    object : Fields → Value

  pub data Values : Type 0 where
    nil : Values
    item : Value → Values → Values

  pub data Fields : Type 0 where
    empty : Fields
    field : Key → Value → Fields → Fields

key_eq : Key → Key → Bool
key_eq id_key id_key = true
key_eq error_key error_key = true
key_eq result_key result_key = true
key_eq code_key code_key = true
key_eq message_key message_key = true
key_eq method_key method_key = true
key_eq params_key params_key = true
key_eq jsonrpc_key jsonrpc_key = true
key_eq (other_key a) (other_key b) = a == b
key_eq a b = false

-- `Value::get` with a text: only an object has fields.
get_field : Key → Fields → Option Value
get_field k empty = none
get_field k (field l v fields) = if key_eq k l then some v else get_field k fields

get : Key → Value → Option Value
get k (object fields) = get_field k fields
get k v = none

is_null : Value → Bool
is_null null = true
is_null v = false

is_object : Value → Bool
is_object (object fields) = true
is_object v = false

as_text : Value → Option ℕ
as_text (text t) = some t
as_text v = none

-- `as_i64` of an optional field, 0 where there is none, by the two codes that are tested.
rpc_code : Option Value → RpcCode
rpc_code (some (int n)) = record { is_429 = n == 429; is_32005 = false }
rpc_code (some (negative n)) = record { is_429 = false; is_32005 = n == 32004 }
rpc_code v = record { is_429 = false; is_32005 = false }

abbrev text_of : Option Value → Option ℕ
text_of none = none
text_of (some v) = as_text v

-- `id` as an `i64` from 1 to `expected`.
pub item_id : ℕ → Value → Option ℕ
unfolding get get_field key_eq
item_id expected v = elim (get id_key v) [
  | some (int n) ↦ if leb 1 n && leb n expected then some n else none
  | _ ↦ none
]

-- One request of a call or a batch.
pub record Request : Type 0 where
  pub method : ℕ
  pub params : Value

abbrev request_item : ℕ → Request → Value
request_item id r = object (
    field jsonrpc_key (text 0)
      (field id_key (int id) (field method_key (text r.method) (field params_key r.params empty))))

numbered : ℕ → List Request → Values
numbered id [] = nil
numbered id (r ∷ rs) = item (request_item id r) (numbered (id + 1) rs)

pub batch_body : List Request → Value
unfolding numbered
batch_body requests = array (numbered 1 requests)

abbrev Slot : Type 0
Slot = Option (Result Value)

pub slot_at : ℕ → List Slot → Slot
slot_at i [] = none
slot_at zero (s ∷ slots) = s
slot_at (suc i) (s ∷ slots) = slot_at i slots

pub set_slot : ℕ → Result Value → List Slot → List Slot
set_slot i r [] = []
set_slot zero r (s ∷ slots) = some r ∷ slots
set_slot (suc i) r (s ∷ slots) = s ∷ set_slot i r slots

pub empty_slots : ℕ → List Slot
empty_slots zero = []
empty_slots (suc n) = none ∷ empty_slots n

pub results_of : List Slot → List (Result Value)
results_of [] = []
results_of (none ∷ slots) = err (fatal missing_item) ∷ results_of slots
results_of (some r ∷ slots) = r ∷ results_of slots

-- The `match` that ends `classified_http_error`.
unless_fatal : ProviderError → Option ProviderError
unless_fatal (fatal message) = none
unless_fatal e = some e

-- What an HTTP exchange ends in: `json` and `text` are the body read as JSON and as text.
pub record HttpReply : Type 0 where
  pub status : ℕ
  pub retry_after : Option ℕ
  pub json : Option Value
  pub text : ℕ

module _ (phrases : Option ℕ → Phrases) where
  pub classify_error_value : Value → ProviderError
  unfolding rpc_code as_text get get_field key_eq
  classify_error_value error =
      classify_rpc_message (rpc_code (get code_key error))
        (phrases (text_of (get message_key error)))

  pub interpret_object : Value → Result Value
  unfolding classify_error_value get get_field key_eq is_null
  interpret_object (object fields) =
      let result : Result Value = elim (get_field result_key fields) [
        | none ↦ err (fatal missing_result)
        | some v ↦ ok v
      ] in
      elim (get_field error_key fields) [
        | none ↦ result
        | some error ↦ if is_null error then result else err (classify_error_value error)
      ]
  interpret_object v = err (fatal not_an_object)

  -- The loop over the answer's items, with the slots so far.
  pub fill_slots : ℕ → Values → List Slot → Result (List Slot)
  unfolding item_id interpret_object slot_at set_slot
  fill_slots expected nil slots = ok slots
  fill_slots expected (item v items) slots = elim (item_id expected v) [
    | none ↦ err (fatal id_out_of_range)
    | some id ↦
        let rest = fill_slots expected items (set_slot (id - 1) (interpret_object v) slots) in
        elim (slot_at (id - 1) slots) [ some r ↦ err (fatal duplicate_id) | none ↦ rest ]
  ]

  pub interpret_batch : Value → ℕ → Result (List (Result Value))
  unfolding fill_slots get get_field key_eq classify_error_value results_of empty_slots
  interpret_batch (array items) expected = elim (fill_slots expected items (empty_slots expected)) [
    | err e ↦ err e
    | ok slots ↦ ok (results_of slots)
  ]
  interpret_batch v expected = elim (get error_key v) [
    | some error ↦ err (classify_error_value error)
    | none ↦ err (fatal not_an_array)
  ]

  pub classified_http_error : Option Value → ℕ → Option ProviderError
  unfolding classify_error_value get get_field key_eq is_object as_text unless_fatal
  classified_http_error none body = none
  classified_http_error (some value) body = elim (get error_key value) [
    | none ↦ none
    | some error ↦ unless_fatal (
        if is_object error
        then classify_error_value error
        else classify_rpc_message (record { is_429 = false; is_32005 = false })
            (phrases (some (elim (as_text error) [ none ↦ body | some t ↦ t ]))))
  ]

  -- `post`; `none` where the request was not answered.
  pub post : Option HttpReply → Result Value
  unfolding classified_http_error
  post none = err (transient none)
  post (some r) =
      let bad_request : Result Value = elim (classified_http_error r.json r.text) [
        | some e ↦ err e
        | none ↦ err (fatal (http_status 400))
      ] in
      let body : Result Value = elim r.json [ none ↦ err (fatal not_json) | some v ↦ ok v ] in
      if r.status == 413
      then err batch_too_large
      else if r.status == 429
      then err (rate_limited (elim r.retry_after [ none ↦ 0 | some d ↦ d ]))
      else if r.status == 400
      then bad_request
      else if (leb 500 r.status && leb r.status 599) || r.status == 403
      then err (transient (some r.status))
      else if not (leb 200 r.status && leb r.status 299)
      then err (fatal (http_status r.status))
      else body

  module _ (acquire : ℕ → Option ProviderError) (exchange : ℕ → Value → Option HttpReply) where
    -- The loop of `batch`, by the attempts left.
    pub batch_from : ℕ → ℕ → List Request → Result (List (Result Value))
    unfolding post interpret_batch consider_retry batch_body
    batch_from zero attempt requests = err (fatal retry_loop_ended)
    batch_from (suc left) attempt requests =
        let again = batch_from left (attempt + 1) requests in
        elim (acquire attempt) [
          | some error ↦ err error
          | none ↦ elim (post (exchange attempt (batch_body requests))) [
            | ok value ↦ interpret_batch value (length requests)
            | err error ↦ if consider_retry error attempt then again else err error
          ]
        ]

    pub batch : List Request → Result (List (Result Value))
    unfolding batch_from
    batch [] = ok []
    batch (r ∷ rs) = batch_from attempts 1 (r ∷ rs)
