-- ===== src/Provider/Errors.antt =====
-- crates/provider/src/error.rs. Durations are milliseconds. A fatal message is named by its
-- cause, and its cut to 180 characters is left out. Whether a message contains a phrase of a list is a parameter of the classification.
use datalens.Prelude.{
  ℕ, ◌^◌, ◌≡◌, Bool, true, false, ◌||◌, Option, arith, leb, ◌==◌, if◌then◌else◌, saturating_mul,
  saturating_sub,
}

-- The fixed messages that the gateway gives a fatal error, and any text of the provider's.
pub data Message : Type 0 where
  retry_loop_ended not_an_object missing_result not_an_array id_out_of_range : Message
  duplicate_id missing_item outside_range wrong_address wrong_topics : Message
  not_json provider_text length_mismatch wrong_number : Message
  tags_out_of_order short_batch unsupported_safe : Message
  http_status : ℕ → Message

pub data ProviderError : Type 0 where
  limit not_ready : ProviderError
  rate_limited : ℕ → ProviderError
  transient : Option ℕ → ProviderError
  fatal : Message → ProviderError
  budget_exhausted throttled batch_too_large : ProviderError

pub data Result {ℓ} (A : Type ℓ) : Type ℓ where
  ok : A → Result A
  err : ProviderError → Result A

abbrev pub backoff_ms : ℕ
backoff_ms = 100

abbrev pub retry_after_cap : ℕ
retry_after_cap = 5000

unfoldable pub retryable : ProviderError → Bool
retryable (rate_limited retry_after) = leb retry_after retry_after_cap
retryable (transient status) = true
retryable limit = false
retryable not_ready = false
retryable (fatal message) = false
retryable budget_exhausted = false
retryable throttled = false
retryable batch_too_large = false

backoff : ℕ → ℕ
backoff failed_attempt = saturating_mul backoff_ms (2 ^ saturating_sub failed_attempt 1)

pub retry_delay : ProviderError → ℕ → ℕ
unfolding backoff
retry_delay (rate_limited retry_after) failed_attempt =
    if retry_after == 0 then backoff failed_attempt else retry_after
retry_delay error failed_attempt = backoff failed_attempt

-- What `lower.contains` finds of each list of phrases in the message.
pub record Phrases : Type 0 where
  pub names_not_ready : Bool
  pub names_rate : Bool
  pub names_batch : Bool
  pub names_quota : Bool
  pub names_limit : Bool

-- `code` by the two values that are tested: 429 and -32005.
pub record RpcCode : Type 0 where
  pub is_429 : Bool
  pub is_32005 : Bool

unfoldable pub classify_rpc_message : RpcCode → Phrases → ProviderError
classify_rpc_message code m =
    if m.names_not_ready
    then not_ready
    else if m.names_rate || code.is_429
    then rate_limited 0
    else if m.names_batch
    then batch_too_large
    else if m.names_quota
    then rate_limited 0
    else if m.names_limit
    then limit
    else if code.is_32005
    then rate_limited 0
    else fatal provider_text

-- A message is read as an oversized query, for which the range is split, only when it names one and
-- neither an unready block, nor a rate, a batch or a quota.
pub classify-eq-limit :
    (code : RpcCode) (m : Phrases)
    → classify_rpc_message code m ≡ limit
    → (m.names_limit ≡ true)
      × (m.names_not_ready ≡ false)
      × (m.names_rate ≡ false)
      × (m.names_batch ≡ false)
      × (m.names_quota ≡ false)
      × (code.is_429 ≡ false)
unfolding classify_rpc_message
classify-eq-limit code m h = ground arith
