-- ===== src/Errors.antt =====
-- internal/errors/handler.go: the categories of errors and the retry loops. The tests of
-- apimachinery, the type assertion to net.Error and the text of an error are parameters.
pub mod Retries
pub mod Delays
use dynamic_annotation_contr.Base.{
  ◌==◌, ℕ, zero, suc, ◌+◌, ◌≡◌, Bool, true, false, not, ◌&&◌, ◌||◌, Option, none, some, List, [],
  ◌∷◌, if◌then◌else◌, ltb, leb, Bytes, codes, contains, to_lower, any,
}

pub data ErrorCategory : Type 0 where
  transient permanent resource_not_found validation network rate_limit conflict : ErrorCategory

-- The number of retries is an `int`; a negative one, which no configuration of the program has, is
-- left out; the numbers of the delay stand in `Delays`.
pub record RetryConfig : Type 0 where
  pub max_retries : ℕ
  pub retryable_errors : List ErrorCategory

-- DefaultRetryConfig, without the numbers of the delay
pub default_retry_config : RetryConfig
default_retry_config = record {
  max_retries = 5;
  retryable_errors = transient ∷ network ∷ rate_limit ∷ conflict ∷ [];
}

-- What the code asks of an error.
pub record ErrorTests (E : Type 0) : Type 0 where
  pub is_not_found : E → Bool
  pub is_conflict : E → Bool
  pub is_server_timeout : E → Bool
  pub is_timeout : E → Bool
  pub is_service_unavailable : E → Bool
  pub is_internal_error : E → Bool
  pub is_too_many_requests : E → Bool
  pub is_bad_request : E → Bool
  pub is_invalid : E → Bool
  pub is_forbidden : E → Bool
  pub is_unauthorized : E → Bool
  -- `err.(net.Error)`, and its `Timeout()`
  pub net_timeout : E → Option Bool
  -- the code and the reason of an `apierrors.APIStatus`
  pub api_status : E → Option (ℕ × Bytes)
  -- `err.Error()`
  pub message : E → Bytes

abbrev same_category : ErrorCategory → ErrorCategory → Bool
same_category transient transient = true
same_category permanent permanent = true
same_category resource_not_found resource_not_found = true
same_category validation validation = true
same_category network network = true
same_category rate_limit rate_limit = true
same_category conflict conflict = true
same_category _ _ = false

module _ {E : Type 0} (tests : ErrorTests E) where
  open tests use {
    is_not_found, is_conflict, is_server_timeout, is_timeout, is_service_unavailable,
    is_internal_error, is_too_many_requests, is_bad_request, is_invalid, is_forbidden,
    is_unauthorized, net_timeout, message,
  }

  -- one of the patterns stands in the message, in lower case
  unfoldable mentions : List Bytes → E → Bool
  mentions patterns e = any (λ p. contains (to_lower (message e)) p) patterns

  unfoldable is_network_error : E → Bool
  is_network_error e = elim (net_timeout e) [
    | some timeout ↦ timeout
    | none ↦
        mentions
          (codes "connection refused"
            ∷ codes "connection reset"
            ∷ codes "network is unreachable"
            ∷ codes "no route to host"
            ∷ codes "dns"
            ∷ codes "dial tcp"
            ∷ codes "i/o timeout"
            ∷ codes "temporary"
            ∷ [])
          e
  ]

  -- CategorizeError; `none` is nil
  categorize_error : Option E → ErrorCategory
  categorize_error none = permanent
  categorize_error (some e) =
      if is_not_found e
      then resource_not_found
      else if is_conflict e
      then conflict
      else if is_server_timeout e || is_timeout e
      then transient
      else if is_service_unavailable e || is_internal_error e
      then transient
      else if is_too_many_requests e
      then rate_limit
      else if is_bad_request e || is_invalid e
      then validation
      else if is_forbidden e || is_unauthorized e
      then permanent
      else if is_network_error e
      then network
      else if mentions (codes "validation" ∷ codes "invalid" ∷ codes "malformed" ∷ []) e
      then validation
      else if mentions
          (codes "connection refused"
            ∷ codes "connection reset"
            ∷ codes "timeout"
            ∷ codes "temporary"
            ∷ [])
          e
      then transient
      else permanent

  pub should_retry : RetryConfig → E → ℕ → Bool
  should_retry config e attempt =
      if leb config.max_retries attempt
      then false
      else any (λ c. same_category (categorize_error (some e)) c) config.retryable_errors

-- the configuration of NewErrorHandler
unfoldable new_error_handler : Option RetryConfig → RetryConfig
new_error_handler none = default_retry_config
new_error_handler (some config) = config

unfoldable category_to_string : ErrorCategory → Bytes
category_to_string transient = codes "transient"
category_to_string permanent = codes "permanent"
category_to_string resource_not_found = codes "resource-not-found"
category_to_string validation = codes "validation"
category_to_string network = codes "network"
category_to_string rate_limit = codes "rate-limit"
category_to_string conflict = codes "conflict"

-- GetErrorSummary; the code and the reason are those of an error of the API
record ErrorSummary : Type 0 where
  text : Bytes
  category : Bytes
  retryable : Bool
  api_error : Option (ℕ × Bytes)

module _ {E : Type 0} (tests : ErrorTests E) where
  unfoldable get_no_retry_reason : RetryConfig → E → ℕ → Bytes
  get_no_retry_reason config e attempt =
      if leb config.max_retries attempt
      then codes "maximum retry attempts reached"
      else elim (categorize_error tests (some e)) [
        | permanent ↦ codes "permanent error"
        | validation ↦ codes "validation error"
        | resource_not_found ↦ codes "resource not found"
        | other ↦ codes "error category not configured for retry"
      ]

  unfoldable get_error_summary : RetryConfig → Option E → Option ErrorSummary
  get_error_summary config none = none
  get_error_summary config (some e) = some (record {
    text = tests.message e;
    category = category_to_string (categorize_error tests (some e));
    retryable = should_retry tests config e 0;
    api_error = elim (tests.api_status e) [
      | none ↦ none
      | some (code, reason) ↦ if code == 0 then none else some (code, reason)
    ];
  })

pub data RetryError (E : Type 0) : Type 0 where
  cancelled : RetryError E
  -- the number of attempts that the message names, and the last error
  failed_after : ℕ → E → RetryError E

module _ {W E : Type 0}
    -- the operation, on the state of the world
    (operation : W → Option E × W)
    -- the wait before an attempt, which tells whether the context was cancelled in it
    (wait : ℕ → W → Bool × W)
    -- whether an error of an attempt is retried
    (retry : E → ℕ → Bool) where
  -- The loop, with the attempts that are left after this one; `total` is MaxRetries+1.
  unfoldable pub attempts_from : ℕ → ℕ → ℕ → W → Option (RetryError E) × W
  attempts_from total zero attempt w =
      let (failure, w₁) = operation w in
      elim failure [ none ↦ (none, w₁) | some e ↦ (some (failed_after total e), w₁) ]
  attempts_from total (suc left) attempt w =
      let (failure, w₁) = operation w in
      elim failure [
        | none ↦ (none, w₁)
        | some e ↦ elim (retry e attempt) [
          | false ↦ (some (failed_after total e), w₁)
          | true ↦
              let (stopped, w₂) = wait (suc attempt) w₁ in
              elim stopped [
                | true ↦ (some cancelled, w₂)
                | false ↦ attempts_from total left (suc attempt) w₂
              ]
        ]
      ]

  -- RetryWithBackoffAndCondition
  unfoldable pub retry_with_backoff_and_condition : RetryConfig → W → Option (RetryError E) × W
  retry_with_backoff_and_condition config =
      attempts_from (config.max_retries + 1) config.max_retries 0

-- RetryWithBackoff
unfoldable pub retry_with_backoff :
    {W E : Type 0}
    → ErrorTests E
    → RetryConfig
    → (W → Option E × W)
    → (ℕ → W → Bool × W)
    → W
    → Option (RetryError E) × W
retry_with_backoff tests config operation wait =
    retry_with_backoff_and_condition operation wait (should_retry tests config) config
