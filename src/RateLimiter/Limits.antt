-- ===== src/RateLimiter/Limits.antt =====
-- The limiters of the rate limiter, its configuration, its counters and its cleanup.
use dynamic_annotation_contr.Base.{
  List, ℕ, ◌+◌, ◌-◌, Bool, Option, none, some, if◌then◌else◌, ltb, Bytes, codes, str_eq, length,
  Assoc, keys_where, delete_all,
}
use dynamic_annotation_contr.Ticker.{TickerEvent, run_ticker}
use dynamic_annotation_contr.Api.{Time}

-- rate.NewLimiter, and the methods Allow and Wait of a limiter: `C` is the context that a caller
-- waits under, `F` the errors of Wait.
pub record TokenBucket (L C F : Type 0) : Type 0 where
  pub new_limiter : ℕ → ℕ → L
  pub allow : Time → L → Bool × L
  pub wait : C → Time → L → Option F × L

-- A rate is a number of operations in a second.
pub record RateLimiterConfig : Type 0 where
  pub global_apply_rate : ℕ
  pub global_remove_rate : ℕ
  pub global_query_rate : ℕ
  pub global_apply_burst : ℕ
  pub global_remove_burst : ℕ
  pub global_query_burst : ℕ
  pub per_namespace_apply_rate : ℕ
  pub per_namespace_remove_rate : ℕ
  pub per_namespace_query_rate : ℕ
  pub per_namespace_apply_burst : ℕ
  pub per_namespace_remove_burst : ℕ
  pub per_namespace_query_burst : ℕ

unfoldable pub default_rate_limiter_config : RateLimiterConfig
default_rate_limiter_config = record {
  global_apply_rate = 10;
  global_remove_rate = 10;
  global_query_rate = 50;
  global_apply_burst = 20;
  global_remove_burst = 20;
  global_query_burst = 100;
  per_namespace_apply_rate = 5;
  per_namespace_remove_rate = 5;
  per_namespace_query_rate = 20;
  per_namespace_apply_burst = 10;
  per_namespace_remove_burst = 10;
  per_namespace_query_burst = 40;
}

-- one limiter for each type of operation
pub record Limiters (L : Type 0) : Type 0 where
  pub apply_limiter : L
  pub remove_limiter : L
  pub query_limiter : L

pub record NamespaceLimiters (L : Type 0) : Type 0 where
  pub limiters : Limiters L
  pub last_used : Time

pub record AnnotationRateLimiter (L : Type 0) : Type 0 where
  pub config : RateLimiterConfig
  pub global : Limiters L
  pub namespaces : Assoc (NamespaceLimiters L)
  pub total_requests : ℕ
  pub throttled_requests : ℕ

-- The limits that stop an operation.
pub data LimitError (F : Type 0) : Type 0 where
  unknown_operation : Bytes → LimitError F
  global_limit : Bytes → F → LimitError F
  namespace_limit : Bytes → Bytes → F → LimitError F

-- OperationTypeApply, OperationTypeRemove and OperationTypeQuery
abbrev pub operation_apply : Bytes
operation_apply = codes "apply"

abbrev pub operation_remove : Bytes
operation_remove = codes "remove"

abbrev pub operation_query : Bytes
operation_query = codes "query"

module _ {L : Type 0} where
  -- the `switch` on the operation, and a write through the pointer that it picks
  unfoldable pub limiter_of : Bytes → Limiters L → Option L
  limiter_of operation ls =
      if str_eq operation operation_apply
      then some ls.apply_limiter
      else if str_eq operation operation_remove
      then some ls.remove_limiter
      else if str_eq operation operation_query
      then some ls.query_limiter
      else none

  unfoldable pub set_limiter : Bytes → L → Limiters L → Limiters L
  set_limiter operation l ls =
      if str_eq operation operation_apply
      then record ls { apply_limiter = l }
      else if str_eq operation operation_remove
      then record ls { remove_limiter = l }
      else if str_eq operation operation_query
      then record ls { query_limiter = l }
      else ls

  -- the counters, under their own lock
  unfoldable pub count_request : AnnotationRateLimiter L → AnnotationRateLimiter L
  count_request s = record s { total_requests = s.total_requests + 1 }

  unfoldable pub count_throttled : AnnotationRateLimiter L → AnnotationRateLimiter L
  count_throttled s = record s { throttled_requests = s.throttled_requests + 1 }

  -- GetStats
  unfoldable get_stats : AnnotationRateLimiter L → ℕ × ℕ × ℕ
  get_stats s = (s.total_requests, s.throttled_requests, length s.namespaces)

  -- now.Sub(limiters.lastUsed) > maxAge
  unfoldable pub is_unused : ℕ → Time → Bytes × NamespaceLimiters L → Bool
  is_unused max_age now (namespace, ls) = ltb max_age (now - ls.last_used)

  unfoldable pub cleanup_unused_namespace_limiters :
      ℕ → Time → AnnotationRateLimiter L → AnnotationRateLimiter L
  cleanup_unused_namespace_limiters max_age now s = record s {
    namespaces = delete_all (keys_where (is_unused max_age now) s.namespaces) s.namespaces;
  }

  -- StartCleanupRoutine
  unfoldable start_cleanup_routine :
      ℕ → List TickerEvent → AnnotationRateLimiter L → AnnotationRateLimiter L
  start_cleanup_routine max_age = run_ticker (cleanup_unused_namespace_limiters max_age)
