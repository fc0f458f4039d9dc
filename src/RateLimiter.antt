-- ===== src/RateLimiter.antt =====
-- internal/resource/ratelimiter.go: rate limits on operations, for all and for each namespace. The
-- token bucket of golang.org/x/time/rate is a parameter. Each reading of the clock is an argument;
-- what holds a lock is one step.
pub mod Counts
pub mod Namespaces
mod Limits
unfoldable pub use Limits.*
use dynamic_annotation_contr.Base.{
  ℕ, ◌+◌, ◌-◌, Bool, true, false, not, Option, none, some, List, [], ◌∷◌, if◌then◌else◌, ltb, Bytes,
  codes, str_eq, is_empty, length, Assoc, lookup, insert, keys_where, delete_all,
}
use dynamic_annotation_contr.Api.{Time}

module _ {L C F : Type 0} (bucket : TokenBucket L C F) where
  open bucket use {new_limiter}

  unfoldable pub new_annotation_rate_limiter : Option RateLimiterConfig → AnnotationRateLimiter L
  new_annotation_rate_limiter given =
      let config : RateLimiterConfig = elim given [
        | none ↦ default_rate_limiter_config
        | some c ↦ c
      ] in
      record {
        config = config;
        global = record {
          apply_limiter = new_limiter config.global_apply_rate config.global_apply_burst;
          remove_limiter = new_limiter config.global_remove_rate config.global_remove_burst;
          query_limiter = new_limiter config.global_query_rate config.global_query_burst;
        };
        namespaces = [];
        total_requests = 0;
        throttled_requests = 0;
      }

  -- the limiters that are made for a namespace
  unfoldable new_limiters : RateLimiterConfig → Limiters L
  new_limiters c = record {
    apply_limiter = new_limiter c.per_namespace_apply_rate c.per_namespace_apply_burst;
    remove_limiter = new_limiter c.per_namespace_remove_rate c.per_namespace_remove_burst;
    query_limiter = new_limiter c.per_namespace_query_rate c.per_namespace_query_burst;
  }

  get_or_create_namespace_limiters :
      Bytes → Time → AnnotationRateLimiter L → Limiters L × AnnotationRateLimiter L
  get_or_create_namespace_limiters namespace now s =
      let ls : Limiters L = elim (lookup namespace s.namespaces) [
        | some found ↦ found.limiters
        | none ↦ new_limiters s.config
      ] in
      (
        ls,
        record s {
          namespaces = insert namespace (record { limiters = ls; last_used = now }) s.namespaces;
        },
      )

  -- what a limiter of a namespace has become, `last_used` as it was set before
  store_limiters : Bytes → Time → Limiters L → AnnotationRateLimiter L → AnnotationRateLimiter L
  store_limiters namespace now ls s = record s {
    namespaces = insert namespace (record { limiters = ls; last_used = now }) s.namespaces;
  }

  allow_global : Bytes → Time → AnnotationRateLimiter L → Bool × AnnotationRateLimiter L
  allow_global operation now s = elim (limiter_of operation s.global) [
    | none ↦ (false, s)
    | some l ↦
        let (allowed, l') = bucket.allow now l in
        (allowed, record s { global = set_limiter operation l' s.global })
  ]

  allow_namespace : Bytes → Bytes → Time → AnnotationRateLimiter L → Bool × AnnotationRateLimiter L
  allow_namespace operation namespace now s =
      let (ls, s₁) = get_or_create_namespace_limiters namespace now s in
      elim (limiter_of operation ls) [
        | none ↦ (false, s₁)
        | some l ↦
            let (allowed, l') = bucket.allow now l in
            (allowed, store_limiters namespace now (set_limiter operation l' ls) s₁)
      ]

  -- Allow
  allow_operation : Bytes → Bytes → Time → AnnotationRateLimiter L → Bool × AnnotationRateLimiter L
  allow_operation operation namespace now s =
      let (allowed, s₁) = allow_global operation now (count_request s) in
      let (allowed_there, s₂) = allow_namespace operation namespace now s₁ in
      if not allowed
      then (false, count_throttled s₁)
      else if is_empty namespace
      then (true, s₁)
      else if not allowed_there
      then (false, count_throttled s₂)
      else (true, s₂)

  module _ (ctx : C) where
    wait_global :
        Bytes → Time → AnnotationRateLimiter L → Option (LimitError F) × AnnotationRateLimiter L
    wait_global operation now s = elim (limiter_of operation s.global) [
      | none ↦ (some (unknown_operation operation), s)
      | some l ↦
          let (failure, l') = bucket.wait ctx now l in
          (
            elim failure [ none ↦ none | some e ↦ some (global_limit operation e) ],
            record s { global = set_limiter operation l' s.global },
          )
    ]

    wait_namespace :
        Bytes
        → Bytes
        → Time
        → AnnotationRateLimiter L
        → Option (LimitError F) × AnnotationRateLimiter L
    wait_namespace operation namespace now s =
        let (ls, s₁) = get_or_create_namespace_limiters namespace now s in
        elim (limiter_of operation ls) [
          | none ↦ (some (unknown_operation operation), s₁)
          | some l ↦
              let (failure, l') = bucket.wait ctx now l in
              (
                elim failure [
                  | none ↦ none
                  | some e ↦ some (namespace_limit operation namespace e)
                ],
                store_limiters namespace now (set_limiter operation l' ls) s₁,
              )
        ]

    -- Wait; the second limit is waited for at `later`.
    pub wait_operation :
        Bytes
        → Bytes
        → Time
        → Time
        → AnnotationRateLimiter L
        → Option (LimitError F) × AnnotationRateLimiter L
    wait_operation operation namespace now later s =
        let (failure, s₁) = wait_global operation now (count_request s) in
        let (failure_there, s₂) = wait_namespace operation namespace later s₁ in
        elim failure [
          | some e ↦ (some e, count_throttled s₁)
          | none ↦
              if is_empty namespace
              then (none, s₁)
              else elim failure_there [ some e ↦ (some e, count_throttled s₂) | none ↦ (none, s₂) ]
        ]
