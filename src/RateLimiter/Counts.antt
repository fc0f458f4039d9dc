-- ===== src/RateLimiter/Counts.antt =====
-- What the counters say, and which limiters a request touches.
use dynamic_annotation_contr.Base.{
  ℕ, ◌+◌, ◌≡◌, refl, Bool, true, false, Option, none, some, arith, Bytes, is_empty, str_eq, lookup,
  ◌∙◌, lookup-insert,
}
use dynamic_annotation_contr.Api.{Time}
use dynamic_annotation_contr.RateLimiter.{
  TokenBucket, AnnotationRateLimiter, Limiters, count_request, count_throttled, allow_global,
  allow_namespace, allow_operation, wait_global, wait_namespace, wait_operation,
  get_or_create_namespace_limiters, store_limiters,
}

abbrev refusal {ℓ} : {A : Type ℓ} → Option A → ℕ
refusal none = 0
refusal (some e) = 1

abbrev throttle : Bool → ℕ
throttle true = 0
throttle false = 1

module _ {L C F : Type 0} (bucket : TokenBucket L C F) where
  -- Each request is counted once, and once more as throttled exactly if it is refused, whether it
  -- waits or not.
  wait_operation_counts :
      (ctx : C) (operation namespace : Bytes) (now later : Time) (s : AnnotationRateLimiter L)
      → let (failure, waited) = wait_operation bucket ctx operation namespace now later s in
        let (allowed, asked) = allow_operation bucket operation namespace now s in
        (waited.total_requests ≡ s.total_requests + 1)
        × (waited.throttled_requests ≡ s.throttled_requests + refusal failure)
        × (asked.total_requests ≡ s.total_requests + 1)
        × (asked.throttled_requests ≡ s.throttled_requests + throttle allowed)
  unfolding wait_operation wait_global wait_namespace allow_operation allow_global allow_namespace
      get_or_create_namespace_limiters store_limiters count_request count_throttled
  wait_operation_counts ctx operation namespace now later s = ground arith

  get_or_create_frame :
      (namespace other : Bytes) (now : Time) (s : AnnotationRateLimiter L)
      → str_eq namespace other ≡ false
      → lookup other (get_or_create_namespace_limiters bucket namespace now s).1.namespaces
        ≡ lookup other s.namespaces
  unfolding get_or_create_namespace_limiters
  get_or_create_frame namespace other now s h =
      lookup-insert namespace other _ s.namespaces ∙ rw h refl

  store_limiters_frame :
      (namespace other : Bytes) (now : Time) (ls : Limiters L) (s : AnnotationRateLimiter L)
      → str_eq namespace other ≡ false
      → lookup other (store_limiters bucket namespace now ls s).namespaces
        ≡ lookup other s.namespaces
  unfolding store_limiters
  store_limiters_frame namespace other now ls s h =
      lookup-insert namespace other _ s.namespaces ∙ rw h refl

  wait_namespace_frame :
      (ctx : C) (operation namespace other : Bytes) (now : Time) (s : AnnotationRateLimiter L)
      → str_eq namespace other ≡ false
      → lookup other (wait_namespace bucket ctx operation namespace now s).1.namespaces
        ≡ lookup other s.namespaces
  unfolding wait_namespace
  wait_namespace_frame ctx operation namespace other now s h = grind (
    arith,
    get_or_create_frame namespace other now s h,
    λ (ls : Limiters L) (t : AnnotationRateLimiter L).
        store_limiters_frame namespace other now ls t h,
  )

  allow_namespace_frame :
      (operation namespace other : Bytes) (now : Time) (s : AnnotationRateLimiter L)
      → str_eq namespace other ≡ false
      → lookup other (allow_namespace bucket operation namespace now s).1.namespaces
        ≡ lookup other s.namespaces
  unfolding allow_namespace
  allow_namespace_frame operation namespace other now s h = grind (
    arith,
    get_or_create_frame namespace other now s h,
    λ (ls : Limiters L) (t : AnnotationRateLimiter L).
        store_limiters_frame namespace other now ls t h,
  )

  -- A request in one namespace leaves the limiters of every other namespace as they are.
  wait_operation_frame :
      (ctx : C) (operation namespace other : Bytes) (now later : Time) (s : AnnotationRateLimiter L)
      → str_eq namespace other ≡ false
      → (lookup other (wait_operation bucket ctx operation namespace now later s).1.namespaces
          ≡ lookup other s.namespaces)
        × (lookup other (allow_operation bucket operation namespace now s).1.namespaces
            ≡ lookup other s.namespaces)
  unfolding wait_operation wait_global allow_operation allow_global count_request count_throttled
  wait_operation_frame ctx operation namespace other now later s h = ground (
    arith,
    wait_namespace_frame ctx operation namespace other later
        (wait_global bucket ctx operation now (count_request s)).1 h,
    allow_namespace_frame operation namespace other now
        (allow_global bucket operation now (count_request s)).1 h,
  )

  -- A request that its namespace refuses has taken its place in the global limit all the same: the
  -- global limiter is as if the request had been let pass.
  refused_request_taken :
      (operation namespace : Bytes) (now : Time) (s : AnnotationRateLimiter L)
      → (allow_global bucket operation now s).0 ≡ true
      → is_empty namespace ≡ false
      → (allow_operation bucket operation namespace now s).0 ≡ false
      → (allow_operation bucket operation namespace now s).1.global
        ≡ (allow_global bucket operation now s).1.global
  unfolding allow_operation allow_global allow_namespace get_or_create_namespace_limiters
      store_limiters count_request count_throttled
  refused_request_taken operation namespace now s hg hn hr = ground arith
