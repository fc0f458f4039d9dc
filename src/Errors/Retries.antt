-- ===== src/Errors/Retries.antt =====
-- How often the retry loops call the operation, and with what result they end.
use dynamic_annotation_contr.Base.{
  refl, subst, ◌≡◌, Bool-cases, Option-cases, inl, inr, false, true, ◌⊎◌, none, some, any, ◌||◌,
  ◌↔◌, ◌<◌, ℕ, zero, suc, ◌+◌, ◌≤◌, Bool, Option, arith,
}
use dynamic_annotation_contr.Errors.{
  cancelled, failed_after, failed_after, default_retry_config, RetryError, categorize_error,
  transient, network, rate_limit, conflict, ErrorTests, RetryConfig, attempts_from, should_retry,
  retry_with_backoff_and_condition, retry_with_backoff,
}

-- The operation that also counts its calls.
abbrev counted : {W E : Type 0} → (W → Option E × W) → W × ℕ → Option E × (W × ℕ)
counted operation (w, n) = let (failure, w') = operation w in (failure, (w', n + 1))

abbrev pub waiting : {W : Type 0} → (ℕ → W → Bool × W) → ℕ → W × ℕ → Bool × (W × ℕ)
waiting wait attempt (w, n) = let (stopped, w') = wait attempt w in (stopped, (w', n))

module _ {W E : Type 0} (operation : W → Option E × W) (wait : ℕ → W → Bool × W) where
  module _ (retry : E → ℕ → Bool) where
    attempts-bound :
        (total left attempt : ℕ) (s : W × ℕ)
        → (attempts_from (counted operation) (waiting wait) retry total left attempt s).1.1
          ≤ s.1 + left + 1
    unfolding attempts_from
    attempts-bound total zero attempt (w, n) = ground arith
    attempts-bound total (suc left) attempt (w, n) =
        grind (arith, λ (w' : W) (m : ℕ). attempts-bound total left (suc attempt) (w', m))

  -- A retried operation is called at most `MaxRetries` + 1 times.
  retry_with_backoff_bound :
      (tests : ErrorTests E) (config : RetryConfig) (w : W)
      → (retry_with_backoff tests config (counted operation) (waiting wait) (w, 0)).1.1
        ≤ config.max_retries + 1
  unfolding retry_with_backoff retry_with_backoff_and_condition
  retry_with_backoff_bound tests config w = omega (
    arith,
    attempts-bound (should_retry tests config) (config.max_retries + 1) config.max_retries 0 (w, 0),
  )

  module _ (retry : E → ℕ → Bool) where
    -- So many attempts, from this one in state `w` on: each failed with an error that is to be
    -- retried at it, and the wait after it was not cancelled. They lead to the state `u`.
    abbrev Retried : ℕ → ℕ → W → W → Type 0
    Retried zero attempt w u = w ≡ u
    Retried (suc n) attempt w u =
        (e : E) × (w₁ : W) × (w₂ : W) × (operation w ≡ (some e, w₁))
        × (retry e attempt ≡ true)
        × (wait (suc attempt) w₁ ≡ (false, w₂))
        × Retried n (suc attempt) w₂ u

    -- How the attempts from this one on end after `n` retries, with the last call made in `u`: with
    -- success; with the error of that call, which was not to be retried at it; or, when it was, by
    -- the cancellation of the wait.
    abbrev LastCall : ℕ → Option (RetryError E) → ℕ → W → W → Type 0
    LastCall total none attempt u w' = operation u ≡ (none, w')
    LastCall total (some cancelled) attempt u w' =
        (e : E) × (u₁ : W) × (operation u ≡ (some e, u₁))
        × (retry e attempt ≡ true)
        × (wait (suc attempt) u₁ ≡ (true, w'))
    LastCall total (some (failed_after count e)) attempt u w' =
        (count ≡ total) × (operation u ≡ (some e, w')) × (retry e attempt ≡ false)

    abbrev pub Ended : ℕ → ℕ → W → Option (RetryError E) → W → Type 0
    Ended total attempt w result w' =
        (n : ℕ) × (u : W) × Retried n attempt w u × LastCall total result (n + attempt) u w'

    -- A retry before the attempts is one more.
    again-Ended :
        (total attempt : ℕ) (w w₁ w₂ w' : W) (e : E) (result : Option (RetryError E))
        → operation w ≡ (some e, w₁)
        → retry e attempt ≡ true
        → wait (suc attempt) w₁ ≡ (false, w₂)
        → Ended total (suc attempt) w₂ result w'
        → Ended total attempt w result w'
    again-Ended total attempt w w₁ w₂ w' e result ho hr hw (n, u, tries, last) = (
      suc n,
      u,
      (e, w₁, w₂, ho, hr, hw, tries),
      subst (λ m. LastCall total result m u w') (omega arith) last,
    )

    attempts_from-Ended :
        (total left attempt : ℕ) (w : W)
        → ((e : E) → retry e (attempt + left) ≡ false)
        → let (result, w') = attempts_from operation wait retry total left attempt w in
          Ended total attempt w result w'
    unfolding attempts_from
    attempts_from-Ended total zero attempt w last = elim (Option-cases (operation w).0) [
      | inl h ↦ rw (attempts_from, h) (0, w, refl, ground arith)
      | inr (e, h) ↦
          rw (attempts_from, h) (0, w, refl, (refl, ground arith, ground (arith, last e)))
    ]
    attempts_from-Ended total (suc left) attempt w last = elim (Option-cases (operation w).0) [
      | inl h ↦ rw (attempts_from, h) (0, w, refl, ground arith)
      | inr (e, h) ↦ elim (Bool-cases (retry e attempt)) [
        | inr r ↦ rw (attempts_from, h, r) (0, w, refl, (refl, ground arith, ground arith))
        | inl r ↦ elim (Bool-cases (wait (suc attempt) (operation w).1).0) [
          | inl c ↦
              rw (attempts_from, h, r, c)
                (0, w, refl, (e, (operation w).1, ground arith, ground arith, ground arith))
          | inr c ↦
              rw (attempts_from, h, r, c)
                (again-Ended total attempt w (operation w).1 _ _ e _ (ground arith) r (ground arith)
                  (attempts_from-Ended total left (suc attempt)
                    (wait (suc attempt) (operation w).1).1 (λ x. ground (arith, last x))))
        ]
      ]
    ]

  no_more :
      (tests : ErrorTests E) (config : RetryConfig) (e : E)
      → should_retry tests config e (0 + config.max_retries) ≡ false
  unfolding should_retry
  no_more tests config e = ground arith

  -- How a retried operation ends. Some number of calls, counted from the first, failed with an error
  -- that is to be retried at that attempt, each followed by a wait that was not cancelled. The call
  -- after them was the last: it succeeded, and success is reported; or its error was not to be
  -- retried at that attempt, and is reported with `MaxRetries` + 1 as the number of attempts; or it
  -- was to be retried and the wait was cancelled, which is reported.
  pub retry_with_backoff-Ended :
      (tests : ErrorTests E) (config : RetryConfig) (w : W)
      → let (result, w') = retry_with_backoff tests config operation wait w in
        Ended (should_retry tests config) (config.max_retries + 1) 0 w result w'
  unfolding retry_with_backoff retry_with_backoff_and_condition
  retry_with_backoff-Ended tests config w =
      attempts_from-Ended (should_retry tests config) (config.max_retries + 1) config.max_retries 0
        w (no_more tests config)

-- With the default configuration an error is retried, at an attempt before the sixth, exactly if its
-- category is transient, network, rate limit or conflict.
should_retry_default_iff :
    {E : Type 0} (tests : ErrorTests E) (e : E) (attempt : ℕ)
    → (should_retry tests default_retry_config e attempt ≡ true) ↔ (
        (attempt < 5)
        × ((categorize_error tests (some e) ≡ transient)
            ⊎ (categorize_error tests (some e) ≡ network)
            ⊎ (categorize_error tests (some e) ≡ rate_limit)
            ⊎ (categorize_error tests (some e) ≡ conflict)))
unfolding should_retry default_retry_config any
should_retry_default_iff tests e attempt = (λ h. ground arith, λ h. ground arith)

-- An error that the API server answers with NotFound, BadRequest, Invalid, Forbidden or Unauthorized
-- and that none of the tests on temporary conditions recognises is not retried, whatever its text.
final_answers_not_retried :
    {E : Type 0} (tests : ErrorTests E) (e : E) (attempt : ℕ)
    → tests.is_conflict e ≡ false
    → (tests.is_server_timeout e || tests.is_timeout e) ≡ false
    → (tests.is_service_unavailable e || tests.is_internal_error e) ≡ false
    → tests.is_too_many_requests e ≡ false
    → (tests.is_not_found e
        || (tests.is_bad_request e || tests.is_invalid e)
        || (tests.is_forbidden e || tests.is_unauthorized e))
      ≡ true
    → should_retry tests default_retry_config e attempt ≡ false
unfolding should_retry default_retry_config any categorize_error
final_answers_not_retried tests e attempt h₁ h₂ h₃ h₄ h₅ = ground arith
