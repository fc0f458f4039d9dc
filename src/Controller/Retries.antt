-- ===== src/Controller/Retries.antt =====
-- What holds of an operation holds of the operation under retries.
use dynamic_annotation_contr.Base.{◌+◌, ℕ, zero, suc, ◌≡◌, Bool, Option, none, some, arith}
use dynamic_annotation_contr.Errors.{
  ErrorTests, RetryConfig, attempts_from, retry_with_backoff, retry_with_backoff_and_condition,
  should_retry,
}
use dynamic_annotation_contr.Controller.{Environment, State, wait_state, attempt}

module _ {W X : Type 0} (P : W → Type 0) (operation : W → Option X × W) (wait : ℕ → W → Bool × W)
    (retry : X → ℕ → Bool) (operation_keeps : (w : W) → P w → P (operation w).1)
    (wait_keeps : (n : ℕ) (w : W) → P w → P (wait n w).1) where
  attempts_from-keeps :
      (total left attempt : ℕ) (w : W)
      → P w
      → P (attempts_from operation wait retry total left attempt w).1
  unfolding attempts_from
  attempts_from-keeps total zero attempt w h = grind (arith, operation_keeps w h)
  attempts_from-keeps total (suc left) attempt w h = grind (
    arith,
    operation_keeps w h,
    wait_keeps (suc attempt) (operation w).1,
    attempts_from-keeps total left (suc attempt) (wait (suc attempt) (operation w).1).1,
  )

  module _ (R : W → Type 0)
      (operation_ends : (w : W) → P w → (operation w).0 ≡ none → R (operation w).1) where
    attempts_from-ends :
        (total left attempt : ℕ) (w : W)
        → P w
        → (attempts_from operation wait retry total left attempt w).0 ≡ none
        → R (attempts_from operation wait retry total left attempt w).1
    unfolding attempts_from
    attempts_from-ends total zero attempt w h e = grind (arith, operation_ends w h)
    attempts_from-ends total (suc left) attempt w h e = grind (
      arith,
      operation_ends w h,
      operation_keeps w h,
      wait_keeps (suc attempt) (operation w).1,
      attempts_from-ends total left (suc attempt) (wait (suc attempt) (operation w).1).1,
    )

module _ {W E S L C F X A : Type 0} (env : Environment W E S L C F) (tests : ErrorTests X)
    (operation : State W L → Option X × (A × State W L)) (Q : State W L → Type 0)
    (operation_keeps : (s : State W L) → Q s → Q (operation s).1.1)
    (world_keeps : (s : State W L) (w : W) → Q s → Q (record s { world = w })) where
  -- What the operation and a change of the cluster leave true, the operation under retries does.
  pub attempt-keeps :
      (handler : Option RetryConfig) (a : A) (s : State W L)
      → Q s
      → Q (attempt env tests handler operation a s).1.1
  unfolding attempt retry_with_backoff retry_with_backoff_and_condition wait_state
  attempt-keeps none a s h = operation_keeps s h
  attempt-keeps (some config) a s h =
      attempts_from-keeps (λ p. Q p.1) (λ p. operation p.1) (wait_state env)
        (should_retry tests config) (λ p. operation_keeps p.1)
        (λ n p. world_keeps p.1 (env.wait n p.1.world).1) (config.max_retries + 1)
        config.max_retries 0 (a, s) h

  -- What each run that succeeds ends in, the operation under retries ends in if it succeeds.
  pub attempt-ends :
      (R : A × State W L → Type 0)
      → ((s : State W L) → Q s → (operation s).0 ≡ none → R (operation s).1)
      → (handler : Option RetryConfig) (a : A) (s : State W L) → Q s
      → (attempt env tests handler operation a s).0 ≡ none
      → R (attempt env tests handler operation a s).1
  unfolding attempt retry_with_backoff retry_with_backoff_and_condition wait_state
  attempt-ends R ends none a s h e = ends s h (ground arith)
  attempt-ends R ends (some config) a s h e =
      attempts_from-ends (λ p. Q p.1) (λ p. operation p.1) (wait_state env)
        (should_retry tests config) (λ p. operation_keeps p.1)
        (λ n p. world_keeps p.1 (env.wait n p.1.world).1) R (λ p. ends p.1) (config.max_retries + 1)
        config.max_retries 0 (a, s) h (ground arith)

attempts_from-first :
    {W X : Type 0} (operation : W → Option X × W) (wait : ℕ → W → Bool × W) (retry : X → ℕ → Bool)
    (total left attempt : ℕ) (w : W)
    → (operation w).0 ≡ none
    → attempts_from operation wait retry total left attempt w ≡ (none, (operation w).1)
unfolding attempts_from
attempts_from-first operation wait retry total zero attempt w h = ground arith
attempts_from-first operation wait retry total (suc left) attempt w h = ground arith

-- An operation that succeeds at once is not tried again.
pub attempt-first :
    {W E S L C F X A : Type 0} (env : Environment W E S L C F) (tests : ErrorTests X)
    (operation : State W L → Option X × (A × State W L)) (handler : Option RetryConfig) (a : A)
    (s : State W L)
    → (operation s).0 ≡ none
    → attempt env tests handler operation a s ≡ (none, (operation s).1)
unfolding attempt retry_with_backoff retry_with_backoff_and_condition wait_state
attempt-first env tests operation none a s h = ground arith
attempt-first env tests operation (some config) a s h = grind (
  arith,
  attempts_from-first (λ (p : _ × _). operation p.1) (wait_state env) (should_retry tests config)
      (config.max_retries + 1) config.max_retries 0 (a, s) h,
)
