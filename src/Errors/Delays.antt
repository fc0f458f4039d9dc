-- ===== src/Errors/Delays.antt =====
-- CalculateDelay and WaitForCondition of internal/errors/handler.go. The floating-point numbers are a
-- parameter; a duration is an integer, a number of nanoseconds.
use dynamic_annotation_contr.Base.{
  refl, ℕ, ◌*◌, ◌%◌, ◌≤◌, ◌≡◌, Bool, true, false, ◌||◌, Option, none, some, if◌then◌else◌, arith, ℤ,
  pos, negsuc, pos_part, ltb_ℤ, sub_ℕ, ◌+ℤ◌, ◌≤ℤ◌, pos_part-le,
}
use dynamic_annotation_contr.Client.{Result, ok, err}
use dynamic_annotation_contr.Errors.{
  ErrorTests, transient, network, categorize_error, same_category,
}

-- float64: the conversions from and to int64, and the operations that the code uses
pub record Floats : Type 1 where
  pub Float : Type 0
  pub of_int : ℤ → Float
  pub truncated : Float → ℤ
  pub times : Float → Float → Float
  pub pow : Float → Float → Float
  pub less : Float → Float → Bool
  pub tenth : Float

-- the numbers of a RetryConfig that make the delay
pub record DelayConfig (Float : Type 0) : Type 0 where
  pub base_delay : ℤ
  pub max_delay : ℤ
  pub backoff_factor : Float
  pub jitter : Bool

-- 2*time.Now().UnixNano()%2 - 1, which Go reads as ((2*n)%2) - 1
jitter_factor : ℕ → ℤ
jitter_factor unix_nano = sub_ℕ (2 * unix_nano % 2) 1

module _ (floats : Floats) where
  open floats use {Float, of_int, truncated, times, pow, less, tenth}

  -- the delay before the jitter
  pub backoff : DelayConfig Float → ℤ → ℤ
  backoff config attempt =
      let delay =
        times (of_int config.base_delay)
          (pow config.backoff_factor (of_int (attempt +ℤ negsuc 0))) in
      truncated (if less (of_int config.max_delay) delay then of_int config.max_delay else delay)

  with_jitter : DelayConfig Float → ℕ → ℤ → ℤ
  with_jitter config unix_nano duration =
      let total =
        duration
        +ℤ truncated (times (times (of_int duration) tenth) (of_int (jitter_factor unix_nano))) in
      if ltb_ℤ total (pos 0) then config.base_delay else total

  pub calculate_delay : DelayConfig Float → ℤ → ℕ → ℤ
  calculate_delay config attempt unix_nano =
      if ltb_ℤ (pos 0) attempt
      then (if config.jitter
          then with_jitter config unix_nano (backoff config attempt)
          else backoff config attempt)
      else config.base_delay

  -- What IEEE 754 gives for a bound that is a float itself: a float that is not above it is cut to
  -- an integer that is not either, the conversions of it are exact, and to add a number of the
  -- other sign that is no larger does not go beyond zero or away from it.
  pub record IsRounded (max : ℤ) : Type 0 where
    pub exact : truncated (of_int max) ≡ max
    pub capped : (x : Float) → less (of_int max) x ≡ false → truncated x ≤ℤ max
    pub shrinks :
        (d : ℤ)
        → pos_part (d +ℤ truncated (times (times (of_int d) tenth) (of_int (negsuc 0))))
          ≤ pos_part d

  even : (n : ℕ) → 2 * n % 2 ≡ 0
  even n = omega arith

  jitter_factor_lem : (n : ℕ) → jitter_factor n ≡ negsuc 0
  unfolding jitter_factor
  jitter_factor_lem n = rw (even n) refl

  module _ (config : DelayConfig Float) (rounded : IsRounded config.max_delay) where
    truncated-le :
        (x : Float) (above : Bool)
        → less (of_int config.max_delay) x ≡ above
        → pos_part (truncated (if above then of_int config.max_delay else x))
          ≤ pos_part config.max_delay
    truncated-le x true h = rw rounded.exact (omega arith)
    truncated-le x false h = pos_part-le (truncated x) config.max_delay (rounded.capped x h)

    backoff-le : (attempt : ℤ) → pos_part (backoff config attempt) ≤ pos_part config.max_delay
    unfolding backoff
    backoff-le attempt = truncated-le _ _ refl

    with_jitter-le :
        (now : ℕ) (duration : ℤ)
        → pos_part config.base_delay ≤ pos_part config.max_delay
        → pos_part duration ≤ pos_part config.max_delay
        → pos_part (with_jitter config now duration) ≤ pos_part config.max_delay
    unfolding with_jitter
    with_jitter-le now duration hb hd =
        rw (jitter_factor_lem now) (ground (arith, rounded.shrinks duration))

  with_jitter_same :
      (config : DelayConfig Float) (now later : ℕ) (duration : ℤ)
      → with_jitter config now duration ≡ with_jitter config later duration
  unfolding with_jitter
  with_jitter_same config now later duration =
      rw (jitter_factor_lem now, jitter_factor_lem later) refl

  -- No delay is longer than the longest one of the configuration, if the shortest is not; and for
  -- one configuration and attempt it is always the same, also with the jitter.
  pub calculate_delay_lem :
      (config : DelayConfig Float) (attempt : ℤ) (now later : ℕ)
      → IsRounded config.max_delay
      → pos_part config.base_delay ≤ pos_part config.max_delay
      → (pos_part (calculate_delay config attempt now) ≤ pos_part config.max_delay)
        × (calculate_delay config attempt now ≡ calculate_delay config attempt later)
  unfolding calculate_delay
  calculate_delay_lem config attempt now later rounded h = (
    ground (
      arith,
      backoff-le config rounded attempt,
      with_jitter-le config rounded now (backoff config attempt) h,
    ),
    rw (with_jitter_same config now later (backoff config attempt)) refl,
  )

-- WaitForCondition: what wait.PollUntilContextTimeout is given. An error that may pass is taken for
-- a condition that does not hold yet; another one ends the wait.
unfoldable poll_condition : {E : Type 0} → ErrorTests E → Result E Bool → Bool × Option E
poll_condition tests (ok done) = (done, none)
poll_condition tests (err e) =
    let category = categorize_error tests (some e) in
    if same_category category transient || same_category category network
    then (false, none)
    else (false, some e)

-- `poll` is that function of apimachinery, with the interval and the timeout.
unfoldable wait_for_condition :
    {W E : Type 0}
    → (ℤ → ℕ → (W → (Bool × Option E) × W) → W → Option E × W)
    → ErrorTests E
    → ℤ
    → (W → Result E Bool × W)
    → ℕ
    → W
    → Option E × W
wait_for_condition poll tests base_delay condition timeout =
    poll base_delay timeout
      (λ w. let (checked, w') = condition w in (poll_condition tests checked, w'))
