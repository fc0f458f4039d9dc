-- ===== src/Controller.antt =====
-- internal/controller/annotationschedulerule_controller.go: what the reconciler and the executor of
-- tasks share. Everything that is no part of the repository is a field of `Environment`.
pub mod Retries
pub mod Actions
pub mod Executor
pub mod Reconcile
pub mod Setup
pub mod Cycle
use dynamic_annotation_contr.Base.{
  ℕ, ◌+◌, ◌/◌, ◌==◌, Bool, true, false, Option, none, some, if◌then◌else◌, Bytes,
}
use dynamic_annotation_contr.Api.{Time, Rule}
use dynamic_annotation_contr.Client.{Client, Result}
use dynamic_annotation_contr.Validator.{AnnotationValidator}
use dynamic_annotation_contr.Template.{TimeTexts}
use dynamic_annotation_contr.Operation.{Policies}
use dynamic_annotation_contr.Schedule.{Cron}
use dynamic_annotation_contr.Scheduler.{SchedulerState, NamespacedName}
use dynamic_annotation_contr.Cache.{SelectorText}
use dynamic_annotation_contr.RateLimiter.{TokenBucket}
use dynamic_annotation_contr.Errors.{ErrorTests, RetryConfig, RetryError, retry_with_backoff}
use dynamic_annotation_contr.Manager.Groups.{SortSlice}
use dynamic_annotation_contr.Manager.Discovery.{Services, QueryTimes}
use dynamic_annotation_contr.Manager.Annotations.{WriteTimes, Auditing}

-- The client on rules: Get by namespace and name, Update, and Status().Update.
pub record RuleClient (W E : Type 0) : Type 0 where
  pub get_rule : Bytes → Bytes → W → Result E Rule × W
  pub update_rule : Rule → W → Option E × W
  pub update_status : Rule → W → Option E × W

-- The functions of controllerutil on the finalizer of the controller.
pub record Finalizers : Type 0 where
  pub contains_finalizer : Rule → Bool
  pub add_finalizer : Rule → Rule
  pub remove_finalizer : Rule → Rule

-- The libraries and the clock. `now` is a reading in a state of the world; `query_times` and
-- `write_times` are the readings in a query and in a write that begin in it; `wait` is the wait
-- before an attempt, which tells whether the context was cancelled.
pub record Environment (W E S L C : Type 0) (F : Type 0) : Type 0 where
  pub client : Client W E
  pub auditing : Auditing W E
  pub rules : RuleClient W E
  pub finalizers : Finalizers
  pub cron : Cron S
  pub namespaced_name : NamespacedName
  pub sort : SortSlice
  pub texts : SelectorText
  pub bucket : TokenBucket L C F
  pub ctx : C
  pub now : W → Time
  pub query_times : W → QueryTimes
  pub write_times : W → WriteTimes
  pub wait : ℕ → W → Bool × W
  pub time_texts : Time → TimeTexts

pub record ExecutionMetrics : Type 0 where
  pub total_executions : ℕ
  pub successful_executions : ℕ
  pub failed_executions : ℕ
  pub last_execution_time : Option Time
  pub average_execution_time : ℕ

record_metrics : Bool → ℕ → Time → ExecutionMetrics → ExecutionMetrics
record_metrics success duration now m = record m {
  total_executions = m.total_executions + 1;
  last_execution_time = some now;
  successful_executions = if success then m.successful_executions + 1 else m.successful_executions;
  failed_executions = if success then m.failed_executions else m.failed_executions + 1;
  average_execution_time =
      if m.average_execution_time == 0 then duration else (m.average_execution_time + duration) / 2;
}

-- GetMetrics
unfoldable get_metrics : ExecutionMetrics → ℕ × ℕ × ℕ × Option Time × ℕ
get_metrics m = (
  m.total_executions, m.successful_executions, m.failed_executions, m.last_execution_time,
  m.average_execution_time,
)

-- What the reconciler and its executor work on; none is a nil pointer.
pub record State (W L : Type 0) : Type 0 where
  pub world : W
  pub services : Services L
  pub scheduler : SchedulerState
  pub metrics : Option ExecutionMetrics

-- The fields of the reconciler that no operation changes.
pub record Settings : Type 0 where
  pub error_handler : Option RetryConfig
  pub has_recovery_manager : Bool
  pub policies : Policies
  pub security_validator : Option AnnotationValidator
  pub has_audit_logger : Bool

-- An error as the operation gave it, or as the retry loop wraps it.
pub data Failure (X : Type 0) : Type 0 where
  direct : X → Failure X
  retried : RetryError X → Failure X

module _ {W E S L C F : Type 0} (env : Environment W E S L C F) where
  -- the wait, on the state and the variable that the operation assigns to
  pub wait_state : {A : Type 0} → ℕ → A × State W L → Bool × (A × State W L)
  wait_state n (a, s) =
      let (stopped, w) = env.wait n s.world in (stopped, (a, record s { world = w }))

  -- An operation that assigns to a variable, under RetryWithBackoff where there is an error handler,
  -- once where there is none. The variable starts as `a`.
  unfoldable pub attempt :
      {X A : Type 0}
      → ErrorTests X
      → Option RetryConfig
      → (State W L → Option X × (A × State W L))
      → A
      → State W L
      → Option (Failure X) × (A × State W L)
  attempt tests handler operation a s = elim handler [
    | none ↦
        let (failure, result) = operation s in
        (elim failure [ none ↦ none | some e ↦ some (direct e) ], result)
    | some config ↦
        let (failure, result) =
          retry_with_backoff tests config (λ p. operation p.1) wait_state (a, s) in
        (elim failure [ none ↦ none | some e ↦ some (retried e) ], result)
  ]
