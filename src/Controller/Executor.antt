-- ===== src/Controller/Executor.antt =====
-- TaskExecutor of internal/controller/annotationschedulerule_controller.go, with the reconciler set
-- as cmd/main.go sets it: the execution of a due task with its retries, the metrics, and the status
-- of its rule. An executor without a reconciler is a function of its own.
pub mod Tasks
pub mod Recorded
use dynamic_annotation_contr.Base.{
  not, ℕ, ◌+◌, ◌-◌, ◌==◌, Bool, true, false, ◌||◌, Option, none, some, List, [], ◌∷◌, if◌then◌else◌,
  length, is_empty, Bytes, codes, str_eq, split,
}
use dynamic_annotation_contr.Api.{Time, Object, Rule}
use dynamic_annotation_contr.Client.{Client, Result, ok, err}
use dynamic_annotation_contr.Audit.{
  AuditSink, RuleInfo, log_annotation_apply, log_annotation_remove,
}
use dynamic_annotation_contr.Template.{TemplateContext}
use dynamic_annotation_contr.Scheduler.{ScheduledTask}
use dynamic_annotation_contr.Status.{ErrorTexts, record_execution}
use dynamic_annotation_contr.Errors.{ErrorTests}
use dynamic_annotation_contr.Manager.Legacy.{keys_of}
use dynamic_annotation_contr.Manager.Groups.{GroupResult, GroupFailure, no_error}
use dynamic_annotation_contr.Manager.Discovery.{QueryError, get_matching_resources}
use dynamic_annotation_contr.Manager.Annotations.{
  WriteError, apply_annotations, remove_annotations, apply_annotation_groups,
  remove_annotation_groups,
}
use dynamic_annotation_contr.Controller.{
  ExecutionMetrics, Environment, Settings, State, Failure, attempt, record_metrics,
}
use dynamic_annotation_contr.Controller.Actions.{
  update_failed, fetch_failed, TaskTests, TaskError, StatusError, execute_action,
}

-- The namespace and the name: of the task, or else the parts of the rule ID.
unfoldable pub rule_of_task : ScheduledTask → Option (Bytes × Bytes)
rule_of_task task =
    let parts : Option (Bytes × Bytes) = elim (split task.rule_id b'/') [
      | namespace ∷ name ∷ [] ↦ some (namespace, name)
      | other ↦ none
    ] in
    if is_empty task.rule_namespace || is_empty task.rule_name
    then parts
    else some (task.rule_namespace, task.rule_name)

module _ {W E S L C F : Type 0} (env : Environment W E S L C F) (settings : Settings)
    (tests : TaskTests E F) where
  -- one attempt of updateRuleStatusAfterExecution
  write_status :
      Bytes
      → Bytes
      → ScheduledTask
      → Option (Failure (TaskError E F))
      → ℕ
      → Time
      → State W L
      → Option (StatusError E) × (Unit {0} × State W L)
  write_status namespace name task failure affected at s =
      let (fetched, w₁) = env.rules.get_rule namespace name s.world in
      let s₁ : State W L = record s { world = w₁ } in
      let texts_of : Option ErrorTexts = elim failure [
        | none ↦ none
        | some e ↦ some (tests.failed_texts e task.action)
      ] in
      elim fetched [
        | err e ↦ (some (fetch_failed e), (tt, s₁))
        | ok rule ↦
            let status =
              record_execution texts_of (tests.success_text affected) affected at (env.now w₁)
                (env.now w₁) rule.status in
            let (failed, w₂) = env.rules.update_status (record rule { status = status }) w₁ in
            (
              elim failed [ none ↦ none | some e ↦ some (update_failed e) ],
              (tt, record s₁ { world = w₂ }),
            )
      ]

  update_rule_status_after_execution :
      ScheduledTask → Option (Failure (TaskError E F)) → ℕ → Time → State W L → State W L
  update_rule_status_after_execution task failure affected at s = elim (rule_of_task task) [
    | none ↦ s
    | some (namespace, name) ↦
        (attempt env tests.on_status settings.error_handler
          (write_status namespace name task failure affected at) tt s).1.1
  ]

  pub execute_task : ScheduledTask → State W L → Option (Failure (TaskError E F)) × State W L
  execute_task task s =
      let start = env.now s.world in
      let (failure, (affected, s₁)) =
        attempt env tests.on_task settings.error_handler (execute_action env settings tests task) 0
          s in
      let success : Bool = elim failure [ none ↦ true | some e ↦ false ] in
      let metrics : Option ExecutionMetrics = elim s₁.metrics [
        | none ↦ none
        | some m ↦ some (record_metrics success (env.now s₁.world - start) (env.now s₁.world) m)
      ] in
      (
        failure,
        update_rule_status_after_execution task failure affected start
            (record s₁ { metrics = metrics }),
      )

  -- A nil reconciler has no error handler and no audit logger.
  abbrev without_reconciler : Settings
  without_reconciler = record settings { error_handler = none; has_audit_logger = false }

  -- ExecuteTask of an executor whose reconciler is not set: one attempt, neither metrics nor status
  unfoldable execute_task_unset :
      ScheduledTask → State W L → Option (Failure (TaskError E F)) × State W L
  execute_task_unset task s =
      let (failure, (affected, s₁)) =
        attempt env tests.on_task none (execute_action env without_reconciler tests task) 0 s in
      (failure, s₁)
