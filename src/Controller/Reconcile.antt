-- ===== src/Controller/Reconcile.antt =====
-- The reconciler of internal/controller/annotationschedulerule_controller.go. A read through a nil
-- pointer is the outcome `panicked`. `backoff` is what CalculateDelay(1) returns, with its jitter.
-- The lines of the log change nothing here.
pub mod Rules
pub mod Windows
mod Results
mod Steps
unfoldable pub use Results.*
unfoldable pub use Steps.*
use dynamic_annotation_contr.Base.{
  ℕ, ◌*◌, ◌^◌, Bool, true, false, not, ◌&&◌, ◌||◌, Option, none, some, List, [], ◌∷◌, ◌++◌,
  if◌then◌else◌, ltb, is_empty, Bytes, codes, str_eq,
}
use dynamic_annotation_contr.Api.{
  Time, Rule, RuleStatus, ConditionStatus, condition_true, condition_false,
}
use dynamic_annotation_contr.Client.{ok, err}
use dynamic_annotation_contr.RuleChecks.{RuleError, validate_rule}
use dynamic_annotation_contr.Audit.{log_rule_deletion}
use dynamic_annotation_contr.Schedule.{minute}
use dynamic_annotation_contr.Scheduler.{
  SchedulerError, schedule_rule, unschedule_rule, get_next_execution_time, get_rule_id,
}
use dynamic_annotation_contr.Status.{set_condition, update_rule_status}
use dynamic_annotation_contr.Errors.{ErrorTests, RetryConfig, should_retry}
use dynamic_annotation_contr.Manager.Legacy.{keys_of}
use dynamic_annotation_contr.Manager.Annotations.{WriteError, remove_annotations}
use dynamic_annotation_contr.Controller.{
  Auditing, direct, Environment, Settings, State, Failure, attempt,
}

module _ {W E S L C F : Type 0} (env : Environment W E S L C F) (settings : Settings)
    (tests : ReconcileTests E) (backoff : ℕ) where
  open env use {cron, namespaced_name, rules, finalizers, now}

  cleanup_rule_annotations : Rule → State W L → Option (WriteError F) × State W L
  cleanup_rule_annotations rule s =
      let keys = keys_of rule.spec.annotations in
      let (failure, services, world) =
        remove_annotations env.client env.texts env.bucket env.ctx env.auditing rule.spec.selector
          keys rule.spec.target_resources rule.namespace (get_rule_id namespaced_name rule)
          (env.write_times s.world) s.services s.world in
      if is_empty keys
      then (none, s)
      else (failure, record s { services = services; world = world })

  unfoldable pub audit_deletion : Rule → W → W
  audit_deletion rule w =
      if settings.has_audit_logger
      then log_rule_deletion env.auditing.sink (audit_info namespaced_name rule)
          rule.spec.annotations w
      else w

  pub handle_deletion : Rule → State W L → ReconcileResult × Option (ReconcileError E F) × State W L
  handle_deletion rule s =
      let s₁ : State W L = record s {
        world = audit_deletion rule s.world;
        scheduler = unschedule_rule (get_rule_id namespaced_name rule) s.scheduler;
      } in
      let (cleanup, s₂) = cleanup_rule_annotations rule s₁ in
      let (failure, w) = rules.update_rule (finalizers.remove_finalizer rule) s₂.world in
      if finalizers.contains_finalizer rule
      then elim cleanup [
        | some e ↦ (requeue_in minute, some (cleanup_failure e), s₂)
        | none ↦ (
          no_requeue,
          elim failure [ none ↦ none | some e ↦ some (api_failure (direct e)) ],
          record s₂ { world = w },
        )
      ]
      else (no_requeue, none, s)

  -- What doReconcile does with a rule that is valid.
  unfoldable pub reconcile_valid_rule :
      Rule → State W L → ReconcileResult × Option (ReconcileError E F) × State W L
  reconcile_valid_rule rule s =
      let (scheduled, schedule_result, schedule_error, s₁) =
        schedule_rule_with_error_handling env settings tests backoff rule s in
      let (timed, next_result, next_error) =
        process_next_execution_time env settings tests backoff scheduled s₁ in
      let (active, world) = update_rule_active_status env settings tests backoff timed s₁.world in
      let (status_result, status_error, s₂) =
        update_rule_status_with_error_handling env settings tests backoff active
          (record s₁ { world = world }) in
      elim schedule_error [
        | some e ↦ (schedule_result, some e, s₁)
        | none ↦ elim next_error [
          | some e ↦ (next_result, some e, s₁)
          | none ↦ elim status_error [
            | some e ↦ (status_result, some e, s₂)
            | none ↦ (requeue_in (10 * minute), none, s₂)
          ]
        ]
      ]

  reconcile_rule : Rule → State W L → ReconcileResult × Option (ReconcileError E F) × State W L
  reconcile_rule rule s =
      let (kept, finalizer_result, finalizer_error, s₁) =
        ensure_finalizer env settings tests backoff rule s in
      let (validated, invalid, s₂) =
        validate_and_update_rule_on_failure env settings tests backoff kept s₁ in
      let rest = reconcile_valid_rule validated s₂ in
      elim finalizer_error [
        | some e ↦ (finalizer_result, some e, s₁)
        | none ↦
            if ltb 0 finalizer_result.requeue_after || finalizer_result.requeue
            then (finalizer_result, none, s₁)
            else elim invalid [ some e ↦ (no_requeue, none, s₂) | none ↦ rest ]
      ]

  -- The state is that at the end or at the panic.
  do_reconcile :
      Bytes
      → Bytes
      → State W L
      → Outcome (ReconcileResult × Option (ReconcileError E F)) × State W L
  do_reconcile namespace name s =
      let (fetched, fetch_result, fetch_error, s₁) =
        fetch_rule env settings tests backoff namespace name s in
      elim fetch_error [
        | some e ↦ (returned (fetch_result, some e), s₁)
        | none ↦ elim fetched [
          | none ↦ (panicked, s₁)
          | some rule ↦
              let (deleted_result, deleted_error, s₂) = handle_deletion rule s₁ in
              let (result, error, s₃) = reconcile_rule rule s₁ in
              elim rule.deletion_timestamp [
                | some t ↦ (returned (deleted_result, deleted_error), s₂)
                | none ↦ (returned (result, error), s₃)
              ]
        ]
      ]

  pub safe_reconcile :
      Bytes → Bytes → State W L → (ReconcileResult × Option (ReconcileError E F)) × State W L
  safe_reconcile namespace name s =
      let (outcome, s') = do_reconcile namespace name s in
      (
        elim outcome [
          | returned result ↦ result
          | panicked ↦ (requeue_in (5 * minute), some panic_failure)
        ],
        s',
      )

  unfoldable reconcile :
      Bytes
      → Bytes
      → State W L
      → Outcome (ReconcileResult × Option (ReconcileError E F)) × State W L
  reconcile namespace name s =
      let (safe, s') = safe_reconcile namespace name s in
      if settings.has_recovery_manager then (returned safe, s') else do_reconcile namespace name s
