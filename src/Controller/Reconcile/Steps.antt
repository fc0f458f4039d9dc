-- ===== src/Controller/Reconcile/Steps.antt =====
-- The steps of a reconcile, one function each: fetching the rule, its finalizer, its validation, its
-- scheduling, the next execution and the status.
use dynamic_annotation_contr.Base.{
  ◌&&◌, ℕ, ◌*◌, true, ◌||◌, Option, none, some, ◌++◌, if◌then◌else◌, ltb, is_empty, Bytes, codes,
  str_eq,
}
use dynamic_annotation_contr.Api.{Rule, condition_true, condition_false}
use dynamic_annotation_contr.Client.{ok, err}
use dynamic_annotation_contr.RuleChecks.{RuleError, security_failed, validate_rule}
use dynamic_annotation_contr.Audit.{log_rule_creation, log_validation_failure}
use dynamic_annotation_contr.Schedule.{minute}
use dynamic_annotation_contr.Scheduler.{
  SchedulerError, schedule_rule, unschedule_rule, get_next_execution_time, get_rule_id,
}
use dynamic_annotation_contr.Controller.{Environment, Settings, State, attempt}
use dynamic_annotation_contr.Controller.Reconcile.Results.{
  ReconcileResult, ReconcileError, ReconcileTests, no_requeue, requeue_in, set_rule_condition,
  set_rule_phase, delay_for, audit_info, api_failure, schedule_failure, next_failure,
}

module _ {W E S L C F : Type 0} (env : Environment W E S L C F) (settings : Settings)
    (tests : ReconcileTests E) (backoff : ℕ) where
  open env use {cron, namespaced_name, rules, finalizers, now, auditing}
  open settings use {error_handler, has_audit_logger}

  -- validateLegacyAnnotations audits the annotations that the security validator rejects.
  unfoldable pub audit_validation : Rule → Option RuleError → W → W
  audit_validation rule (some (security_failed e)) w =
      if has_audit_logger
      then log_validation_failure auditing.sink (audit_info namespaced_name rule)
          rule.spec.annotations (auditing.rejection_text e) w
      else w
  audit_validation rule error w = w

  -- one attempt of a call that changes the cluster alone
  unfoldable pub on_world : (W → Option E × W) → State W L → Option E × (Unit {0} × State W L)
  on_world call s = let (failure, w) = call s.world in (failure, (tt, record s { world = w }))

  unfoldable pub get_into : Bytes → Bytes → State W L → Option E × (Option Rule × State W L)
  get_into namespace name s =
      let (fetched, w) = rules.get_rule namespace name s.world in
      let s' : State W L = record s { world = w } in
      elim fetched [ ok rule ↦ (none, (some rule, s')) | err e ↦ (some e, (none, s')) ]

  -- The rule, none for nil, with the result and the error.
  unfoldable pub fetch_rule :
      Bytes
      → Bytes
      → State W L
      → Option Rule × ReconcileResult × Option (ReconcileError E F) × State W L
  fetch_rule namespace name s =
      let (failure, (rule, s₁)) =
        attempt env tests.on_api error_handler (get_into namespace name) none s in
      elim failure [
        | none ↦ (rule, no_requeue, none, s₁)
        | some e ↦
            if tests.on_failure.is_not_found e
            then (
              none,
              no_requeue,
              none,
              record s₁ {
                scheduler = unschedule_rule (namespaced_name namespace name) s₁.scheduler;
              },
            )
            else if delay_for tests.on_failure error_handler e
            then (none, requeue_in backoff, none, s₁)
            else (none, no_requeue, some (api_failure e), s₁)
      ]

  -- The rule, the result, the error, and the state.
  unfoldable pub ensure_finalizer :
      Rule → State W L → Rule × ReconcileResult × Option (ReconcileError E F) × State W L
  ensure_finalizer rule s =
      let added = finalizers.add_finalizer rule in
      let (failure, (nothing, s₁)) =
        attempt env tests.on_api error_handler (on_world (rules.update_rule added)) tt s in
      if finalizers.contains_finalizer rule then (rule, no_requeue, none, s) else elim failure [
        | none ↦ (added, record { requeue = true; requeue_after = 0 }, none, s₁)
        | some e ↦
            if delay_for tests.on_failure error_handler e
            then (added, requeue_in backoff, none, s₁)
            else (added, no_requeue, some (api_failure e), s₁)
      ]

  -- The rule with its conditions, the error, and the state.
  unfoldable pub validate_and_update_rule_on_failure :
      Rule → State W L → Rule × Option RuleError × State W L
  validate_and_update_rule_on_failure rule s =
      let invalid = validate_rule settings.policies settings.security_validator rule in
      let world = audit_validation rule invalid s.world in
      let t = now world in
      elim invalid [
        | some e ↦
            let text = codes "Validation failed: " ++ tests.rule_text e in
            let failed = set_rule_phase (codes "failed") text t (
              set_rule_condition (codes "Error") condition_true (codes "ValidationFailed")
                (tests.rule_text e) t
                (set_rule_condition (codes "Validated") condition_false (codes "ValidationFailed")
                  text t rule)) in
            let (failure, w) = rules.update_status failed world in
            (failed, some e, record s { world = w })
        | none ↦ (
          set_rule_condition (codes "Error") condition_false (codes "ValidationSucceeded")
              (codes "No validation errors") t
              (set_rule_condition (codes "Validated") condition_true (codes "ValidationSucceeded")
                (codes "Rule validation passed") t rule),
          none,
          s,
        )
      ]

  -- one attempt to schedule
  unfoldable pub schedule_once : Rule → State W L → Option SchedulerError × (Unit {0} × State W L)
  schedule_once rule s =
      let (failure, scheduler) =
        schedule_rule cron namespaced_name rule (now s.world) s.scheduler in
      (failure, (tt, record s { scheduler = scheduler }))

  unfoldable pub schedule_rule_with_error_handling :
      Rule → State W L → Rule × ReconcileResult × Option (ReconcileError E F) × State W L
  schedule_rule_with_error_handling rule s =
      let (failure, (nothing, s₁)) =
        attempt env tests.on_schedule error_handler (schedule_once rule) tt s in
      let t = now s₁.world in
      elim failure [
        | none ↦ (
          set_rule_condition (codes "Error") condition_false (codes "SchedulingSucceeded")
              (codes "No scheduling errors") t
              (set_rule_condition (codes "Scheduled") condition_true (codes "SchedulingSucceeded")
                (codes "Rule successfully scheduled") t rule),
          no_requeue,
          none,
          s₁,
        )
        | some e ↦
            let text = tests.on_schedule_failure.message e in
            let failed = set_rule_phase (codes "failed") (codes "Scheduling failed: " ++ text) t (
              set_rule_condition (codes "Error") condition_true (codes "SchedulingFailed")
                (codes "Scheduling failed: " ++ text) t
                (set_rule_condition (codes "Scheduled") condition_false (codes "SchedulingFailed")
                  text t rule)) in
            let (status_failure, (nothing, s₂)) =
              attempt env tests.on_api error_handler (on_world (rules.update_status failed)) tt
                s₁ in
            let delay =
              if delay_for tests.on_schedule_failure error_handler e
              then (if ltb backoff minute then minute else backoff)
              else 5 * minute in
            (failed, requeue_in delay, some (schedule_failure e), s₂)
      ]

  -- GetNextExecutionTime returns a time or an error, so what follows in the code is not reached.
  unfoldable pub process_next_execution_time :
      Rule → State W L → Rule × ReconcileResult × Option (ReconcileError E F)
  process_next_execution_time rule s =
      elim (get_next_execution_time (get_rule_id namespaced_name rule) s.scheduler) [
        | err e ↦ (
          set_rule_condition (codes "Error") condition_true (codes "NextExecutionError")
              (codes "Failed to get next execution time: " ++ tests.on_schedule.message e)
              (now s.world) rule,
          no_requeue,
          some (next_failure e),
        )
        | ok next ↦ (
          record rule { status = record rule.status { next_execution_time = some next } },
          no_requeue,
          none,
        )
      ]

  -- The rule, and the world: the audit event of a creation is written if the phase is empty after
  -- the update of it.
  unfoldable pub update_rule_active_status : Rule → W → Rule × W
  update_rule_active_status rule w =
      let is_new = is_empty rule.status.phase || str_eq rule.status.phase (codes "pending") in
      let active =
        if is_new
        then set_rule_phase (codes "active") (codes "Rule is active and scheduled") (now w) rule
        else rule in
      (
        set_rule_condition (codes "Ready") condition_true (codes "RuleReady")
            (codes "Rule is ready and scheduled") (now w) active,
        if is_new && has_audit_logger && is_empty active.status.phase
            then log_rule_creation auditing.sink (audit_info namespaced_name active)
                active.spec.annotations w
            else w,
      )

  unfoldable pub update_rule_status_with_error_handling :
      Rule → State W L → ReconcileResult × Option (ReconcileError E F) × State W L
  update_rule_status_with_error_handling rule s =
      let (failure, (nothing, s₁)) =
        attempt env tests.on_api error_handler (on_world (rules.update_status rule)) tt s in
      elim failure [
        | none ↦ (no_requeue, none, s₁)
        | some e ↦
            if delay_for tests.on_failure error_handler e
            then (requeue_in backoff, none, s₁)
            else (no_requeue, some (api_failure e), s₁)
      ]
