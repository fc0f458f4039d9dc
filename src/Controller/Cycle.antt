-- ===== src/Controller/Cycle.antt =====
-- The executor and the reconciler one after the other: the execution of a task, the record of it in
-- the status of its rule, and the reconcile that follows.
use dynamic_annotation_contr.Base.{
  ap, ◌*◌, ◌/◌, ◌^◌, ◌∙◌, subst, sym, ℕ, ◌≡◌, ◌≢◌, none, some, true, Option, codes, lookup,
}
use dynamic_annotation_contr.Api.{Time, Rule, RuleStatus}
use dynamic_annotation_contr.Client.{ok}
use dynamic_annotation_contr.RuleChecks.{validate_rule}
use dynamic_annotation_contr.RuleChecks.Accepted.{validate_rule-status}
use dynamic_annotation_contr.Schedule.{validate_schedule, calculate_next_execution}
use dynamic_annotation_contr.Schedule.Execution.{late_start_never_ends}
use dynamic_annotation_contr.Scheduler.{ScheduledTask, get_rule_id, rule_not_found}
use dynamic_annotation_contr.Controller.{Environment, Settings, State}
use dynamic_annotation_contr.Controller.Actions.{TaskTests}
use dynamic_annotation_contr.Controller.Executor.{rule_of_task, execute_task}
use dynamic_annotation_contr.Controller.Executor.Recorded.{
  attempted, executed_status, execute_task_recorded,
}
use dynamic_annotation_contr.Controller.Reconcile.{ReconcileTests, safe_reconcile, next_failure}
use dynamic_annotation_contr.Controller.Reconcile.Windows.{recorded_at, safe_reconcile_finished}

-- metav1.Time is written with whole seconds.
abbrev pub whole_seconds : Time → Time
whole_seconds t = t / 10 ^ 9 * 10 ^ 9

abbrev pub stored_time : Option Time → Option Time
stored_time none = none
stored_time (some t) = some (whole_seconds t)

-- The finalizers of a rule are no part of its status.
abbrev IgnoresStatus : {W E S L C F : Type 0} → Environment W E S L C F → Type 0
IgnoresStatus env =
    (r : Rule) (status : RuleStatus)
    → env.finalizers.contains_finalizer (record r { status = status })
      ≡ env.finalizers.contains_finalizer r

module _ {W E S L C F : Type 0} (env : Environment W E S L C F) (settings : Settings)
    (tests : TaskTests E F) (reconcile_tests : ReconcileTests E) (backoff : ℕ) where
  -- A task of a valid rule with a schedule by times is executed, in another second than that of the
  -- start, whether the execution succeeds or not. If the record of it reaches the status at the
  -- first attempt, and the next reconcile reads the rule with that execution in its status, in whole
  -- seconds as the API stores a time, then that reconcile takes the task out of the table and ends
  -- with an error: no task is left for the end of the schedule.
  pub executed_then_reconciled :
      (task : ScheduledTask) (rule : Rule) (s : State W L) (start : Time) (w w' : W)
      (read : RuleStatus)
      → IgnoresStatus env
      → rule_of_task task ≡ some (rule.namespace, rule.name)
      → env.rules.get_rule rule.namespace rule.name (attempted env settings tests task s).1.1.world
        ≡ (ok rule, w)
      → env.rules.update_status
          (record rule { status = executed_status env settings tests task s rule w })
          w
        ≡ (none, w')
      → env.rules.get_rule rule.namespace rule.name w' ≡ (ok (record rule { status = read }), w')
      → read.last_execution_time
        ≡ stored_time (executed_status env settings tests task s rule w).last_execution_time
      → rule.deletion_timestamp ≡ none
      → env.finalizers.contains_finalizer rule ≡ true
      → validate_rule settings.policies settings.security_validator rule ≡ none
      → rule.spec.schedule.type ≡ codes "datetime"
      → validate_schedule env.cron rule.spec.schedule ≡ none
      → rule.spec.schedule.start_time ≡ some start
      → whole_seconds (env.now s.world) ≢ start
      → let (failure, executed) = execute_task env settings tests task s in
        let ((result, error), s') =
          safe_reconcile env settings reconcile_tests backoff rule.namespace rule.name executed in
        (error ≡ some (next_failure (rule_not_found (get_rule_id env.namespaced_name rule))))
        × (lookup (get_rule_id env.namespaced_name rule) s'.scheduler.tasks ≡ none)
        × (s'.world ≡ w')
  unfolding get_rule_id
  executed_then_reconciled task rule s start w w' read ignores ht hg hu hr hl hd hf hv hk hs hb hn =
      (finished.0, finished.1, finished.2 ∙ reached)
    where
      recorded : Rule
      recorded = record rule { status = read }

      after : State W L
      after = (execute_task env settings tests task s).1

      reached : after.world ≡ w'
      reached =
          execute_task_recorded env settings tests task s rule.namespace rule.name rule w w' ht hg
            hu

      finished :
          let ((result, error), s') =
            safe_reconcile env settings reconcile_tests backoff rule.namespace rule.name after in
          (error ≡ some (next_failure (rule_not_found (get_rule_id env.namespaced_name recorded))))
          × (lookup (get_rule_id env.namespaced_name recorded) s'.scheduler.tasks ≡ none)
          × (s'.world ≡ after.world)
      finished =
          safe_reconcile_finished env settings reconcile_tests backoff recorded rule.namespace
            rule.name after
            (subst (λ (v : W). env.rules.get_rule rule.namespace rule.name v ≡ (ok recorded, v))
              (sym reached) hr)
            hd (ignores rule read ∙ hf)
            (validate_rule-status settings.policies settings.security_validator rule read ∙ hv)
            (subst
              (λ (last : Option Time).
                calculate_next_execution env.cron rule.spec.schedule last (env.now after.world)
                ≡ ok none)
              (sym (hl ∙ ap stored_time (recorded_at _ _ _ (env.now s.world) _ _ rule.status)))
              (late_start_never_ends env.cron rule.spec.schedule start
                (whole_seconds (env.now s.world)) (env.now after.world) hk hs hb hn))
