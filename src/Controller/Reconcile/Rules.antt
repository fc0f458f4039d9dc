-- ===== src/Controller/Reconcile/Rules.antt =====
-- What a reconcile does with a rule that is missing, invalid, deleted or complete.
use dynamic_annotation_contr.Base.{
  sym, subst, inr, inl, ℕ, ◌*◌, ◌≡◌, ◌≢◌, ◌⊎◌, refl, true, ◌||◌, Option, none, some, arith,
  is_empty, Bytes, str_eq_self, lookup, lookup-delete,
}
use dynamic_annotation_contr.Api.{Time, Rule}
use dynamic_annotation_contr.Client.{ok}
use dynamic_annotation_contr.RuleChecks.{RuleError, validate_rule}
use dynamic_annotation_contr.Schedule.{minute, calculate_next_execution, get_execution_action}
use dynamic_annotation_contr.Scheduler.{
  SchedulerState, SchedulerError, task_of, schedule_rule, unschedule_rule, get_next_execution_time,
  get_rule_id, rule_not_found,
}
use dynamic_annotation_contr.Scheduler.Rules.{schedule_rule_lem}
use dynamic_annotation_contr.Manager.Legacy.{keys_of}
use dynamic_annotation_contr.Status.{update_rule_status}
use dynamic_annotation_contr.Controller.{Environment, Settings, State, Failure, attempt}
use dynamic_annotation_contr.Controller.Retries.{attempt-first, attempt-keeps, attempt-ends}
use dynamic_annotation_contr.Controller.Reconcile.{
  ReconcileTests, no_requeue, requeue_in, panic_failure, next_failure, delay_for,
  set_rule_condition, audit_deletion, on_world, get_into, fetch_rule, ensure_finalizer,
  validate_and_update_rule_on_failure, schedule_once, schedule_rule_with_error_handling,
  process_next_execution_time, update_rule_active_status, set_rule_phase,
  update_rule_status_with_error_handling, cleanup_rule_annotations, handle_deletion,
  reconcile_valid_rule, reconcile_rule, do_reconcile, safe_reconcile,
}

module _ {W E S L C F : Type 0} (env : Environment W E S L C F) (settings : Settings)
    (tests : ReconcileTests E) (backoff : ℕ) where
  -- A rule that is not found, or that cannot be fetched for an error that the handler would retry,
  -- makes the reconcile panic: it is recovered, and reported as an error.
  missing_rule_panics :
      (namespace name : Bytes) (s : State W L) (e : Failure E)
      → (attempt env tests.on_api settings.error_handler
          (get_into env settings tests backoff namespace name)
          none
          s).0
        ≡ some e
      → (tests.on_failure.is_not_found e || delay_for tests.on_failure settings.error_handler e)
        ≡ true
      → (safe_reconcile env settings tests backoff namespace name s).0
        ≡ (requeue_in (5 * minute), some panic_failure)
  unfolding safe_reconcile do_reconcile fetch_rule
  missing_rule_panics namespace name s e h he = ground arith

  -- A rule with the finalizer but without legacy annotations: when its deletion is handled it loses
  -- its task, and all that changes in the cluster, once the deletion is audited, is the update that
  -- takes the finalizer off, whatever its annotation groups have written.
  pub handle_deletion_lem :
      (rule : Rule) (s : State W L)
      → env.finalizers.contains_finalizer rule ≡ true
      → is_empty (keys_of rule.spec.annotations) ≡ true
      → let (result, error, s') = handle_deletion env settings tests backoff rule s in
        (lookup (get_rule_id env.namespaced_name rule) s'.scheduler.tasks ≡ none)
        × (s'.world
            ≡ (env.rules.update_rule
                (env.finalizers.remove_finalizer rule)
                (audit_deletion env settings tests backoff rule s.world)).1)
  unfolding handle_deletion cleanup_rule_annotations unschedule_rule
  handle_deletion_lem rule s h hk = ground (
    arith,
    str_eq_self (get_rule_id env.namespaced_name rule),
    lookup-delete (get_rule_id env.namespaced_name rule) (get_rule_id env.namespaced_name rule)
        s.scheduler.tasks,
  )

  -- A reconcile never audits the creation of a rule: when the code asks whether the phase is empty,
  -- it has just been set.
  creation_never_audited :
      (rule : Rule) (w : W) → (update_rule_active_status env settings tests backoff rule w).1 ≡ w
  unfolding update_rule_active_status set_rule_phase update_rule_status
  creation_never_audited rule w = ground arith

  -- A rule that is not valid is not scheduled, and not tried again: the table of tasks is as it
  -- was, and nothing is requeued.
  invalid_rule_not_scheduled :
      (rule : Rule) (s : State W L) (e : RuleError)
      → env.finalizers.contains_finalizer rule ≡ true
      → validate_rule settings.policies settings.security_validator rule ≡ some e
      → let (result, error, s') = reconcile_rule env settings tests backoff rule s in
        (result ≡ no_requeue) × (error ≡ none) × (s'.scheduler ≡ s.scheduler)
  unfolding reconcile_rule ensure_finalizer validate_and_update_rule_on_failure
  invalid_rule_not_scheduled rule s e h hv = ground arith

  -- the table of tasks is this one
  abbrev Scheduler : SchedulerState → State W L → Type 0
  Scheduler scheduler s = s.scheduler ≡ scheduler

  update_status-Scheduler :
      (rule : Rule) (s : State W L)
      → (update_rule_status_with_error_handling env settings tests backoff rule s).2.scheduler
        ≡ s.scheduler
  unfolding update_rule_status_with_error_handling on_world
  update_status-Scheduler rule s = ground (
    arith,
    attempt-keeps env tests.on_api
        (on_world env settings tests backoff (env.rules.update_status rule)) (Scheduler s.scheduler)
        (λ t h. h) (λ t w h. h) settings.error_handler tt s refl,
  )

  -- The task of the rule, with the time and the action that are due for it at `now`.
  abbrev pub HasTask : Rule → Time → SchedulerState → Type 0
  HasTask rule now scheduler =
      (at : Time) × (action : Bytes) × (calculate_next_execution env.cron rule.spec.schedule
          rule.status.last_execution_time now
        ≡ ok (some at))
      × (get_execution_action rule.spec.schedule rule.status.last_execution_time ≡ ok action)
      × (lookup (get_rule_id env.namespaced_name rule) scheduler.tasks
          ≡ some (task_of (get_rule_id env.namespaced_name rule) rule action at))

  -- The rule has its task, or none.
  abbrev Settled : Rule → State W L → Type 0
  Settled rule s =
      (lookup (get_rule_id env.namespaced_name rule) s.scheduler.tasks ≡ none)
      ⊎ HasTask rule (env.now s.world) s.scheduler

  schedule_once-Settled :
      (rule : Rule) (s : State W L)
      → (schedule_once env settings tests backoff rule s).0 ≡ none
      → Settled rule (schedule_once env settings tests backoff rule s).1.1
  unfolding schedule_once
  schedule_once-Settled rule s h =
      grind
        (arith, schedule_rule_lem env.cron env.namespaced_name rule (env.now s.world) s.scheduler)

  -- what the retries of ScheduleRule come to
  abbrev pub attempted : Rule → State W L → Option (Failure SchedulerError) × (Unit {0} × State W L)
  attempted rule s =
      attempt env tests.on_schedule settings.error_handler
        (schedule_once env settings tests backoff rule) tt s

  attempted-Settled :
      (rule : Rule) (s : State W L)
      → (attempted rule s).0 ≡ none
      → Settled rule (attempted rule s).1.1
  attempted-Settled rule s =
      attempt-ends env tests.on_schedule (schedule_once env settings tests backoff rule)
        (λ t. Unit {0}) (λ t h. tt) (λ t w h. tt) (λ p. Settled rule p.1)
        (λ t h. schedule_once-Settled rule t) settings.error_handler tt s tt

  -- A reconcile without an error, seen from what scheduling came to.
  reconciled :
      (rule : Rule) (s : State W L)
      → (reconcile_valid_rule env settings tests backoff rule s).1 ≡ none
      → ((attempted rule s).0 ≡ none)
        × (lookup (get_rule_id env.namespaced_name rule) (attempted rule s).1.1.scheduler.tasks
            ≢ none)
        × ((reconcile_valid_rule env settings tests backoff rule s).2.scheduler
            ≡ (attempted rule s).1.1.scheduler)
  unfolding reconcile_valid_rule process_next_execution_time get_next_execution_time
      schedule_rule_with_error_handling set_rule_condition get_rule_id
  reconciled rule s h = grind (arith, λ (r : Rule) (t : State W L). update_status-Scheduler r t)

  -- A reconcile of a valid rule that ends without an error has scheduled it: the table has its task,
  -- and that has the time and the action that are due for the rule, as the clock stood when the rule
  -- was scheduled.
  pub reconcile_valid_rule_scheduled :
      (rule : Rule) (s : State W L)
      → (reconcile_valid_rule env settings tests backoff rule s).1 ≡ none
      → HasTask rule
          (env.now (attempted rule s).1.1.world)
          (reconcile_valid_rule env settings tests backoff rule s).2.scheduler
  reconcile_valid_rule_scheduled rule s h =
      elim (attempted-Settled rule s (reconciled rule s h).0) [
        | inl e ↦ absurd ((reconciled rule s h).1 e)
        | inr task ↦
            subst (HasTask rule (env.now (attempted rule s).1.1.world))
              (sym (reconciled rule s h).2) task
      ]

  -- A rule of which nothing is due any more is not marked as completed: it loses its task, and each
  -- reconcile ends with an error, since its task is not found.
  pub finished_rule_not_found :
      (rule : Rule) (s : State W L)
      → calculate_next_execution env.cron rule.spec.schedule rule.status.last_execution_time
          (env.now s.world)
        ≡ ok none
      → let (result, error, s') = reconcile_valid_rule env settings tests backoff rule s in
        (error ≡ some (next_failure (rule_not_found (get_rule_id env.namespaced_name rule))))
        × (lookup (get_rule_id env.namespaced_name rule) s'.scheduler.tasks ≡ none)
        × (s'.world ≡ s.world)
  unfolding reconcile_valid_rule process_next_execution_time get_next_execution_time
      schedule_rule_with_error_handling set_rule_condition get_rule_id schedule_once schedule_rule
      calculate_next_execution
  finished_rule_not_found rule s h = ground (
    arith,
    str_eq_self (get_rule_id env.namespaced_name rule),
    lookup-delete (get_rule_id env.namespaced_name rule) (get_rule_id env.namespaced_name rule)
        s.scheduler.tasks,
    attempt-first env tests.on_schedule (schedule_once env settings tests backoff rule)
        settings.error_handler tt s,
  )
