-- ===== src/Controller/Reconcile/Windows.antt =====
-- What a reconcile does with a stored rule of which nothing is due any more.
use dynamic_annotation_contr.Base.{true, arith, ℕ, ◌≡◌, refl, none, some, Option, Bytes, lookup}
use dynamic_annotation_contr.Client.{ok}
use dynamic_annotation_contr.RuleChecks.{validate_rule}
use dynamic_annotation_contr.Controller.Retries.{attempt-first}
use dynamic_annotation_contr.Api.{Time, Rule, RuleStatus}
use dynamic_annotation_contr.Schedule.{calculate_next_execution}
use dynamic_annotation_contr.Scheduler.{get_rule_id, rule_not_found}
use dynamic_annotation_contr.Status.{ErrorTexts, record_execution}
use dynamic_annotation_contr.Controller.{attempt, Environment, Settings, State}
use dynamic_annotation_contr.Controller.Reconcile.{
  get_into, fetch_rule, ensure_finalizer, validate_and_update_rule_on_failure, audit_validation,
  set_rule_condition, reconcile_rule, do_reconcile, safe_reconcile, ReconcileTests, next_failure,
}
use dynamic_annotation_contr.Controller.Reconcile.Rules.{finished_rule_not_found}

pub recorded_at :
    (failure : Option ErrorTexts) (message : Bytes) (affected : ℕ) (at now later : Time)
    (status : RuleStatus)
    → (record_execution failure message affected at now later status).last_execution_time ≡ some at
unfolding record_execution
recorded_at none message affected at now later status = refl
recorded_at (some e) message affected at now later status = refl

module _ {W E S L C F : Type 0} (env : Environment W E S L C F) (settings : Settings)
    (tests : ReconcileTests E) (backoff : ℕ) where
  fetch_rule-stored :
      (rule : Rule) (namespace name : Bytes) (s : State W L)
      → env.rules.get_rule namespace name s.world ≡ (ok rule, s.world)
      → attempt env tests.on_api settings.error_handler
          (get_into env settings tests backoff namespace name)
          none
          s
        ≡ (none, (some rule, s))
  unfolding get_into
  fetch_rule-stored rule namespace name s h = ground (
    arith,
    attempt-first env tests.on_api (get_into env settings tests backoff namespace name)
        settings.error_handler none s,
  )

  -- The rule with the conditions of a validation without errors.
  abbrev validated : Rule → State W L → Rule
  validated rule s = (validate_and_update_rule_on_failure env settings tests backoff rule s).0

  -- A reconcile of a stored rule that is valid, is not being deleted, has the finalizer, and of
  -- which nothing is due any more.
  pub safe_reconcile_finished :
      (rule : Rule) (namespace name : Bytes) (s : State W L)
      → env.rules.get_rule namespace name s.world ≡ (ok rule, s.world)
      → rule.deletion_timestamp ≡ none
      → env.finalizers.contains_finalizer rule ≡ true
      → validate_rule settings.policies settings.security_validator rule ≡ none
      → calculate_next_execution env.cron rule.spec.schedule rule.status.last_execution_time
          (env.now s.world)
        ≡ ok none
      → let ((result, error), s') = safe_reconcile env settings tests backoff namespace name s in
        (error ≡ some (next_failure (rule_not_found (get_rule_id env.namespaced_name rule))))
        × (lookup (get_rule_id env.namespaced_name rule) s'.scheduler.tasks ≡ none)
        × (s'.world ≡ s.world)
  unfolding safe_reconcile do_reconcile fetch_rule reconcile_rule ensure_finalizer
      validate_and_update_rule_on_failure audit_validation set_rule_condition get_rule_id
  safe_reconcile_finished rule namespace name s hg hd hf hv hn = ground (
    arith,
    fetch_rule-stored rule namespace name s hg,
    finished_rule_not_found env settings tests backoff (validated rule s) s,
  )
