-- ===== src/Controller/Reconcile/Results.antt =====
-- What the steps of a reconcile return, and what they do to the status of a rule.
use dynamic_annotation_contr.Base.{ℕ, Bool, false, Option, none, some, Bytes}
use dynamic_annotation_contr.Api.{Time, Rule, ConditionStatus}
use dynamic_annotation_contr.RuleChecks.{RuleError}
use dynamic_annotation_contr.Audit.{RuleInfo}
use dynamic_annotation_contr.Scheduler.{NamespacedName, SchedulerError, get_rule_id}
use dynamic_annotation_contr.Status.{set_condition, update_rule_status}
use dynamic_annotation_contr.Errors.{ErrorTests, RetryConfig, should_retry}
use dynamic_annotation_contr.Manager.Annotations.{WriteError}
use dynamic_annotation_contr.Controller.{Failure}

-- ctrl.Result
pub record ReconcileResult : Type 0 where
  pub requeue : Bool
  pub requeue_after : ℕ

abbrev pub no_requeue : ReconcileResult
no_requeue = record { requeue = false; requeue_after = 0 }

abbrev pub requeue_in : ℕ → ReconcileResult
requeue_in delay = record { requeue = false; requeue_after = delay }

pub data ReconcileError (E F : Type 0) : Type 0 where
  api_failure : Failure E → ReconcileError E F
  schedule_failure : Failure SchedulerError → ReconcileError E F
  next_failure : SchedulerError → ReconcileError E F
  cleanup_failure : WriteError F → ReconcileError E F
  panic_failure : ReconcileError E F

-- What the code asks of the errors that it meets, and the texts that it makes of them.
pub record ReconcileTests (E : Type 0) : Type 0 where
  pub on_api : ErrorTests E
  pub on_failure : ErrorTests (Failure E)
  pub on_schedule : ErrorTests SchedulerError
  pub on_schedule_failure : ErrorTests (Failure SchedulerError)
  pub rule_text : RuleError → Bytes

pub data Outcome (A : Type 0) : Type 0 where
  returned : A → Outcome A
  panicked : Outcome A

-- r.setCondition
unfoldable pub set_rule_condition : Bytes → ConditionStatus → Bytes → Bytes → Time → Rule → Rule
set_rule_condition type status reason message now rule = record rule {
  status = record rule.status {
    conditions =
        set_condition
          (record {
            type = type;
            status = status;
            reason = reason;
            message = message;
            last_transition_time = now;
          })
          rule.status.conditions;
  };
}

-- r.updateRuleStatus
unfoldable pub set_rule_phase : Bytes → Bytes → Time → Rule → Rule
set_rule_phase phase message now rule = record rule {
  status = update_rule_status phase message now rule.status;
}

-- the delay for an error that the handler would retry
unfoldable pub delay_for : {X : Type 0} → ErrorTests X → Option RetryConfig → X → Bool
delay_for tests handler e = elim handler [
  | none ↦ false
  | some config ↦ should_retry tests config e 0
]

-- what the auditor is told of a rule
abbrev pub audit_info : NamespacedName → Rule → RuleInfo
audit_info namespaced_name rule = record {
  rule_id = get_rule_id namespaced_name rule;
  rule_name = rule.name;
  rule_namespace = rule.namespace;
}
