-- ===== src/Status.antt =====
-- internal/controller/annotationschedulerule_controller.go: what the controller records in the
-- status of a rule. The clock's reading is an argument; the conditions are a list as in the status.
pub mod Laws
use dynamic_annotation_contr.Base.{
  ℕ, ◌+◌, ◌≡◌, Bool, true, false, not, ◌&&◌, Option, none, some, List, [], ◌∷◌, ◌++◌, if◌then◌else◌,
  Bytes, codes, str_eq,
}
use dynamic_annotation_contr.Api.{
  Time, Condition, ConditionStatus, condition_true, condition_false, condition_unknown, RuleStatus,
}

abbrev same_status : ConditionStatus → ConditionStatus → Bool
same_status condition_true condition_true = true
same_status condition_false condition_false = true
same_status condition_unknown condition_unknown = true
same_status _ _ = false

-- The conditions after setCondition has set this one.
pub set_condition : Condition → List Condition → List Condition
set_condition condition [] = condition ∷ []
set_condition condition (existing ∷ rest) =
    let others = set_condition condition rest in
    if str_eq existing.type condition.type
    then (if same_status existing.status condition.status
        then record existing {
          message = condition.message;
          last_transition_time = condition.last_transition_time;
        }
        else condition)
      ∷ rest
    else existing ∷ others

-- the condition that a phase stands for
unfoldable pub condition_of_phase : Bytes → Bytes → Time → Condition
condition_of_phase phase message now =
    if str_eq phase (codes "failed")
    then record {
      type = codes "Ready";
      status = condition_false;
      reason = codes "RuleFailed";
      message = message;
      last_transition_time = now;
    }
    else if str_eq phase (codes "active")
    then record {
      type = codes "Ready";
      status = condition_true;
      reason = codes "RuleActive";
      message = message;
      last_transition_time = now;
    }
    else if str_eq phase (codes "completed")
    then record {
      type = codes "Ready";
      status = condition_true;
      reason = codes "RuleCompleted";
      message = message;
      last_transition_time = now;
    }
    else record {
      type = codes "Ready";
      status = condition_unknown;
      reason = codes "RulePending";
      message = message;
      last_transition_time = now;
    }

unfoldable pub update_rule_status : Bytes → Bytes → Time → RuleStatus → RuleStatus
update_rule_status phase message now status = record status {
  phase = phase;
  conditions = set_condition (condition_of_phase phase message now) status.conditions;
}

-- The texts that `fmt.Sprintf` makes of an error, and of the error and the action.
pub record ErrorTexts : Type 0 where
  pub text : Bytes
  pub executed_message : Bytes
  pub error_message : Bytes

-- The change of the status in updateRuleStatusAfterExecution. `failure` is nil or the texts of the
-- error; `message` is the text for a success, with the number of resources; the two conditions are
-- set at `now` and `later`.
unfoldable pub record_execution :
    Option ErrorTexts → Bytes → ℕ → Time → Time → Time → RuleStatus → RuleStatus
record_execution failure message affected execution_time now later status = elim failure [
  | some e ↦ record status {
    last_execution_time = some execution_time;
    affected_resources = affected;
    execution_count = status.execution_count + 1;
    failed_executions = status.failed_executions + 1;
    last_error = e.text;
    last_error_time = some execution_time;
    conditions =
        set_condition
          (record {
            type = codes "Error";
            status = condition_true;
            reason = codes "ExecutionFailed";
            message = e.error_message;
            last_transition_time = later;
          })
          (set_condition
            (record {
              type = codes "Executed";
              status = condition_false;
              reason = codes "ExecutionFailed";
              message = e.executed_message;
              last_transition_time = now;
            })
            status.conditions);
  }
  | none ↦ record status {
    last_execution_time = some execution_time;
    affected_resources = affected;
    execution_count = status.execution_count + 1;
    successful_executions = status.successful_executions + 1;
    last_error = [];
    last_error_time = none;
    conditions =
        set_condition
          (record {
            type = codes "Error";
            status = condition_false;
            reason = codes "ExecutionSucceeded";
            message = codes "No execution errors";
            last_transition_time = later;
          })
          (set_condition
            (record {
              type = codes "Executed";
              status = condition_true;
              reason = codes "ExecutionSucceeded";
              message = message;
              last_transition_time = now;
            })
            status.conditions);
  }
]
