-- ===== src/Recovery.antt =====
-- internal/errors/recovery.go: what is done with the rules after a restart of the controller. The
-- client, the wait of the retries and the clock are parameters.
pub mod Results
use dynamic_annotation_contr.Base.{
  ◌-◌, ℕ, ◌+◌, Bool, true, false, not, ◌&&◌, Option, none, some, List, [], ◌∷◌, ◌++◌, if◌then◌else◌,
  ltb, length, is_empty, Bytes, codes, str_eq,
}
use dynamic_annotation_contr.Api.{Time, Rule, ScheduleConfig, Condition, condition_true}
use dynamic_annotation_contr.Client.{Result, ok, err}
use dynamic_annotation_contr.Errors.{
  ErrorTests, RetryConfig, RetryError, should_retry, retry_with_backoff,
  retry_with_backoff_and_condition,
}
use dynamic_annotation_contr.Controller.{RuleClient}
use dynamic_annotation_contr.Controller.Reconcile.{Outcome, returned, panicked}

-- the errors of validateRuleForRecovery
pub data RecoveryFault : Type 0 where
  empty_type no_annotations no_targets no_dates no_cron no_action : RecoveryFault
  unknown_type : Bytes → RecoveryFault

pub data RecoveryError (E : Type 0) : Type 0 where
  status_failed : RetryError E → RecoveryError E
  invalid_rule : RecoveryFault → RecoveryError E

pub record RecoveryResult (E : Type 0) : Type 0 where
  pub rules_processed : ℕ
  pub rules_recovered : ℕ
  pub rules_failed : ℕ
  pub recovery_duration : ℕ
  pub errors : List (Bytes × Bytes × RecoveryError E)

-- The condition takes the place of the first one of its type, or stands at the end.
unfoldable put_condition : Condition → List Condition → List Condition
put_condition condition [] = condition ∷ []
put_condition condition (existing ∷ rest) =
    let others = put_condition condition rest in
    if str_eq existing.type condition.type then condition ∷ rest else existing ∷ others

abbrev recovered_condition : Time → Condition
recovered_condition now = record {
  type = codes "Recovered";
  status = condition_true;
  reason = codes "ControllerRestart";
  message = codes "Rule state recovered after controller restart";
  last_transition_time = now;
}

-- `missed_text` is the text with the time that was missed.
abbrev missed_condition : (Time → Bytes) → Time → Time → Condition
missed_condition missed_text missed now = record {
  type = codes "MissedExecution";
  status = condition_true;
  reason = codes "ControllerDowntime";
  message = missed_text missed;
  last_transition_time = now;
}

-- the `switch` of validateRuleForRecovery on a type that is known
unfoldable check_dates : ScheduleConfig → Option RecoveryFault
check_dates schedule = elim schedule.start_time [
  | some t ↦ none
  | none ↦ elim schedule.end_time [ some t ↦ none | none ↦ some no_dates ]
]

unfoldable check_cron : ScheduleConfig → Option RecoveryFault
check_cron schedule =
    if is_empty schedule.cron_expression
    then some no_cron
    else if is_empty schedule.action
    then some no_action
    else none

validate_rule_for_recovery : Rule → Option RecoveryFault
validate_rule_for_recovery rule =
    let type = rule.spec.schedule.type in
    if is_empty type
    then some empty_type
    else if not (str_eq type (codes "datetime")) && not (str_eq type (codes "cron"))
    then some (unknown_type type)
    else if is_empty rule.spec.annotations
    then some no_annotations
    else if is_empty rule.spec.target_resources
    then some no_targets
    else if str_eq type (codes "datetime")
    then check_dates rule.spec.schedule
    else check_cron rule.spec.schedule

-- SafeExecute and SafeExecuteWithContext, of what the function came to: a panic is recovered, and
-- the error that is returned keeps its first value, nil.
unfoldable safe_execute : {E : Type 0} → Outcome (Option E) → Option E
safe_execute (returned failure) = failure
safe_execute panicked = none

empty_result : {E : Type 0} → RecoveryResult E
empty_result = record {
  rules_processed = 0;
  rules_recovered = 0;
  rules_failed = 0;
  recovery_duration = 0;
  errors = [];
}

-- GetRecoveryMetrics; a nil result has none. `success_rate` and `duration_text` print the share of
-- the rules and the duration.
pub record RecoveryMetrics : Type 0 where
  pub rules_processed : ℕ
  pub rules_recovered : ℕ
  pub rules_failed : ℕ
  pub success_rate : Bytes
  pub recovery_duration : Bytes
  pub error_count : ℕ

unfoldable get_recovery_metrics :
    {E : Type 0}
    → (ℕ → ℕ → Bytes)
    → Bytes
    → (ℕ → Bytes)
    → Option (RecoveryResult E)
    → Option RecoveryMetrics
get_recovery_metrics success_rate no_rate duration_text none = none
get_recovery_metrics success_rate no_rate duration_text (some result) = some (record {
  rules_processed = result.rules_processed;
  rules_recovered = result.rules_recovered;
  rules_failed = result.rules_failed;
  success_rate =
      if ltb 0 result.rules_processed
      then success_rate result.rules_recovered result.rules_processed
      else no_rate;
  recovery_duration = duration_text result.recovery_duration;
  error_count = length result.errors;
})

module _ {W E : Type 0} (rules : RuleClient W E) (list_rules : W → Result E (List Rule) × W)
    (tests : ErrorTests E) (config : RetryConfig) (wait : ℕ → W → Bool × W) (now : W → Time)
    (missed_text : Time → Bytes) where
  -- one attempt to put a condition on the latest version of a rule
  unfoldable put_on_rule : (Time → Condition) → Rule → W → Option E × W
  put_on_rule condition rule w =
      let (fetched, w₁) = rules.get_rule rule.namespace rule.name w in
      elim fetched [
        | err e ↦ (some e, w₁)
        | ok latest ↦
            rules.update_status
              (record latest {
                status = record latest.status {
                  conditions = put_condition (condition (now w₁)) latest.status.conditions;
                };
              })
              w₁
      ]

  -- the retries of it, which end when the rule is not found
  unfoldable put_with_retries : (Time → Condition) → Rule → W → Option (RetryError E) × W
  put_with_retries condition rule =
      retry_with_backoff_and_condition (put_on_rule condition rule) wait
        (λ e attempt. if tests.is_not_found e then false else should_retry tests config e attempt)
        config

  unfoldable update_rule_status_for_recovery : Rule → W → Option (RetryError E) × W
  update_rule_status_for_recovery = put_with_retries recovered_condition

  unfoldable update_rule_status_for_missed_execution : Rule → Time → W → Option (RetryError E) × W
  update_rule_status_for_missed_execution rule missed =
      put_with_retries (missed_condition missed_text missed) rule

  unfoldable check_for_missed_executions : Rule → W → Option (RetryError E) × W
  check_for_missed_executions rule w = elim rule.spec.schedule.start_time [
    | none ↦ (none, w)
    | some start ↦
        let late = ltb start (now w) in
        let updated = update_rule_status_for_missed_execution rule start w in
        if not (str_eq rule.spec.schedule.type (codes "datetime"))
        then (none, w)
        else elim rule.status.last_execution_time [
          | some t ↦ (none, w)
          | none ↦ if late then updated else (none, w)
        ]
  ]

  pub recover_rule : Rule → W → Option (RecoveryError E) × W
  recover_rule rule w =
      let (failure, w₁) = update_rule_status_for_recovery rule w in
      let (ignored, w₂) = check_for_missed_executions rule w₁ in
      elim rule.deletion_timestamp [
        | some t ↦ (none, w)
        | none ↦ elim failure [
          | some e ↦ (some (status_failed e), w₁)
          | none ↦ elim (validate_rule_for_recovery rule) [
            | some fault ↦ (some (invalid_rule fault), w₁)
            | none ↦ (none, w₂)
          ]
        ]
      ]

  -- The loop of RecoverControllerState, on the result so far.
  recover_rules : List Rule → RecoveryResult E → W → RecoveryResult E × W
  recover_rules [] result w = (result, w)
  recover_rules (rule ∷ rest) result w =
      let (failure, w₁) = recover_rule rule w in
      recover_rules rest
        (elim failure [
          | none ↦ record result { rules_recovered = result.rules_recovered + 1 }
          | some e ↦ record result {
            rules_failed = result.rules_failed + 1;
            errors = result.errors ++ (rule.namespace, rule.name, e) ∷ [];
          }
        ])
        w₁

  -- getAllRules: the rules are assigned by the attempt that succeeds.
  unfoldable get_all_rules : W → Option (RetryError E) × (List Rule × W)
  get_all_rules w =
      retry_with_backoff tests config
        (λ (p : List Rule × W).
          let (listed, w') = list_rules p.1 in
          elim listed [ ok found ↦ (none, (found, w')) | err e ↦ (some e, (p.0, w')) ])
        (λ n p. let (stopped, w') = wait n p.1 in (stopped, (p.0, w'))) ([], w)

  recover_controller_state : W → RecoveryResult E × Option (RetryError E) × W
  recover_controller_state w =
      let (failure, (found, w₁)) = get_all_rules w in
      let (result, w₂) =
        recover_rules found (record empty_result { rules_processed = length found }) w₁ in
      elim failure [
        | some e ↦ (empty_result, some e, w₁)
        | none ↦ (record result { recovery_duration = now w₂ - now w }, none, w₂)
      ]
