-- ===== src/Examples/Control.antt =====
-- Applications of the theorems on the controller, on its recovery and on the cleanup.
use dynamic_annotation_contr.Base.{
  str_eq, ℕ, ◌≡◌, refl, Bool, true, false, none, some, List, [], ◌∷◌, codes, lookup, insert, str_eq,
  arith,
}
use dynamic_annotation_contr.Api.{Rule, AnnotationOperation}
use dynamic_annotation_contr.Audit.{log_rule_deletion, log_event}
use dynamic_annotation_contr.Client.{ok, err}
use dynamic_annotation_contr.Errors.{ErrorTests, RetryConfig}
use dynamic_annotation_contr.Scheduler.{
  schedule_rule, get_next_execution_time, rule_not_found, new_time_scheduler, get_rule_id,
  ScheduledTask, task_of,
}
use dynamic_annotation_contr.Controller.{Environment, RuleClient, Settings, State, attempt, direct}
use dynamic_annotation_contr.Controller.Actions.{TaskTests}
use dynamic_annotation_contr.Controller.Executor.{execute_task}
use dynamic_annotation_contr.Controller.Executor.Tasks.{Counted, failures, execute_task-Counted}
use dynamic_annotation_contr.Controller.Reconcile.{
  ReconcileTests, schedule_rule_with_error_handling, schedule_once, process_next_execution_time,
  set_rule_condition, update_rule_status_with_error_handling, on_world, next_failure, get_into,
  audit_deletion, handle_deletion, reconcile_valid_rule,
}
use dynamic_annotation_contr.Controller.Reconcile.Rules.{
  HasTask, attempted, handle_deletion_lem, reconcile_valid_rule_scheduled, finished_rule_not_found,
}
use dynamic_annotation_contr.Cleanup.{cleanup_batches, cleanup_resource_batch}
use dynamic_annotation_contr.Cleanup.Batches.{cleanup_batches-cleanup_resource_batch}
use dynamic_annotation_contr.Schedule.{
  get_date_time_action, get_execution_action, calculate_date_time_next_execution, check_no_cron,
  validate_date_time_schedule, validate_schedule, calculate_next_execution,
}
use dynamic_annotation_contr.Examples.{
  auditing, validator, policies, rule_id, pod, Cluster, Failure, conflicting, api, cron_library,
  slash_name, rule, window, bucket, texts, query_times, write_times,
}

-- tests that know one answer to the question whether something was not found
abbrev tests_with : {X : Type 0} → Bool → ErrorTests X
tests_with found = record {
  is_not_found = λ e. found;
  is_conflict = λ e. false;
  is_server_timeout = λ e. false;
  is_timeout = λ e. false;
  is_service_unavailable = λ e. false;
  is_internal_error = λ e. false;
  is_too_many_requests = λ e. false;
  is_bad_request = λ e. false;
  is_invalid = λ e. false;
  is_forbidden = λ e. false;
  is_unauthorized = λ e. false;
  net_timeout = λ e. none;
  api_status = λ e. none;
  message = λ e. [];
}

abbrev one_rule : RuleClient Cluster Failure
one_rule = record {
  get_rule = λ namespace name w. (ok rule, w);
  update_rule = λ r w. (none, w);
  update_status = λ r w. (none, w);
}

abbrev no_rules : RuleClient Cluster Failure
no_rules = record {
  get_rule = λ namespace name w. (err conflicting, w);
  update_rule = λ r w. (none, w);
  update_status = λ r w. (none, w);
}

abbrev pub unsorted : List AnnotationOperation → List AnnotationOperation
unsorted ops = ops

abbrev environment : RuleClient Cluster Failure → Environment Cluster Failure Unit ℕ Unit Failure
environment rules = record {
  client = api;
  auditing = auditing;
  rules = rules;
  finalizers = record {
    contains_finalizer = λ r. true;
    add_finalizer = λ r. r;
    remove_finalizer = λ r. record r { finalizers = [] };
  };
  cron = cron_library;
  namespaced_name = slash_name;
  sort = unsorted;
  texts = texts;
  bucket = bucket;
  ctx = tt;
  now = λ w. 50;
  query_times = λ w. query_times;
  write_times = λ w. write_times;
  wait = λ n w. (false, w);
  time_texts = λ t. record { timestamp = []; date = []; time = []; unix = [] };
}

abbrev one_retry : RetryConfig
one_retry = record { max_retries = 1; retryable_errors = [] }

abbrev settings : Settings
settings = record {
  error_handler = some one_retry;
  has_recovery_manager = true;
  policies = policies;
  security_validator = some validator;
  has_audit_logger = true;
}

-- without an error handler
abbrev pub plain : Settings
plain = record settings { error_handler = none }

abbrev pub reconcile_tests : ReconcileTests Failure
reconcile_tests = record {
  on_api = tests_with false;
  on_failure = tests_with true;
  on_schedule = tests_with false;
  on_schedule_failure = tests_with false;
  rule_text = λ e. [];
}

abbrev state : State Cluster ℕ
state = record {
  world = (pod, 0);
  services = record { cache = none; rate_limiter = none };
  scheduler = new_time_scheduler;
  metrics = some (record {
    total_executions = 0;
    successful_executions = 0;
    failed_executions = 0;
    last_execution_time = none;
    average_execution_time = 0;
  });
}

-- a rule that was executed after its start
abbrev executed : Rule
executed = record rule { status = record rule.status { last_execution_time = some 150 } }

not_found :
    (attempt
      (environment no_rules)
      reconcile_tests.on_api
      plain.error_handler
      (get_into (environment no_rules) plain reconcile_tests 1 (codes "ns") (codes "r"))
      none
      state).0
    ≡ some (direct conflicting)
unfolding attempt get_into
not_found = refl

-- a rule with annotation groups alone
abbrev group_rule : Rule
group_rule = record rule { spec = record rule.spec { annotations = [] } }

handle_deletion_lem_example :
    let (result, error, s') =
      handle_deletion (environment one_rule) settings reconcile_tests 1 group_rule state in
    (lookup (get_rule_id slash_name group_rule) s'.scheduler.tasks ≡ none) × (s'.world ≡ (pod, 0))
unfolding audit_deletion log_rule_deletion log_event
handle_deletion_lem_example =
    handle_deletion_lem (environment one_rule) settings reconcile_tests 1 group_rule state refl refl

reconciled :
    (reconcile_valid_rule (environment one_rule) plain reconcile_tests 1 rule state).1 ≡ none
unfolding reconcile_valid_rule schedule_rule_with_error_handling attempt schedule_once schedule_rule
    validate_schedule str_eq validate_date_time_schedule check_no_cron calculate_next_execution
    calculate_date_time_next_execution get_execution_action get_date_time_action
    process_next_execution_time get_next_execution_time insert lookup get_rule_id set_rule_condition
    update_rule_status_with_error_handling on_world new_time_scheduler
reconciled = refl

reconcile_valid_rule_scheduled_example :
    HasTask
      (environment one_rule)
      plain
      reconcile_tests
      1
      rule
      ((environment one_rule).now
        (attempted (environment one_rule) plain reconcile_tests 1 rule state).1.1.world)
      (reconcile_valid_rule (environment one_rule) plain reconcile_tests 1 rule state).2.scheduler
reconcile_valid_rule_scheduled_example =
    reconcile_valid_rule_scheduled (environment one_rule) plain reconcile_tests 1 rule state
      reconciled

nothing_due : calculate_next_execution cron_library window (some 150) 50 ≡ ok none
unfolding calculate_next_execution validate_schedule str_eq validate_date_time_schedule
    check_no_cron calculate_date_time_next_execution
nothing_due = refl

finished_rule_not_found_example :
    let (result, error, s') =
      reconcile_valid_rule (environment one_rule) settings reconcile_tests 1 executed state in
    (error ≡ some (next_failure (rule_not_found (get_rule_id slash_name executed))))
    × (lookup (get_rule_id slash_name executed) s'.scheduler.tasks ≡ none)
    × (s'.world ≡ (pod, 0))
finished_rule_not_found_example =
    finished_rule_not_found (environment one_rule) settings reconcile_tests 1 executed state
      nothing_due

pub window_valid : validate_schedule cron_library window ≡ none
unfolding validate_schedule str_eq validate_date_time_schedule check_no_cron
window_valid = refl

abbrev pub task_tests : TaskTests Failure Failure
task_tests = record {
  on_query = tests_with false;
  on_write = tests_with false;
  on_task = tests_with false;
  on_status = tests_with false;
  failed_texts = λ e action. record { text = []; executed_message = []; error_message = [] };
  success_text = λ n. [];
  write_text = λ e. [];
}

abbrev task : ScheduledTask
task = task_of rule_id rule (codes "apply") 100

execute_task-Counted_example :
    let (failure, s') = execute_task (environment one_rule) settings task_tests task state in
    (s'.scheduler ≡ new_time_scheduler) × Counted (failures failure) state.metrics s'.metrics
execute_task-Counted_example =
    execute_task-Counted (environment one_rule) settings task_tests task state

cleanup_batches-cleanup_resource_batch_example :
    cleanup_batches api 2 (pod ∷ pod ∷ []) [] 0 (pod, 0)
    ≡ cleanup_resource_batch api (pod ∷ pod ∷ []) [] 0 (pod, 0)
cleanup_batches-cleanup_resource_batch_example =
    cleanup_batches-cleanup_resource_batch api [] 2 (pod ∷ pod ∷ []) 0 (pod, 0) (omega arith)
