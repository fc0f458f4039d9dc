-- ===== src/Examples/Cycle.antt =====
-- The application of the theorem on an execution and the reconcile after it.
use dynamic_annotation_contr.Base.{
  ◌*◌, ◌+◌, ◌^◌, keep, any, refl, ℕ, ◌≡◌, true, false, none, some, [], codes, lookup, str_eq, arith,
  ◌≢◌,
}
use dynamic_annotation_contr.Api.{Rule, RuleStatus}
use dynamic_annotation_contr.Client.{Client, ok}
use dynamic_annotation_contr.Scheduler.{
  ScheduledTask, task_of, get_rule_id, rule_not_found, new_time_scheduler,
}
use dynamic_annotation_contr.Manager.Annotations.{Auditing}
use dynamic_annotation_contr.Manager.Discovery.{
  get_matching_resources, wait_if_limited, look_up, store, collect_resources, get_resources_by_type,
  is_listed,
}
use dynamic_annotation_contr.Controller.{Environment, RuleClient, Settings, State, attempt}
use dynamic_annotation_contr.Controller.Actions.{
  execute_action, execute_apply_action, execute_legacy, find_resources,
}
use dynamic_annotation_contr.Controller.Executor.{rule_of_task, execute_task}
use dynamic_annotation_contr.Controller.Executor.Recorded.{attempted, executed_status}
use dynamic_annotation_contr.Controller.Reconcile.{safe_reconcile, next_failure}
use dynamic_annotation_contr.Controller.Cycle.{whole_seconds, stored_time, executed_then_reconciled}
use dynamic_annotation_contr.Examples.Rules.{annotations_accepted}
use dynamic_annotation_contr.Schedule.{
  check_no_cron, validate_date_time_schedule, validate_schedule,
}
use dynamic_annotation_contr.RuleChecks.{
  validate_conflict_resolution, validate_annotations_config, validate_legacy_annotations,
  validate_resource_types, unsupported_resource_types, check_variables, is_supported_type,
  validate_rule,
}
use dynamic_annotation_contr.RuleChecks.Accepted.{validate_schedule_config-parsed}
use dynamic_annotation_contr.Examples.Control.{task_tests, reconcile_tests, plain, unsorted}
use dynamic_annotation_contr.Examples.{
  policies, window, Cluster, Failure, update_cluster, pod, rule, rule_id, cron_library, slash_name,
  bucket, texts, query_times, write_times,
}

-- a rule from the hundredth second to the two hundredth
abbrev timed : Rule
timed = record rule {
  spec = record rule.spec {
    schedule = record window { start_time = some (100 * 10 ^ 9); end_time = some (200 * 10 ^ 9) };
  };
}

timed_valid : validate_schedule cron_library timed.spec.schedule ≡ none
unfolding validate_schedule str_eq validate_date_time_schedule check_no_cron
timed_valid = refl

timed_accepted : validate_rule policies none timed ≡ none
unfolding validate_rule check_variables validate_conflict_resolution validate_annotations_config
    validate_legacy_annotations validate_resource_types unsupported_resource_types is_supported_type
    keep any str_eq
timed_accepted = ground (
  arith,
  annotations_accepted,
  validate_schedule_config-parsed cron_library timed.spec.schedule timed_valid,
)

-- a cluster that also holds the rule, and in which nothing matches its selector any more
abbrev World : Type 0
World = Cluster × Rule

abbrev client : Client World Failure
client = record {
  update = λ o w. let (failure, cluster) = update_cluster o w.0 in (failure, (cluster, w.1));
  get = λ o w. (ok w.0.0, w);
  list = λ t l n w. (ok [], w);
  is_conflict = λ e. true;
}

abbrev rules : RuleClient World Failure
rules = record {
  get_rule = λ namespace name w. (ok w.1, w);
  update_rule = λ r w. (none, (w.0, r));
  update_status = λ r w. (
    none,
    (
      w.0,
      record r {
        status = record r.status { last_execution_time = stored_time r.status.last_execution_time };
      },
    ),
  );
}

abbrev quiet : Auditing World Failure
quiet = record {
  sink = record { now = λ w. 150; write = λ e w. w };
  update_text = λ e. [];
  rejection_text = λ e. [];
}

-- the clock stands thirty seconds after the start of the window, when the scheduler looks for tasks
abbrev environment : Environment World Failure Unit ℕ Unit Failure
environment = record {
  client = client;
  auditing = quiet;
  rules = rules;
  finalizers = record {
    contains_finalizer = λ r. true;
    add_finalizer = λ r. r;
    remove_finalizer = λ r. record r { finalizers = [] };
  };
  cron = cron_library;
  namespaced_name = slash_name;
  sort = unsorted;
  texts = texts;
  bucket = bucket;
  ctx = tt;
  now = λ w. 130 * 10 ^ 9 + 50;
  query_times = λ w. query_times;
  write_times = λ w. write_times;
  wait = λ n w. (false, w);
  time_texts = λ t. record { timestamp = []; date = []; time = []; unix = [] };
}

abbrev settings : Settings
settings = record plain { security_validator = none }

abbrev state : State World ℕ
state = record {
  world = ((pod, 0), timed);
  services = record { cache = none; rate_limiter = none };
  scheduler = new_time_scheduler;
  metrics = none;
}

abbrev task : ScheduledTask
task = task_of rule_id timed (codes "apply") (100 * 10 ^ 9)

-- the world once the annotations are written
abbrev after : World
after = (attempted environment settings task_tests task state).1.1.world

after-rule : after.1 ≡ timed
unfolding attempt execute_action execute_apply_action execute_legacy find_resources str_eq
    get_matching_resources wait_if_limited look_up store collect_resources get_resources_by_type
    is_listed
after-rule = refl

fetched : rules.get_rule timed.namespace timed.name after ≡ (ok timed, after)
fetched = ground (arith, after-rule)

late : whole_seconds (environment.now state.world) ≢ 100 * 10 ^ 9
late e = omega arith

-- the status as it is stored, with the time of the execution in whole seconds
abbrev read : RuleStatus
read =
    let written = executed_status environment settings task_tests task state timed after in
    record written { last_execution_time = stored_time written.last_execution_time }

abbrev stored : World
stored = (after.0, record timed { status = read })

executed_then_reconciled_example :
    let (failure, executed) = execute_task environment settings task_tests task state in
    let ((result, error), s') =
      safe_reconcile environment settings reconcile_tests 1 timed.namespace timed.name executed in
    (error ≡ some (next_failure (rule_not_found (get_rule_id slash_name timed))))
    × (lookup (get_rule_id slash_name timed) s'.scheduler.tasks ≡ none)
    × (s'.world ≡ stored)
unfolding rule_of_task
executed_then_reconciled_example =
    executed_then_reconciled environment settings task_tests reconcile_tests 1 task timed state
      (100 * 10 ^ 9) after stored read (λ r status. refl) refl fetched refl refl refl refl refl
      timed_accepted refl timed_valid refl late
