-- ===== src/Scheduler.antt =====
-- internal/scheduler/scheduler.go: the table of tasks, the queue and the workers. What the mutex
-- makes atomic is one function; how they interleave is the relation `Step`.
pub mod Rules
pub mod Queue
pub mod Steps
pub mod Lifecycle
pub mod Restarts
use dynamic_annotation_contr.Base.{
  ℕ, zero, suc, ◌+◌, ◌≡◌, Bool, true, false, not, ◌&&◌, Option, none, some, List, [], ◌∷◌, ◌++◌,
  Bytes, if◌then◌else◌, ltb, keep, length, Assoc, lookup, insert, delete,
}
use dynamic_annotation_contr.Api.{Time, AnnotationGroup, LabelSelector, Rule}
use dynamic_annotation_contr.Client.{Result, ok, err}
use dynamic_annotation_contr.Schedule.{
  Cron, ScheduleError, minute, validate_schedule, calculate_next_execution, get_execution_action,
}

pub record ScheduledTask : Type 0 where
  pub rule_id : Bytes
  pub rule_name : Bytes
  pub rule_namespace : Bytes
  pub action : Bytes
  pub execute_at : Time
  pub annotations : Assoc Bytes
  pub annotation_groups : List AnnotationGroup
  pub selector : LabelSelector
  pub target_resources : List Bytes
  pub template_variables : Assoc Bytes
  pub conflict_resolution : Bytes

-- timeScheduler: the table, the tasks that the loop has found ready and not sent yet, the channel of
-- tasks, and the tasks that a worker executes, each of which holds one slot of the semaphore
pub record SchedulerState : Type 0 where
  pub tasks : Assoc ScheduledTask
  pub to_send : List ScheduledTask
  pub task_queue : List ScheduledTask
  pub executing : List ScheduledTask

-- make(chan *ScheduledTask, 1000), make(chan struct{}, 10)
abbrev pub queue_capacity : ℕ
queue_capacity = 1000

abbrev max_concurrency : ℕ
max_concurrency = 10

unfoldable pub new_time_scheduler : SchedulerState
new_time_scheduler = record { tasks = []; to_send = []; task_queue = []; executing = [] }

pub data SchedulerError : Type 0 where
  invalid_rule_schedule next_execution_failed action_failed : ScheduleError → SchedulerError
  rule_not_found : Bytes → SchedulerError

abbrev pub task_of : Bytes → Rule → Bytes → Time → ScheduledTask
task_of id rule action at = record {
  rule_id = id;
  rule_name = rule.name;
  rule_namespace = rule.namespace;
  action = action;
  execute_at = at;
  annotations = rule.spec.annotations;
  annotation_groups = rule.spec.annotation_groups;
  selector = rule.spec.selector;
  target_resources = rule.spec.target_resources;
  template_variables = rule.spec.template_variables;
  conflict_resolution = rule.spec.conflict_resolution;
}

-- `types.NamespacedName{…}.String()` of apimachinery, which is no part of the repository
abbrev pub NamespacedName : Type 0
NamespacedName = Bytes → Bytes → Bytes

unfoldable pub get_rule_id : NamespacedName → Rule → Bytes
get_rule_id namespaced_name rule = namespaced_name rule.namespace rule.name

module _ {S : Type 0} (cron : Cron S) (namespaced_name : NamespacedName) where
  -- ScheduleRule; `none` is nil
  unfoldable pub schedule_rule :
      Rule → Time → SchedulerState → Option SchedulerError × SchedulerState
  schedule_rule rule now s =
      let id = get_rule_id namespaced_name rule in
      let last = rule.status.last_execution_time in
      elim (validate_schedule cron rule.spec.schedule) [
        | some e ↦ (some (invalid_rule_schedule e), s)
        | none ↦ elim (calculate_next_execution cron rule.spec.schedule last now) [
          | err e ↦ (some (next_execution_failed e), s)
          | ok none ↦ (none, record s { tasks = delete id s.tasks })
          | ok (some at) ↦ elim (get_execution_action rule.spec.schedule last) [
            | err e ↦ (some (action_failed e), s)
            | ok action ↦ (none, record s { tasks = insert id (task_of id rule action at) s.tasks })
          ]
        ]
      ]

unfoldable pub unschedule_rule : Bytes → SchedulerState → SchedulerState
unschedule_rule id s = record s { tasks = delete id s.tasks }

unfoldable pub get_next_execution_time : Bytes → SchedulerState → Result SchedulerError Time
get_next_execution_time id s = elim (lookup id s.tasks) [
  | none ↦ err (rule_not_found id)
  | some task ↦ ok task.execute_at
]

unfoldable get_scheduled_task_count : SchedulerState → ℕ
get_scheduled_task_count s = length s.tasks

abbrev values_of {ℓ} : {V : Type ℓ} → Assoc V → List V
values_of [] = []
values_of ((k, v) ∷ m) = v ∷ values_of m

-- The tasks that are ready, with a tolerance of a minute.
unfoldable pub due_tasks : Time → Assoc ScheduledTask → List ScheduledTask
due_tasks now tasks = keep (λ task. ltb task.execute_at (now + minute)) (values_of tasks)

-- A send to the channel, which drops the task where the channel is full.
pub send_task : List ScheduledTask → ScheduledTask → List ScheduledTask
send_task queue task = if ltb (length queue) queue_capacity then queue ++ task ∷ [] else queue

send_tasks : List ScheduledTask → List ScheduledTask → List ScheduledTask
send_tasks queue [] = queue
send_tasks queue (task ∷ rest) = send_tasks (send_task queue task) rest

-- checkAndQueueTasks, where nothing happens between its sends
pub check_and_queue_tasks : Time → SchedulerState → SchedulerState
check_and_queue_tasks now s = record s {
  task_queue = send_tasks s.task_queue (due_tasks now s.tasks);
}

-- The part of checkAndQueueTasks that holds the lock.
pub collect_due : Time → SchedulerState → SchedulerState
collect_due now s = record s { to_send = due_tasks now s.tasks }

-- One turn of the loop after it, which holds no lock.
pub send_next : SchedulerState → SchedulerState
send_next s = elim s.to_send [
  | [] ↦ s
  | task ∷ rest ↦ record s { to_send = rest; task_queue = send_task s.task_queue task }
]

-- A worker receives a task, and the semaphore lets it begin if a slot is free.
pub begin_task : SchedulerState → SchedulerState
begin_task s = elim s.task_queue [
  | [] ↦ s
  | task ∷ rest ↦
      if ltb (length s.executing) max_concurrency
      then record s { task_queue = rest; executing = s.executing ++ task ∷ [] }
      else s
]

-- The task at a position, and the list without it.
unfoldable pub take_out : ℕ → List ScheduledTask → Option (ScheduledTask × List ScheduledTask)
take_out n [] = none
take_out zero (task ∷ rest) = some (task, rest)
take_out (suc n) (task ∷ rest) = elim (take_out n rest) [
  | none ↦ none
  | some (found, others) ↦ some (found, task ∷ others)
]

-- The end of executeTaskWithSemaphore for one of the tasks in execution: whatever the executor has
-- returned, the entry of the rule is deleted, and the slot is free again.
pub finish_task : ℕ → SchedulerState → SchedulerState
finish_task n s = elim (take_out n s.executing) [
  | none ↦ s
  | some (task, others) ↦ record s { executing = others; tasks = delete task.rule_id s.tasks }
]

-- The goroutines of the scheduler and the callers of its methods, one atomic step at a time.
pub data Step {S : Type 0} (cron : Cron S) (namespaced_name : NamespacedName)
    : SchedulerState → SchedulerState → Type 0 where
  schedule :
      (rule : Rule) (now : Time) (s : SchedulerState)
      → Step cron namespaced_name s (schedule_rule cron namespaced_name rule now s).1
  unschedule :
      (id : Bytes) (s : SchedulerState) → Step cron namespaced_name s (unschedule_rule id s)
  tick :
      (now : Time) (s : SchedulerState)
      → s.to_send ≡ []
      → Step cron namespaced_name s (collect_due now s)
  send : (s : SchedulerState) → Step cron namespaced_name s (send_next s)
  begin : (s : SchedulerState) → Step cron namespaced_name s (begin_task s)
  finish : (n : ℕ) (s : SchedulerState) → Step cron namespaced_name s (finish_task n s)

pub data Reachable {S : Type 0} (cron : Cron S) (namespaced_name : NamespacedName)
    : SchedulerState → Type 0 where
  initial : Reachable cron namespaced_name new_time_scheduler
  after :
      (s t : SchedulerState)
      → Reachable cron namespaced_name s
      → Step cron namespaced_name s t
      → Reachable cron namespaced_name t
