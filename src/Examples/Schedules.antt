-- ===== src/Examples/Schedules.antt =====
-- Applications of the theorems on schedules and on the scheduler.
use dynamic_annotation_contr.Base.{
  ℕ, ◌-◌, ◌≡◌, ◌≢◌, ◌⊎◌, ◌↔◌, ◌++◌, refl, none, some, [], ◌∷◌, Bytes, codes, arith, length, lookup,
  str_eq,
}
use dynamic_annotation_contr.Api.{Time}
use dynamic_annotation_contr.Client.{ok}
use dynamic_annotation_contr.Schedule.{
  calculate_date_time_next_execution, check_no_cron, get_date_time_action,
  validate_date_time_schedule, validate_schedule, calculate_next_execution, get_execution_action,
}
use dynamic_annotation_contr.Schedule.Valid.{IsDateTime, IsCron, validate_schedule_iff}
use dynamic_annotation_contr.Schedule.Execution.{
  IsNextPlanned, IsInSequence, calculate_next_execution-IsNextPlanned,
}
use dynamic_annotation_contr.Scheduler.{
  take_out, finish_task, SchedulerState, new_time_scheduler, schedule_rule, get_rule_id, task_of,
  due_tasks, check_and_queue_tasks, queue_capacity, Reachable, initial, after, schedule,
  collect_due, tick,
}
use dynamic_annotation_contr.Scheduler.Rules.{schedule_rule_lem, rescheduled_task_lost}
use dynamic_annotation_contr.Scheduler.Queue.{take, check_and_queue_tasks_lem}
use dynamic_annotation_contr.Scheduler.Steps.{IsValid, Reachable-IsValid}
use dynamic_annotation_contr.Scheduler.Lifecycle.{
  Lifecycle, selecting, not_called, loop_done, Reaches, ended, stuck, IsStuck, stop_lem,
}
use dynamic_annotation_contr.Examples.{cron_library, window, rule, slash_name}

window_valid : validate_schedule cron_library window ≡ none
unfolding validate_schedule str_eq validate_date_time_schedule check_no_cron
window_valid = refl

-- the end of the window, after an execution at its start
calculate_next_execution-IsNextPlanned_example :
    ((calculate_next_execution cron_library window (some 100) 150 ≡ ok (some 200))
      × (get_execution_action window (some 100) ≡ ok (codes "remove")))
    ↔ (IsNextPlanned window 150 200 (codes "remove")
        × IsInSequence window (some 100) (codes "remove"))
calculate_next_execution-IsNextPlanned_example =
    calculate_next_execution-IsNextPlanned cron_library window (some 100) 150 200 (codes "remove")
      refl window_valid (omega arith)

validate_schedule_iff_example :
    (validate_schedule cron_library window ≡ none)
    ↔ (IsDateTime window ⊎ IsCron cron_library window)
validate_schedule_iff_example = validate_schedule_iff cron_library window

abbrev executed : ℕ
executed = 101

schedule_rule_lem_example :
    let id = get_rule_id slash_name rule in
    let last = rule.status.last_execution_time in
    let (failure, t) = schedule_rule cron_library slash_name rule 50 new_time_scheduler in
    ((failure ≢ none) × (t ≡ new_time_scheduler))
    ⊎ ((failure ≡ none)
        × (calculate_next_execution cron_library rule.spec.schedule last 50 ≡ ok none)
        × (lookup id t.tasks ≡ none))
    ⊎ ((failure ≡ none)
        × ((at : Time) × (action : Bytes) × (calculate_next_execution cron_library
                rule.spec.schedule last 50
              ≡ ok (some at))
            × (get_execution_action rule.spec.schedule last ≡ ok action)
            × (lookup id t.tasks ≡ some (task_of id rule action at))))
schedule_rule_lem_example = schedule_rule_lem cron_library slash_name rule 50 new_time_scheduler

-- one rule in the table, due
abbrev waiting_state : SchedulerState
waiting_state = record {
  tasks = (codes "ns/r", task_of (codes "ns/r") rule (codes "apply") 100) ∷ [];
  to_send = [];
  task_queue = [];
  executing = [];
}

check_and_queue_tasks_lem_example : check_and_queue_tasks 100 waiting_state ≡ record waiting_state {
  task_queue =
      waiting_state.task_queue
      ++ take
          (queue_capacity - length waiting_state.task_queue)
          (due_tasks 100 waiting_state.tasks);
}
check_and_queue_tasks_lem_example = check_and_queue_tasks_lem 100 waiting_state (omega arith)

abbrev scheduled : SchedulerState
scheduled = (schedule_rule cron_library slash_name rule 50 new_time_scheduler).1

scheduled-Reachable : Reachable cron_library slash_name scheduled
scheduled-Reachable =
    after new_time_scheduler scheduled initial (schedule rule 50 new_time_scheduler)

nothing_to_send : scheduled.to_send ≡ []
unfolding schedule_rule new_time_scheduler validate_schedule str_eq validate_date_time_schedule
    check_no_cron calculate_next_execution calculate_date_time_next_execution get_execution_action
    get_date_time_action
nothing_to_send = refl

ticked-Reachable : Reachable cron_library slash_name (collect_due 100 scheduled)
ticked-Reachable =
    after scheduled (collect_due 100 scheduled) scheduled-Reachable
      (tick 100 scheduled nothing_to_send)

Reachable-IsValid_example : IsValid (collect_due 100 scheduled)
Reachable-IsValid_example =
    Reachable-IsValid cron_library slash_name (collect_due 100 scheduled) ticked-Reachable

-- the loop at its `select`, before Stop is called
abbrev running : Lifecycle
running = record { loop = selecting; stop = not_called }

stop_lem_example :
    (Reaches running ended ⊎ ((running ≡ stuck) × IsStuck running))
    × ((running.stop ≢ not_called) ⊎ (running.loop ≡ loop_done) ⊎ Reaches running stuck)
stop_lem_example = stop_lem running

-- the scheduler while a task of the rule executes
abbrev executing : SchedulerState
executing = record {
  tasks = [];
  to_send = [];
  task_queue = [];
  executing = task_of (codes "ns/r") rule (codes "apply") 100 ∷ [];
}

taken : take_out 0 executing.executing ≡ some (task_of (codes "ns/r") rule (codes "apply") 100, [])
unfolding take_out
taken = refl

same_rule : codes "ns/r" ≡ get_rule_id slash_name rule
unfolding get_rule_id
same_rule = refl

rescheduled_task_lost_example :
    lookup
      (get_rule_id slash_name rule)
      (finish_task 0 (schedule_rule cron_library slash_name rule 50 executing).1).tasks
    ≡ none
rescheduled_task_lost_example =
    rescheduled_task_lost cron_library slash_name rule 50 0
      (task_of (codes "ns/r") rule (codes "apply") 100) [] executing taken same_rule
