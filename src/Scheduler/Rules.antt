-- ===== src/Scheduler/Rules.antt =====
-- The table of tasks after a rule is scheduled.
use dynamic_annotation_contr.Base.{
  List, ℕ, ◌≡◌, ◌≢◌, ◌⊎◌, none, some, Bytes, lookup, insert, delete, Assoc, arith, lookup-insert,
  lookup-delete, str_eq_self, str_eq_iff,
}
use dynamic_annotation_contr.Api.{Time, Rule}
use dynamic_annotation_contr.Client.{ok}
use dynamic_annotation_contr.Schedule.{Cron, calculate_next_execution, get_execution_action}
use dynamic_annotation_contr.Scheduler.{
  take_out, finish_task, ScheduledTask, SchedulerState, NamespacedName, task_of, get_rule_id,
  schedule_rule,
}

lookup_inserted :
    (id : Bytes) (t : ScheduledTask) (m : Assoc ScheduledTask) → lookup id (insert id t m) ≡ some t
lookup_inserted id t m = ground (arith, lookup-insert id id t m, str_eq_self id)

lookup_deleted : (id : Bytes) (m : Assoc ScheduledTask) → lookup id (delete id m) ≡ none
lookup_deleted id m = ground (arith, lookup-delete id id m, str_eq_self id)

module _ {S : Type 0} (cron : Cron S) (namespaced_name : NamespacedName) where
  -- After a rule is scheduled without an error, the table has for it the task with the time and the
  -- action that are due, or none if nothing is due any more; after an error the scheduler is as it
  -- was.
  pub schedule_rule_lem :
      (rule : Rule) (now : Time) (s : SchedulerState)
      → let id = get_rule_id namespaced_name rule in
        let last = rule.status.last_execution_time in
        let (failure, t) = schedule_rule cron namespaced_name rule now s in
        ((failure ≢ none) × (t ≡ s))
        ⊎ ((failure ≡ none)
            × (calculate_next_execution cron rule.spec.schedule last now ≡ ok none)
            × (lookup id t.tasks ≡ none))
        ⊎ ((failure ≡ none)
            × ((at : Time) × (action : Bytes) × (calculate_next_execution cron rule.spec.schedule
                    last now
                  ≡ ok (some at))
                × (get_execution_action rule.spec.schedule last ≡ ok action)
                × (lookup id t.tasks ≡ some (task_of id rule action at))))
  unfolding schedule_rule
  schedule_rule_lem rule now s = grind (
    arith,
    lookup_deleted (get_rule_id namespaced_name rule) s.tasks,
    λ (t : ScheduledTask). lookup_inserted (get_rule_id namespaced_name rule) t s.tasks,
  )

  -- Scheduling a rule leaves the tasks of every other rule, the channel and the tasks in execution
  -- as they are, with an error or without.
  schedule_rule_frame :
      (rule : Rule) (now : Time) (s : SchedulerState) (other : Bytes)
      → other ≢ get_rule_id namespaced_name rule
      → let t = (schedule_rule cron namespaced_name rule now s).1 in
        (lookup other t.tasks ≡ lookup other s.tasks)
        × (t.to_send ≡ s.to_send)
        × (t.task_queue ≡ s.task_queue)
        × (t.executing ≡ s.executing)
  unfolding schedule_rule
  schedule_rule_frame rule now s other h = grind (
    arith,
    str_eq_iff (get_rule_id namespaced_name rule) other,
    lookup-delete (get_rule_id namespaced_name rule) other s.tasks,
    λ (t : ScheduledTask). lookup-insert (get_rule_id namespaced_name rule) other t s.tasks,
  )

  schedule_rule_executing :
      (rule : Rule) (now : Time) (s : SchedulerState)
      → (schedule_rule cron namespaced_name rule now s).1.executing ≡ s.executing
  unfolding schedule_rule
  schedule_rule_executing rule now s = grind arith

  -- A rule that is scheduled anew while a task of it executes has no task once that execution ends,
  -- whatever was scheduled.
  pub rescheduled_task_lost :
      (rule : Rule) (now : Time) (n : ℕ) (task : ScheduledTask) (others : List ScheduledTask)
      (s : SchedulerState)
      → take_out n s.executing ≡ some (task, others)
      → task.rule_id ≡ get_rule_id namespaced_name rule
      → let rescheduled = (schedule_rule cron namespaced_name rule now s).1 in
        lookup (get_rule_id namespaced_name rule) (finish_task n rescheduled).tasks ≡ none
  unfolding finish_task
  rescheduled_task_lost rule now n task others s ht hid = ground (
    arith,
    schedule_rule_executing rule now s,
    lookup_deleted task.rule_id (schedule_rule cron namespaced_name rule now s).1.tasks,
  )
