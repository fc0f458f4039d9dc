-- ===== src/Scheduler/Steps.antt =====
-- What holds of the scheduler in every state that its goroutines and its callers reach.
use dynamic_annotation_contr.Base.{
  length-append, ℕ, zero, suc, ◌+◌, ◌≡◌, ◌≤◌, refl, Option, none, some, List, [], ◌∷◌, arith, Bytes,
  length, Assoc, insert, delete, All,
}
use dynamic_annotation_contr.Api.{Time, Rule}
use dynamic_annotation_contr.Schedule.{Cron}
use dynamic_annotation_contr.Scheduler.{
  get_rule_id, ScheduledTask, SchedulerState, NamespacedName, queue_capacity, max_concurrency,
  new_time_scheduler, schedule_rule, unschedule_rule, collect_due, send_next, begin_task,
  finish_task, take_out, task_of, Step, schedule, unschedule, tick, send, begin, finish, Reachable,
  initial, after,
}
use dynamic_annotation_contr.Scheduler.Queue.{send_task-length}

-- Every task stands under the identifier of its rule.
abbrev IsKeyed : Assoc ScheduledTask → Type 0
IsKeyed m = All (λ (entry : Bytes × ScheduledTask). entry.1.rule_id ≡ entry.0) m

abbrev pub IsValid : SchedulerState → Type 0
IsValid s =
    IsKeyed s.tasks
    × (length s.task_queue ≤ queue_capacity)
    × (length s.executing ≤ max_concurrency)

insert-IsKeyed :
    (id : Bytes) (t : ScheduledTask) (m : Assoc ScheduledTask)
    → t.rule_id ≡ id
    → IsKeyed m
    → IsKeyed (insert id t m)
unfolding insert
insert-IsKeyed id t [] e h = (e, tt)
insert-IsKeyed id t ((j, u) ∷ m) e h = ground (arith, insert-IsKeyed id t m)

delete-IsKeyed : (id : Bytes) (m : Assoc ScheduledTask) → IsKeyed m → IsKeyed (delete id m)
unfolding delete
delete-IsKeyed id [] h = tt
delete-IsKeyed id ((j, u) ∷ m) h = ground (arith, delete-IsKeyed id m)

-- a list from which one element is taken
abbrev IsShorter : List ScheduledTask → Option (ScheduledTask × List ScheduledTask) → Type 0
IsShorter tasks none = Unit
IsShorter tasks (some (found, others)) = length tasks ≡ length others + 1

take_out-IsShorter : (n : ℕ) (tasks : List ScheduledTask) → IsShorter tasks (take_out n tasks)
unfolding take_out
take_out-IsShorter n [] = tt
take_out-IsShorter zero (task ∷ rest) = ground arith
take_out-IsShorter (suc n) (task ∷ rest) = ground (arith, take_out-IsShorter n rest)

unschedule_rule-IsValid :
    (id : Bytes) (s : SchedulerState) → IsValid s → IsValid (unschedule_rule id s)
unfolding unschedule_rule
unschedule_rule-IsValid id s h = ground (arith, delete-IsKeyed id s.tasks)

send_next-IsValid : (s : SchedulerState) → IsValid s → IsValid (send_next s)
unfolding send_next
send_next-IsValid s h = grind (arith, λ (task : ScheduledTask). send_task-length s.task_queue task)

begin_task-IsValid : (s : SchedulerState) → IsValid s → IsValid (begin_task s)
unfolding begin_task
begin_task-IsValid s h =
    grind (arith, λ (task : ScheduledTask). length-append s.executing (task ∷ []))

finish_task-IsValid : (n : ℕ) (s : SchedulerState) → IsValid s → IsValid (finish_task n s)
unfolding finish_task
finish_task-IsValid n s h =
    grind (arith, λ (id : Bytes). delete-IsKeyed id s.tasks, take_out-IsShorter n s.executing)

module _ {S : Type 0} (cron : Cron S) (namespaced_name : NamespacedName) where
  schedule_rule-IsValid :
      (rule : Rule) (now : Time) (s : SchedulerState)
      → IsValid s
      → IsValid (schedule_rule cron namespaced_name rule now s).1
  unfolding schedule_rule
  schedule_rule-IsValid rule now s h = grind (
    arith,
    delete-IsKeyed (get_rule_id namespaced_name rule) s.tasks,
    λ (at : Time) (action : Bytes).
        insert-IsKeyed (get_rule_id namespaced_name rule)
          (task_of (get_rule_id namespaced_name rule) rule action at) s.tasks refl,
  )

  Step-IsValid : (s t : SchedulerState) → Step cron namespaced_name s t → IsValid s → IsValid t
  unfolding collect_due
  Step-IsValid s _ (schedule rule now _) h = schedule_rule-IsValid rule now s h
  Step-IsValid s _ (unschedule id _) h = unschedule_rule-IsValid id s h
  Step-IsValid s _ (tick now _ _) h = ground arith
  Step-IsValid s _ (send _) h = send_next-IsValid s h
  Step-IsValid s _ (begin _) h = begin_task-IsValid s h
  Step-IsValid s _ (finish n _) h = finish_task-IsValid n s h

  -- In every state that is reached, each task of the table stands under the identifier of its rule,
  -- the channel holds at most 1000 tasks, and at most 10 tasks are in execution.
  pub Reachable-IsValid : (s : SchedulerState) → Reachable cron namespaced_name s → IsValid s
  unfolding new_time_scheduler
  Reachable-IsValid _ initial = (tt, omega arith, omega arith)
  Reachable-IsValid t (after s _ r step) = Step-IsValid s t step (Reachable-IsValid s r)
