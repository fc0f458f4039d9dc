-- ===== src/Scheduler/Queue.antt =====
-- What the loop puts in the channel of tasks.
use dynamic_annotation_contr.Base.{
  length-append, ℕ, zero, suc, ◌+◌, ◌-◌, ◌≡◌, ◌≤◌, refl, List, [], ◌∷◌, ◌++◌, append_assoc,
  append-nil, arith, length,
}
use dynamic_annotation_contr.Api.{Time}
use dynamic_annotation_contr.Scheduler.{
  ScheduledTask, SchedulerState, queue_capacity, send_task, send_tasks, due_tasks,
  check_and_queue_tasks,
}

abbrev pub take {ℓ} : {A : Type ℓ} → ℕ → List A → List A
take zero xs = []
take (suc n) [] = []
take (suc n) (x ∷ xs) = x ∷ take n xs

pub send_task-length :
    (queue : List ScheduledTask) (task : ScheduledTask)
    → length queue ≤ queue_capacity
    → length (send_task queue task) ≤ queue_capacity
unfolding send_task
send_task-length queue task h = ground (arith, length-append queue (task ∷ []))

send_tasks-full :
    (queue tasks : List ScheduledTask)
    → queue_capacity ≤ length queue
    → send_tasks queue tasks ≡ queue
unfolding send_tasks send_task
send_tasks-full queue [] h = refl
send_tasks-full queue (task ∷ rest) h = ground (arith, send_tasks-full queue rest)

send_tasks-take :
    (queue tasks : List ScheduledTask) (room : ℕ)
    → room + length queue ≡ queue_capacity
    → send_tasks queue tasks ≡ queue ++ take room tasks
unfolding send_tasks send_task
send_tasks-take queue [] zero h = rw append-nil
send_tasks-take queue [] (suc room) h = rw append-nil
send_tasks-take queue (task ∷ rest) zero h =
    ground (arith, append-nil queue, send_tasks-full queue rest)
send_tasks-take queue (task ∷ rest) (suc room) h = ground (
  arith,
  append_assoc queue (task ∷ []) (take room rest),
  length-append queue (task ∷ []),
  send_tasks-take (queue ++ task ∷ []) rest room,
)

-- A check of the table, when the channel holds no more than its capacity, appends to the channel,
-- in the order in which the table gives them, as many of the tasks that are ready as there is room
-- for, drops the others, and changes nothing else.
pub check_and_queue_tasks_lem :
    (now : Time) (s : SchedulerState)
    → length s.task_queue ≤ queue_capacity
    → check_and_queue_tasks now s ≡ record s {
      task_queue =
          s.task_queue ++ take (queue_capacity - length s.task_queue) (due_tasks now s.tasks);
    }
unfolding check_and_queue_tasks
check_and_queue_tasks_lem now s h = ground (
  arith,
  send_tasks-take s.task_queue (due_tasks now s.tasks) (queue_capacity - length s.task_queue),
)
