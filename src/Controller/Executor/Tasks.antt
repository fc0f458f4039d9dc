-- ===== src/Controller/Executor/Tasks.antt =====
-- What the execution of a task counts and touches.
use dynamic_annotation_contr.Controller.Actions.Owned.{Own, Keeps, attempt-Own, execute_action-Own}
use dynamic_annotation_contr.Base.{
  sym, subst, ◌∙◌, ℕ, ◌+◌, ◌-◌, ◌≡◌, refl, true, false, Option, none, some, arith, Bytes,
}
use dynamic_annotation_contr.Api.{Time}
use dynamic_annotation_contr.Scheduler.{SchedulerState, ScheduledTask}
use dynamic_annotation_contr.Controller.{
  Environment, Settings, State, Failure, ExecutionMetrics, attempt, record_metrics,
}
use dynamic_annotation_contr.Controller.Actions.{TaskTests, TaskError, execute_action}
use dynamic_annotation_contr.Controller.Executor.{
  execute_task_unset, without_reconciler, write_status, update_rule_status_after_execution,
  execute_task,
}

abbrev pub failures {ℓ} : {A : Type ℓ} → Option A → ℕ
failures none = 0
failures (some e) = 1

-- The metrics after one more execution, of which this many failed.
abbrev pub Counted : ℕ → Option ExecutionMetrics → Option ExecutionMetrics → Type 0
Counted failed none none = Unit
Counted failed (some m) (some m') =
    (m'.total_executions ≡ m.total_executions + 1)
    × (m'.failed_executions ≡ m.failed_executions + failed)
    × (m'.successful_executions + failed ≡ m.successful_executions + 1)
Counted failed _ _ = ⊥

-- the metrics once the execution is recorded
record_metrics-Counted :
    {X : Type 0} (failure : Option X) (duration : ℕ) (now : Time)
    (metrics : Option ExecutionMetrics)
    → Counted (failures failure) metrics (elim metrics [
      | none ↦ none
      | some m ↦
          some (record_metrics (elim failure [ none ↦ true | some e ↦ false ]) duration now m)
    ])
unfolding record_metrics
record_metrics-Counted none duration now none = tt
record_metrics-Counted (some e) duration now none = tt
record_metrics-Counted none duration now (some m) = ground arith
record_metrics-Counted (some e) duration now (some m) = ground arith

module _ {W E S L C F : Type 0} (env : Environment W E S L C F) (settings : Settings)
    (tests : TaskTests E F) where
  module _ (scheduler : SchedulerState) (metrics : Option ExecutionMetrics) where
    write_status-Own :
        (namespace name : Bytes) (task : ScheduledTask) (failure : Option (Failure (TaskError E F)))
        (affected : ℕ) (at : Time)
        → Keeps env settings tests scheduler metrics
            (write_status env settings tests namespace name task failure affected at)
    unfolding write_status
    write_status-Own namespace name task failure affected at s h = ground arith

    update_status-Own :
        (task : ScheduledTask) (failure : Option (Failure (TaskError E F))) (affected : ℕ)
        (at : Time) (s : State W L)
        → Own env settings tests scheduler metrics s
        → Own env settings tests scheduler metrics
            (update_rule_status_after_execution env settings tests task failure affected at s)
    unfolding update_rule_status_after_execution
    update_status-Own task failure affected at s h = grind (
      arith,
      λ (namespace name : Bytes).
          attempt-Own env settings tests scheduler metrics tests.on_status
            (write_status env settings tests namespace name task failure affected at) tt
            (write_status-Own namespace name task failure affected at) s h,
    )

  -- what update_status-Own says of any state
  update_status-keeps :
      (task : ScheduledTask) (failure : Option (Failure (TaskError E F))) (affected : ℕ) (at : Time)
      (s : State W L)
      → let s' = update_rule_status_after_execution env settings tests task failure affected at s in
        (s'.scheduler ≡ s.scheduler) × (s'.metrics ≡ s.metrics)
  update_status-keeps task failure affected at s =
      update_status-Own s.scheduler s.metrics task failure affected at s (refl, refl)

  attempted-keeps :
      (task : ScheduledTask) (s : State W L)
      → let s' =
          (attempt env tests.on_task settings.error_handler
            (execute_action env settings tests task)
            0
            s).1.1 in
        (s'.scheduler ≡ s.scheduler) × (s'.metrics ≡ s.metrics)
  attempted-keeps task s =
      attempt-Own env settings tests s.scheduler s.metrics tests.on_task
        (execute_action env settings tests task) 0
        (execute_action-Own env settings tests s.scheduler s.metrics task) s (refl, refl)

  -- The execution of a task, with all its retries, counts once, as failed exactly if it ends with an
  -- error, and leaves the table of tasks to the scheduler.
  pub execute_task-Counted :
      (task : ScheduledTask) (s : State W L)
      → let (failure, s') = execute_task env settings tests task s in
        (s'.scheduler ≡ s.scheduler) × Counted (failures failure) s.metrics s'.metrics
  unfolding execute_task
  execute_task-Counted task s = (
    (update_status-keeps task failure affected start recorded).0 ∙ (attempted-keeps task s).0,
    subst (Counted (failures failure) s.metrics)
        (sym (update_status-keeps task failure affected start recorded).1)
        (subst (λ m. Counted (failures failure) m recorded.metrics) (attempted-keeps task s).1
          (record_metrics-Counted failure (env.now s₁.world - start) (env.now s₁.world)
            s₁.metrics)),
  )
    where
      start : Time
      start = env.now s.world

      -- what the retries of the action come to
      attempted : Option (Failure (TaskError E F)) × (ℕ × State W L)
      attempted =
          attempt env tests.on_task settings.error_handler (execute_action env settings tests task)
            0 s

      failure : Option (Failure (TaskError E F))
      failure = attempted.0

      affected : ℕ
      affected = attempted.1.0

      s₁ : State W L
      s₁ = attempted.1.1

      recorded : State W L
      recorded = record s₁ {
        metrics = elim s₁.metrics [
          | none ↦ none
          | some m ↦ some (
              record_metrics (elim failure [ none ↦ true | some e ↦ false ])
                (env.now s₁.world - start) (env.now s₁.world) m)
        ];
      }

module _ {W E S L C F : Type 0} (env : Environment W E S L C F) (settings : Settings)
    (tests : TaskTests E F) where
  -- An executor without a reconciler leaves the table of tasks and the metrics as they are.
  execute_task_unset-keeps :
      (task : ScheduledTask) (s : State W L)
      → let s' = (execute_task_unset env settings tests task s).1 in
        (s'.scheduler ≡ s.scheduler) × (s'.metrics ≡ s.metrics)
  unfolding execute_task_unset
  execute_task_unset-keeps task s =
      attempted-keeps env (without_reconciler env settings tests) tests task s
