-- ===== src/Controller/Actions/Owned.antt =====
-- The writes of a task leave the table of tasks and the metrics to the controller.
use dynamic_annotation_contr.Base.{Bool, ◌≡◌, Option, List, [], arith, Bytes}
use dynamic_annotation_contr.Api.{Object}
use dynamic_annotation_contr.Scheduler.{SchedulerState, ScheduledTask}
use dynamic_annotation_contr.Manager.Groups.{GroupResult}
use dynamic_annotation_contr.Controller.{
  ErrorTests, Environment, Settings, State, ExecutionMetrics, attempt,
}
use dynamic_annotation_contr.Controller.Retries.{attempt-keeps}
use dynamic_annotation_contr.Manager.Annotations.{WriteError}
use dynamic_annotation_contr.Manager.Discovery.{QueryError}
use dynamic_annotation_contr.Controller.Actions.{
  audit_applied, audit_removed, TaskTests, find_resources, apply_groups_of, remove_groups_of,
  apply_legacy, remove_legacy, execute_groups, execute_legacy, execute_apply_action,
  execute_remove_action, execute_action,
}

module _ {W E S L C F : Type 0} (env : Environment W E S L C F) (settings : Settings)
    (tests : TaskTests E F) where
  -- The table of tasks and the metrics are these.
  abbrev pub Own : SchedulerState → Option ExecutionMetrics → State W L → Type 0
  Own scheduler metrics s = (s.scheduler ≡ scheduler) × (s.metrics ≡ metrics)

  module _ (scheduler : SchedulerState) (metrics : Option ExecutionMetrics) where
    -- An operation of the resource manager keeps what is the controller's own.
    abbrev pub Keeps : {X A : Type 0} → (State W L → Option X × (A × State W L)) → Type 0
    Keeps operation =
        (t : State W L) → Own scheduler metrics t → Own scheduler metrics (operation t).1.1

    pub attempt-Own :
        {X A : Type 0} (about : ErrorTests X) (operation : State W L → Option X × (A × State W L))
        (a : A)
        → Keeps operation
        → Keeps (attempt env about settings.error_handler operation a)
    attempt-Own about operation a keeps =
        attempt-keeps env about operation (Own scheduler metrics) keeps (λ t w h. h)
          settings.error_handler a

    execute_groups-Own :
        (operation : State W L → Option (QueryError F) × (List (GroupResult E) × State W L))
        → Keeps operation
        → Keeps (execute_groups env settings tests operation)
    unfolding execute_groups
    execute_groups-Own operation keeps = attempt-Own tests.on_query operation [] keeps

    find_resources-Own : (task : ScheduledTask) → Keeps (find_resources env settings tests task)
    unfolding find_resources
    find_resources-Own task s h = ground arith

    execute_legacy-Own :
        (task : ScheduledTask)
        (operation : State W L → Option (WriteError F) × (Unit {0} × State W L))
        (audit : List Object → Bool → Option Bytes → W → W)
        → Keeps operation
        → Keeps (execute_legacy env settings tests task operation audit)
    unfolding execute_legacy
    execute_legacy-Own task operation audit keeps s h = grind (
      arith,
      attempt-Own tests.on_query (find_resources env settings tests task) []
          (find_resources-Own task) s h,
      attempt-Own tests.on_write operation tt keeps
          (attempt env tests.on_query settings.error_handler
            (find_resources env settings tests task) [] s).1.1,
    )

    apply_groups_of-Own : (task : ScheduledTask) → Keeps (apply_groups_of env settings tests task)
    unfolding apply_groups_of
    apply_groups_of-Own task s h = ground arith

    remove_groups_of-Own : (task : ScheduledTask) → Keeps (remove_groups_of env settings tests task)
    unfolding remove_groups_of
    remove_groups_of-Own task s h = ground arith

    apply_legacy-Own : (task : ScheduledTask) → Keeps (apply_legacy env settings tests task)
    unfolding apply_legacy
    apply_legacy-Own task s h = ground arith

    remove_legacy-Own : (task : ScheduledTask) → Keeps (remove_legacy env settings tests task)
    unfolding remove_legacy
    remove_legacy-Own task s h = ground arith

    pub execute_action-Own : (task : ScheduledTask) → Keeps (execute_action env settings tests task)
    unfolding execute_action execute_apply_action execute_remove_action
    execute_action-Own task s h = ground (
      arith,
      execute_groups-Own (apply_groups_of env settings tests task) (apply_groups_of-Own task) s h,
      execute_groups-Own (remove_groups_of env settings tests task) (remove_groups_of-Own task) s h,
      execute_legacy-Own task (apply_legacy env settings tests task)
          (audit_applied env.auditing.sink task) (apply_legacy-Own task) s h,
      execute_legacy-Own task (remove_legacy env settings tests task)
          (audit_removed env.auditing.sink task) (remove_legacy-Own task) s h,
    )
