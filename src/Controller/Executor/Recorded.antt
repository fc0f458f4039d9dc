-- ===== src/Controller/Executor/Recorded.antt =====
-- How an execution reaches the status of its rule.
use dynamic_annotation_contr.Base.{ℕ, ◌≡◌, none, some, Option, Bytes, arith}
use dynamic_annotation_contr.Api.{Time, Rule, RuleStatus}
use dynamic_annotation_contr.Client.{ok}
use dynamic_annotation_contr.Scheduler.{ScheduledTask}
use dynamic_annotation_contr.Status.{ErrorTexts, record_execution}
use dynamic_annotation_contr.Controller.{Environment, Settings, State, Failure, attempt}
use dynamic_annotation_contr.Controller.Retries.{attempt-first}
use dynamic_annotation_contr.Controller.Actions.{TaskTests, TaskError, execute_action}
use dynamic_annotation_contr.Controller.Executor.{
  rule_of_task, write_status, update_rule_status_after_execution, execute_task,
}

module _ {W E S L C F : Type 0} (env : Environment W E S L C F) (settings : Settings)
    (tests : TaskTests E F) where
  -- what the retries of the action come to
  abbrev pub attempted :
      ScheduledTask → State W L → Option (Failure (TaskError E F)) × (ℕ × State W L)
  attempted task s =
      attempt env tests.on_task settings.error_handler (execute_action env settings tests task) 0 s

  -- the status that the execution of a task gives a rule, written in this state of the world
  abbrev pub executed_status : ScheduledTask → State W L → Rule → W → RuleStatus
  executed_status task s rule w =
      let (failure, (affected, s₁)) = attempted task s in
      let texts : Option ErrorTexts = elim failure [
        | none ↦ none
        | some e ↦ some (tests.failed_texts e task.action)
      ] in
      record_execution texts (tests.success_text affected) affected (env.now s.world) (env.now w)
        (env.now w) rule.status

  module _ (task : ScheduledTask) (namespace name : Bytes) (rule : Rule) (w w' : W)
      (failure : Option (Failure (TaskError E F))) (affected : ℕ) (at : Time) where
    -- what the record of an execution makes of the status
    abbrev status : RuleStatus
    status =
        let texts : Option ErrorTexts = elim failure [
          | none ↦ none
          | some e ↦ some (tests.failed_texts e task.action)
        ] in
        record_execution texts (tests.success_text affected) affected at (env.now w) (env.now w)
          rule.status

    write_status_lem :
        (s : State W L)
        → env.rules.get_rule namespace name s.world ≡ (ok rule, w)
        → env.rules.update_status (record rule { status = status }) w ≡ (none, w')
        → write_status env settings tests namespace name task failure affected at s
          ≡ (none, (tt, record s { world = w' }))
    unfolding write_status
    write_status_lem s hg hu = ground arith

    update_status_lem :
        (s : State W L)
        → rule_of_task task ≡ some (namespace, name)
        → env.rules.get_rule namespace name s.world ≡ (ok rule, w)
        → env.rules.update_status (record rule { status = status }) w ≡ (none, w')
        → (update_rule_status_after_execution env settings tests task failure affected at s).world
          ≡ w'
    unfolding update_rule_status_after_execution
    update_status_lem s ht hg hu = ground (
      arith,
      write_status_lem s hg hu,
      attempt-first env tests.on_status
          (write_status env settings tests namespace name task failure affected at)
          settings.error_handler tt s,
    )

  -- If the rule is fetched, and the update of its status accepted, at the first attempt, then what
  -- an execution leaves in the cluster is that update.
  pub execute_task_recorded :
      (task : ScheduledTask) (s : State W L) (namespace name : Bytes) (rule : Rule) (w w' : W)
      → rule_of_task task ≡ some (namespace, name)
      → env.rules.get_rule namespace name (attempted task s).1.1.world ≡ (ok rule, w)
      → env.rules.update_status (record rule { status = executed_status task s rule w }) w
        ≡ (none, w')
      → (execute_task env settings tests task s).1.world ≡ w'
  unfolding execute_task
  execute_task_recorded task s namespace name rule w w' ht hg hu =
      update_status_lem task namespace name rule w w' failure affected (env.now s.world) _ ht hg hu
    where
      failure : Option (Failure (TaskError E F))
      failure = (attempted task s).0

      affected : ℕ
      affected = (attempted task s).1.0
