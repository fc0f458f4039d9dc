-- ===== src/Controller/Actions.antt =====
-- The actions of TaskExecutor in internal/controller/annotationschedulerule_controller.go: what
-- executeApplyAction and executeRemoveAction write for a task, and the errors of a task.
pub mod Owned
pub mod Groups
use dynamic_annotation_contr.Base.{
  not, ℕ, ◌+◌, Bool, true, false, Option, none, some, List, [], ◌∷◌, if◌then◌else◌, length,
  is_empty, Bytes, codes, str_eq,
}
use dynamic_annotation_contr.Api.{Time, Object}
use dynamic_annotation_contr.Client.{ok, err}
use dynamic_annotation_contr.Audit.{
  AuditSink, RuleInfo, log_annotation_apply, log_annotation_remove,
}
use dynamic_annotation_contr.Template.{TemplateContext}
use dynamic_annotation_contr.Scheduler.{ScheduledTask}
use dynamic_annotation_contr.Status.{ErrorTexts}
use dynamic_annotation_contr.Errors.{ErrorTests}
use dynamic_annotation_contr.Manager.Legacy.{keys_of}
use dynamic_annotation_contr.Manager.Groups.{GroupResult, GroupFailure, no_error}
use dynamic_annotation_contr.Manager.Discovery.{QueryError, get_matching_resources}
use dynamic_annotation_contr.Manager.Annotations.{
  WriteError, apply_annotations, remove_annotations, apply_annotation_groups,
  remove_annotation_groups,
}
use dynamic_annotation_contr.Controller.{Environment, Settings, State, Failure, attempt}

pub data TaskError (E F : Type 0) : Type 0 where
  unknown_action : Bytes → TaskError E F
  groups_failed find_failed : Failure (QueryError F) → TaskError E F
  group_failed : GroupFailure E → TaskError E F
  write_failed : Failure (WriteError F) → TaskError E F

-- the errors of one attempt to update the status
pub data StatusError (E : Type 0) : Type 0 where
  fetch_failed update_failed : E → StatusError E

-- What the error handler asks of the errors that reach it, and the texts of the errors.
pub record TaskTests (E F : Type 0) : Type 0 where
  pub on_query : ErrorTests (QueryError F)
  pub on_write : ErrorTests (WriteError F)
  pub on_task : ErrorTests (TaskError E F)
  pub on_status : ErrorTests (StatusError E)
  pub failed_texts : Failure (TaskError E F) → Bytes → ErrorTexts
  pub success_text : ℕ → Bytes
  pub write_text : Failure (WriteError F) → Bytes

-- the sum of ResourcesAffected, and the error of the first group that failed with one
unfoldable total_affected : {E : Type 0} → List (GroupResult E) → ℕ
total_affected [] = 0
total_affected (r ∷ rs) = r.resources_affected + total_affected rs

first_failure : {E F : Type 0} → List (GroupResult E) → Option (TaskError E F)
first_failure [] = none
first_failure (r ∷ rs) =
    let later = first_failure rs in
    if r.success then later else elim r.error [ no_error ↦ later | e ↦ some (group_failed e) ]

-- what the auditor is told of the rule of a task
abbrev task_info : ScheduledTask → RuleInfo
task_info task = record {
  rule_id = task.rule_id;
  rule_name = task.rule_name;
  rule_namespace = task.rule_namespace;
}

-- The loops that audit the resources, each with the error of the whole write.
unfoldable pub audit_applied :
    {W : Type 0} → AuditSink W → ScheduledTask → List Object → Bool → Option Bytes → W → W
audit_applied sink task [] success error w = w
audit_applied sink task (resource ∷ rest) success error w =
    audit_applied sink task rest success error
      (log_annotation_apply sink (task_info task) resource task.annotations success error w)

unfoldable audit_removed :
    {W : Type 0} → AuditSink W → ScheduledTask → List Object → Bool → Option Bytes → W → W
audit_removed sink task [] success error w = w
audit_removed sink task (resource ∷ rest) success error w =
    audit_removed sink task rest success error (
      log_annotation_remove sink (task_info task) resource (keys_of task.annotations) success error
        w)

module _ {W E S L C F : Type 0} (env : Environment W E S L C F) (settings : Settings)
    (tests : TaskTests E F) where
  open env use {client, auditing, texts, bucket, ctx, sort}

  unfoldable build_template_context : ScheduledTask → Time → TemplateContext
  build_template_context task now = record {
    variables = task.template_variables;
    resource = none;
    rule_name = task.rule_name;
    rule_namespace = task.rule_namespace;
    rule_id = task.rule_id;
    execution_time = env.time_texts now;
    action = task.action;
  }

  -- the resource manager's operations, on the state of the controller
  unfoldable pub find_resources :
      ScheduledTask → State W L → Option (QueryError F) × (List Object × State W L)
  find_resources task s =
      let (found, services, world) =
        get_matching_resources client texts bucket ctx task.selector task.target_resources
          task.rule_namespace (env.query_times s.world) s.services s.world in
      let s' : State W L = record s { services = services; world = world } in
      elim found [ ok resources ↦ (none, (resources, s')) | err e ↦ (some e, ([], s')) ]

  pub apply_groups_of :
      ScheduledTask → State W L → Option (QueryError F) × (List (GroupResult E) × State W L)
  apply_groups_of task s =
      let resolution =
        if is_empty task.conflict_resolution then codes "priority" else task.conflict_resolution in
      let (results, services, world) =
        apply_annotation_groups client texts bucket ctx sort settings.policies task.selector
          task.annotation_groups task.target_resources task.rule_namespace task.rule_id
          (build_template_context task (env.now s.world)) resolution (env.query_times s.world)
          s.services s.world in
      let s' : State W L = record s { services = services; world = world } in
      elim results [ ok rs ↦ (none, (rs, s')) | err e ↦ (some e, ([], s')) ]

  remove_groups_of :
      ScheduledTask → State W L → Option (QueryError F) × (List (GroupResult E) × State W L)
  remove_groups_of task s =
      let (results, services, world) =
        remove_annotation_groups client texts bucket ctx task.selector task.annotation_groups
          task.target_resources task.rule_namespace task.rule_id (env.query_times s.world)
          s.services s.world in
      let s' : State W L = record s { services = services; world = world } in
      elim results [ ok rs ↦ (none, (rs, s')) | err e ↦ (some e, ([], s')) ]

  pub apply_legacy : ScheduledTask → State W L → Option (WriteError F) × (Unit {0} × State W L)
  apply_legacy task s =
      let (failure, services, world) =
        apply_annotations client texts bucket ctx auditing settings.policies.validator task.selector
          task.annotations task.target_resources task.rule_namespace task.rule_id
          (env.write_times s.world) s.services s.world in
      (failure, (tt, record s { services = services; world = world }))

  remove_legacy : ScheduledTask → State W L → Option (WriteError F) × (Unit {0} × State W L)
  remove_legacy task s =
      let (failure, services, world) =
        remove_annotations client texts bucket ctx auditing task.selector (keys_of task.annotations)
          task.target_resources task.rule_namespace task.rule_id (env.write_times s.world)
          s.services s.world in
      (failure, (tt, record s { services = services; world = world }))

  -- The first part of executeApplyAction and executeRemoveAction: the annotation groups of the task.
  pub execute_groups :
      (State W L → Option (QueryError F) × (List (GroupResult E) × State W L))
      → State W L
      → Option (TaskError E F) × (ℕ × State W L)
  execute_groups operation s =
      let (failure, (results, s')) =
        attempt env tests.on_query settings.error_handler operation [] s in
      (
        elim failure [ some e ↦ some (groups_failed e) | none ↦ first_failure results ],
        (total_affected results, s'),
      )

  -- The other part, for the legacy annotations: the resources are counted, then written, and then
  -- audited by `audit`, where there is an audit logger.
  unfoldable pub execute_legacy :
      ScheduledTask
      → (State W L → Option (WriteError F) × (Unit {0} × State W L))
      → (List Object → Bool → Option Bytes → W → W)
      → State W L
      → Option (TaskError E F) × (ℕ × State W L)
  execute_legacy task operation audit s =
      let (failure, (resources, s₁)) =
        attempt env tests.on_query settings.error_handler (find_resources task) [] s in
      let (write_failure, (nothing, s₂)) =
        attempt env tests.on_write settings.error_handler operation tt s₁ in
      let world : W = elim write_failure [
        | none ↦ audit resources true none s₂.world
        | some e ↦ audit resources false (some (tests.write_text e)) s₂.world
      ] in
      let s₃ : State W L = if settings.has_audit_logger then record s₂ { world = world } else s₂ in
      elim failure [
        | some e ↦ (some (find_failed e), (0, s₁))
        | none ↦ if is_empty resources then (none, (0, s₁)) else (
          elim write_failure [ none ↦ none | some e ↦ some (write_failed e) ],
          (length resources, s₃),
        )
      ]

  unfoldable pub execute_apply_action :
      ScheduledTask → State W L → Option (TaskError E F) × (ℕ × State W L)
  execute_apply_action task s =
      if not (is_empty task.annotation_groups)
      then execute_groups (apply_groups_of task) s
      else if not (is_empty task.annotations)
      then execute_legacy task (apply_legacy task) (audit_applied auditing.sink task) s
      else (none, (0, s))

  pub execute_remove_action : ScheduledTask → State W L → Option (TaskError E F) × (ℕ × State W L)
  execute_remove_action task s =
      if not (is_empty task.annotation_groups)
      then execute_groups (remove_groups_of task) s
      else if not (is_empty task.annotations)
      then execute_legacy task (remove_legacy task) (audit_removed auditing.sink task) s
      else (none, (0, s))

  -- the `switch` on the action
  unfoldable pub execute_action :
      ScheduledTask → State W L → Option (TaskError E F) × (ℕ × State W L)
  execute_action task s =
      if str_eq task.action (codes "apply")
      then execute_apply_action task s
      else if str_eq task.action (codes "remove")
      then execute_remove_action task s
      else (some (unknown_action task.action), (0, s))
