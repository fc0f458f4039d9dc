-- ===== src/RuleChecks/Accepted.antt =====
-- What it means that the controller accepts a rule.
use dynamic_annotation_contr.Base.{
  refl, some, ◌↔◌, ◌≡◌, ◌≢◌, ◌⊎◌, true, none, Option, List, [], ◌∷◌, arith, All, Bytes, keep,
  is_empty,
}
use dynamic_annotation_contr.Api.{
  RuleStatus, Rule, ScheduleConfig, AnnotationOperation, AnnotationGroup,
}
use dynamic_annotation_contr.Validator.{AnnotationValidator, validate_annotations}
use dynamic_annotation_contr.Operation.{
  Policies, validate_annotation_operation, validate_operations, validate_annotation_groups,
}
use dynamic_annotation_contr.Schedule.{
  Cron, validate_schedule, validate_date_time_schedule, validate_cron_schedule,
}
use dynamic_annotation_contr.RuleChecks.{
  validate_conflict_resolution, is_supported_type, unsupported_resource_types,
  validate_resource_types, validate_legacy_annotations, check_operation_templates,
  check_group_templates, validate_rule_groups, validate_annotations_config, validate_datetime,
  validate_cron, validate_schedule_config, validate_rule,
}

-- A schedule that the parser accepts is accepted by the controller.
pub validate_schedule_config-parsed :
    {S : Type 0} (cron : Cron S) (s : ScheduleConfig)
    → validate_schedule cron s ≡ none
    → validate_schedule_config s ≡ none
unfolding validate_schedule validate_date_time_schedule validate_cron_schedule
    validate_schedule_config validate_datetime validate_cron
validate_schedule_config-parsed cron s h = ground arith

operation_templates :
    (rm : Policies) (group : Bytes) (ops : List AnnotationOperation)
    → validate_operations rm ops ≡ none
    → check_operation_templates group ops ≡ none
unfolding check_operation_templates validate_operations validate_annotation_operation
operation_templates rm group [] h = ground arith
operation_templates rm group (op ∷ ops) h = ground (arith, operation_templates rm group ops)

-- Groups that the resource manager accepts have valid templates: the second check of the templates,
-- by the controller, finds nothing.
group_templates :
    (rm : Policies) (gs : List AnnotationGroup)
    → validate_annotation_groups rm gs ≡ none
    → check_group_templates gs ≡ none
unfolding check_group_templates validate_annotation_groups
group_templates rm [] h = ground arith
group_templates rm (g ∷ gs) h =
    ground (arith, operation_templates rm g.name g.operations, group_templates rm gs)

supported_types :
    (types : List Bytes)
    → is_empty (unsupported_resource_types types) ≡ true
    → All (λ t. is_supported_type t ≡ true) types
unfolding unsupported_resource_types keep
supported_types [] h = tt
supported_types (t ∷ ts) h = ground (arith, supported_types ts)

-- An accepted rule has supported resource types only, and either annotations that the resource
-- manager's policy accepts or groups that it accepts, not both.
validate_rule_lem :
    (rm : Policies) (security : Option AnnotationValidator) (rule : Rule)
    → validate_rule rm security rule ≡ none
    → All (λ t. is_supported_type t ≡ true) rule.spec.target_resources
      × (((rule.spec.annotations ≢ [])
            × (rule.spec.annotation_groups ≡ [])
            × (validate_annotations rm.validator rule.spec.annotations ≡ none))
          ⊎ ((rule.spec.annotations ≡ [])
              × (rule.spec.annotation_groups ≢ [])
              × (validate_annotation_groups rm rule.spec.annotation_groups ≡ none)))
unfolding validate_rule validate_resource_types validate_annotations_config
    validate_legacy_annotations validate_rule_groups
validate_rule_lem rm security rule h = ground (arith, supported_types rule.spec.target_resources)

-- What the configured policy decides: with it a rule is accepted exactly if it is accepted without
-- it and has annotation groups, of which the policy is not asked, or legacy annotations that the
-- policy accepts. So it admits nothing that the resource manager's own policy rejects.
pub validate_rule_configured :
    (rm : Policies) (security : AnnotationValidator) (rule : Rule)
    → (validate_rule rm (some security) rule ≡ none) ↔ (
        (validate_rule rm none rule ≡ none)
        × ((rule.spec.annotation_groups ≢ [])
            ⊎ (validate_annotations security rule.spec.annotations ≡ none)))
unfolding validate_rule validate_resource_types validate_annotations_config
    validate_legacy_annotations
validate_rule_configured rm security rule = (λ h. (ground arith, ground arith), λ h. ground arith)

-- The validation does not look at the status.
pub validate_rule-status :
    (rm : Policies) (security : Option AnnotationValidator) (rule : Rule) (status : RuleStatus)
    → validate_rule rm security (record rule { status = status }) ≡ validate_rule rm security rule
unfolding validate_rule validate_resource_types validate_annotations_config
    validate_legacy_annotations validate_rule_groups validate_conflict_resolution
validate_rule-status rm security rule status = refl
