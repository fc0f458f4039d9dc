-- ===== src/RuleChecks.antt =====
-- internal/controller/annotationschedulerule_controller.go: the validation of a rule, and the types
-- of resources that internal/resource/manager.go supports.
pub mod Accepted
use dynamic_annotation_contr.Base.{
  ℕ, ◌+◌, ◌≡◌, Bool, true, false, not, ◌&&◌, Option, none, some, List, [], ◌∷◌, ◌++◌, if◌then◌else◌,
  ltb, is_empty, keep, any, Bytes, codes, str_eq, Assoc,
}
use dynamic_annotation_contr.Api.{Rule, ScheduleConfig, AnnotationOperation, AnnotationGroup}
use dynamic_annotation_contr.Validator.{
  AnnotationValidator, AnnotationError, validate_annotations, fail_if, ◌<|>◌,
}
use dynamic_annotation_contr.Template.{TemplateError, validate_template}
use dynamic_annotation_contr.Operation.{Policies, GroupError, validate_annotation_groups}

pub data RuleError : Type 0 where
  unsupported_types : List Bytes → RuleError
  no_annotations both_kinds : RuleError
  security_failed invalid_annotations : AnnotationError → RuleError
  invalid_groups : GroupError → RuleError
  invalid_template : Bytes → Bytes → TemplateError → RuleError
  invalid_resolution : Bytes → RuleError
  empty_variable : RuleError
  invalid_variable : Bytes → TemplateError → RuleError
  no_times end_before_start cron_required action_required bad_action bad_type : RuleError

unfoldable pub is_supported_type : Bytes → Bool
is_supported_type t =
    any (λ s. str_eq s t)
      (codes "pods" ∷ codes "deployments" ∷ codes "statefulsets" ∷ codes "daemonsets" ∷ [])

-- ResourceManager.ValidateResourceTypes: the types that are not supported
unfoldable get_supported_resource_types : List Bytes
get_supported_resource_types =
    codes "pods" ∷ codes "deployments" ∷ codes "statefulsets" ∷ codes "daemonsets" ∷ []

unfoldable pub unsupported_resource_types : List Bytes → List Bytes
unsupported_resource_types types = keep (λ t. not (is_supported_type t)) types

unfoldable pub validate_resource_types : Rule → Option RuleError
validate_resource_types rule =
    let unsupported = unsupported_resource_types rule.spec.target_resources in
    fail_if (not (is_empty unsupported)) (unsupported_types unsupported)

-- `security` is the security validator, or none for nil.
unfoldable pub validate_legacy_annotations :
    Policies → Option AnnotationValidator → Rule → Option RuleError
validate_legacy_annotations rm security rule =
    elim security [
      | none ↦ none
      | some sv ↦ elim (validate_annotations sv rule.spec.annotations) [
        | none ↦ none
        | some e ↦ some (security_failed e)
      ]
    ]
    <|> elim (validate_annotations rm.validator rule.spec.annotations) [
      | none ↦ none
      | some e ↦ some (invalid_annotations e)
    ]

-- the loops over the operations and over the groups
check_operation_templates : Bytes → List AnnotationOperation → Option RuleError
check_operation_templates group [] = none
check_operation_templates group (op ∷ ops) =
    (if op.template && not (is_empty op.value)
      then (elim (validate_template op.value) [
        | none ↦ none
        | some e ↦ some (invalid_template group op.key e)
      ])
      else none)
    <|> check_operation_templates group ops

check_group_templates : List AnnotationGroup → Option RuleError
check_group_templates [] = none
check_group_templates (g ∷ gs) =
    check_operation_templates g.name g.operations <|> check_group_templates gs

pub validate_rule_groups : Policies → Rule → Option RuleError
validate_rule_groups rm rule = elim (validate_annotation_groups rm rule.spec.annotation_groups) [
  | some e ↦ some (invalid_groups e)
  | none ↦ check_group_templates rule.spec.annotation_groups
]

unfoldable pub validate_annotations_config :
    Policies → Option AnnotationValidator → Rule → Option RuleError
validate_annotations_config rm security rule =
    let has_legacy = not (is_empty rule.spec.annotations) in
    let has_groups = not (is_empty rule.spec.annotation_groups) in
    if not has_legacy && not has_groups
    then some no_annotations
    else if has_legacy && has_groups
    then some both_kinds
    else if has_legacy
    then validate_legacy_annotations rm security rule
    else if has_groups
    then validate_rule_groups rm rule
    else none

unfoldable pub validate_conflict_resolution : Rule → Option RuleError
validate_conflict_resolution rule =
    fail_if
      (not (is_empty rule.spec.conflict_resolution)
        && not (
            any (λ s. str_eq rule.spec.conflict_resolution s)
              (codes "priority" ∷ codes "timestamp" ∷ codes "skip" ∷ [])))
      (invalid_resolution rule.spec.conflict_resolution)

unfoldable pub check_variables : Assoc Bytes → Option RuleError
check_variables [] = none
check_variables ((key, value) ∷ m) =
    let rest = check_variables m in
    if is_empty key
    then some empty_variable
    else elim (validate_template (b'$' ∷ b'{' ∷ (key ++ b'}' ∷ []))) [
      | some e ↦ some (invalid_variable key e)
      | none ↦ rest
    ]

validate_datetime : ScheduleConfig → Option RuleError
validate_datetime s = elim s.start_time [
  | none ↦ elim s.end_time [ none ↦ some no_times | some end ↦ none ]
  | some start ↦ elim s.end_time [
    | none ↦ none
    | some end ↦ fail_if (ltb end start) end_before_start
  ]
]

validate_cron : ScheduleConfig → Option RuleError
validate_cron s =
    if is_empty s.cron_expression
    then some cron_required
    else if is_empty s.action
    then some action_required
    else if not (str_eq s.action (codes "apply")) && not (str_eq s.action (codes "remove"))
    then some bad_action
    else none

pub validate_schedule_config : ScheduleConfig → Option RuleError
validate_schedule_config s =
    if str_eq s.type (codes "datetime")
    then validate_datetime s
    else if str_eq s.type (codes "cron")
    then validate_cron s
    else some bad_type

unfoldable pub validate_rule : Policies → Option AnnotationValidator → Rule → Option RuleError
validate_rule rm security rule =
    validate_resource_types rule
    <|> validate_annotations_config rm security rule
    <|> validate_conflict_resolution rule
    <|> check_variables rule.spec.template_variables
    <|> validate_schedule_config rule.spec.schedule
