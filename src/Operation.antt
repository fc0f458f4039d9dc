-- ===== src/Operation.antt =====
-- internal/resource/manager.go: one operation of an annotation group, on the annotations of one
-- resource. A function that writes to the map returns the new map.
pub mod Laws
pub mod Removal
use dynamic_annotation_contr.Base.{
  Bool, true, false, not, ◌&&◌, Option, none, some, Bytes, codes, if◌then◌else◌, str_eq, is_empty,
  Assoc, lookup, insert, delete, ℤ, List, [], ◌∷◌, length, ltb, ltb_ℤ,
}
use dynamic_annotation_contr.Api.{AnnotationOperation, AnnotationGroup}
use dynamic_annotation_contr.Validator.{
  AnnotationValidator, KeyError, ValueError, validate_annotation_key, validate_annotation_value,
}
use dynamic_annotation_contr.Template.{
  TemplateContext, TemplateError, is_template, process_template, validate_template,
}
use dynamic_annotation_contr.Tracking.{
  track_annotation_application, untrack_annotation_application, was_annotation_applied_by_rule,
}

-- The parts of `ResourceManager` that an operation reads.
pub record Policies : Type 0 where
  pub validator : AnnotationValidator
  pub builtin_vars : Assoc Bytes

pub data OperationError : Type 0 where
  invalid_key : KeyError → OperationError
  invalid_value : ValueError → OperationError
  unknown_action : Bytes → OperationError

-- the texts of `Reason`
pub data Reason : Type 0 where
  no_reason annotation_removed not_applied_by_rule does_not_exist : Reason
  override_prevented : Bytes → Bytes → Reason

-- AnnotationOperationResult
pub record OperationResult : Type 0 where
  pub key : Bytes
  pub success : Bool
  pub error : Option OperationError
  pub skipped : Bool
  pub reason : Reason
  pub old_value : Bytes
  pub new_value : Bytes
  pub priority : ℤ

abbrev value_or_empty : Option Bytes → Bytes
value_or_empty none = []
value_or_empty (some v) = v

-- `ConflictResolutionSkip` alone keeps what is there
unfoldable pub should_override_annotation : Bytes → Bool
should_override_annotation resolution = not (str_eq resolution (codes "skip"))

-- the value after the template, if the operation asks for it
unfoldable pub processed_value : Policies → AnnotationOperation → TemplateContext → Bytes
processed_value rm op ctx =
    if op.template && is_template op.value
    then process_template rm.builtin_vars op.value ctx
    else op.value

-- the action that an empty text stands for
abbrev action_or_apply : Bytes → Bytes
action_or_apply a = if is_empty a then codes "apply" else a

module _ (annotations : Assoc Bytes) (key rule_id : Bytes) (result : OperationResult) where
  -- case "apply"
  unfoldable pub apply_value : Bytes → Bytes → Option Bytes → OperationResult × Assoc Bytes
  apply_value value resolution current =
      let blocked : Bool = elim current [
        | none ↦ false
        | some old ↦ not (str_eq old value) && not (should_override_annotation resolution)
      ] in
      if blocked
      then (
        record result {
          skipped = true;
          reason = override_prevented (value_or_empty current) value;
          success = true;
        },
        annotations,
      )
      else (
        record result { new_value = value; success = true },
        track_annotation_application (insert key value annotations) key rule_id,
      )

  -- case "remove"
  pub remove_value : Option Bytes → OperationResult × Assoc Bytes
  remove_value none =
      (record result { skipped = true; reason = does_not_exist; success = true }, annotations)
  remove_value (some old) =
      if was_annotation_applied_by_rule annotations key rule_id
      then (
        record result { success = true; reason = annotation_removed },
        untrack_annotation_application (delete key annotations) key rule_id,
      )
      else (
        record result { skipped = true; reason = not_applied_by_rule; success = true },
        annotations,
      )

  -- the `switch` on the action
  unfoldable pub perform : Bytes → Bytes → Bytes → OperationResult × Assoc Bytes
  perform action value resolution =
      if str_eq action (codes "apply")
      then apply_value value resolution (lookup key annotations)
      else if str_eq action (codes "remove")
      then remove_value (lookup key annotations)
      else (record result { error = some (unknown_action action) }, annotations)

unfoldable pub apply_annotation_operation :
    Policies
    → Assoc Bytes
    → AnnotationOperation
    → Bytes
    → TemplateContext
    → Bytes
    → OperationResult × Assoc Bytes
apply_annotation_operation rm annotations op rule_id ctx resolution =
    let result : OperationResult = record {
      key = op.key;
      success = false;
      error = none;
      skipped = false;
      reason = no_reason;
      old_value = [];
      new_value = [];
      priority = op.priority;
    } in
    let value = processed_value rm op ctx in
    elim (validate_annotation_key rm.validator op.key) [
      | some e ↦ (record result { error = some (invalid_key e) }, annotations)
      | none ↦ elim (validate_annotation_value rm.validator value) [
        | some e ↦ (record result { error = some (invalid_value e) }, annotations)
        | none ↦
            perform annotations op.key rule_id
              (record result { old_value = value_or_empty (lookup op.key annotations) })
              (action_or_apply op.action) value resolution
      ]
    ]

-- The loop over the sorted operations: the results in order, and the annotations at the end.
unfoldable pub apply_annotation_operations :
    Policies
    → Assoc Bytes
    → List AnnotationOperation
    → Bytes
    → TemplateContext
    → Bytes
    → List OperationResult × Assoc Bytes
apply_annotation_operations rm annotations [] rule_id ctx resolution = ([], annotations)
apply_annotation_operations rm annotations (op ∷ ops) rule_id ctx resolution =
    let (result, after) = apply_annotation_operation rm annotations op rule_id ctx resolution in
    let (results, final) = apply_annotation_operations rm after ops rule_id ctx resolution in
    (result ∷ results, final)

pub data GroupError : Type 0 where
  empty_group_name no_operations empty_operation_key : GroupError
  bad_operation_key : KeyError → GroupError
  bad_action : Bytes → GroupError
  bad_template : TemplateError → GroupError

-- validateAnnotationOperation
unfoldable pub validate_annotation_operation : Policies → AnnotationOperation → Option GroupError
validate_annotation_operation rm op =
    if is_empty op.key
    then some empty_operation_key
    else elim (validate_annotation_key rm.validator op.key) [
      | some e ↦ some (bad_operation_key e)
      | none ↦
          if not (is_empty op.action)
            && (not (str_eq op.action (codes "apply")) && not (str_eq op.action (codes "remove")))
          then some (bad_action op.action)
          else if op.template && not (is_empty op.value)
          then (elim (validate_template op.value) [ none ↦ none | some e ↦ some (bad_template e) ])
          else none
    ]

unfoldable pub validate_operations : Policies → List AnnotationOperation → Option GroupError
validate_operations rm [] = none
validate_operations rm (op ∷ ops) = elim (validate_annotation_operation rm op) [
  | some e ↦ some e
  | none ↦ validate_operations rm ops
]

unfoldable pub validate_annotation_groups : Policies → List AnnotationGroup → Option GroupError
validate_annotation_groups rm [] = none
validate_annotation_groups rm (g ∷ gs) =
    let rest = validate_annotation_groups rm gs in
    if is_empty g.name
    then some empty_group_name
    else if is_empty g.operations
    then some no_operations
    else elim (validate_operations rm g.operations) [ some e ↦ some e | none ↦ rest ]
