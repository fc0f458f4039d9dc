-- ===== src/Manager/Groups.antt =====
-- Annotation groups: the operations of a group on one resource, and the loop over the resources.
pub mod Keys
pub mod Together
use mathlib.Core.List.{map}
use dynamic_annotation_contr.Base.{
  ltb, ℕ, ◌+◌, Bool, true, false, not, ◌&&◌, Option, none, some, List, [], ◌∷◌, ◌++◌, if◌then◌else◌,
  Bytes, any, Assoc, lookup, delete,
}
use dynamic_annotation_contr.Api.{Object, AnnotationOperation, AnnotationGroup}
use dynamic_annotation_contr.Client.{Client}
use dynamic_annotation_contr.Template.{TemplateContext, some_or_nil}
use dynamic_annotation_contr.Tracking.{
  untrack_annotation_application, was_annotation_applied_by_rule,
}
use dynamic_annotation_contr.Operation.{
  Policies, OperationResult, OperationError, apply_annotation_operations,
}
use dynamic_annotation_contr.Manager.Retry.{UpdateError, update_resource_with_retry}

-- The `Error` of a group: of its first failed operation, or of the update.
pub data GroupFailure (E : Type 0) : Type 0 where
  no_error : GroupFailure E
  operation_failed : OperationError → GroupFailure E
  update_failed : UpdateError E → GroupFailure E
  atomic_failed : Bytes → Bytes → Bytes → GroupFailure E → GroupFailure E

-- The `Error` of one operation once the update of its resource has been tried.
pub data OutcomeError (E : Type 0) : Type 0 where
  of_operation : OperationError → OutcomeError E
  of_update : UpdateError E → OutcomeError E

pub record Outcome (E : Type 0) : Type 0 where
  pub operation : OperationResult
  pub success : Bool
  pub error : Option (OutcomeError E)

-- AnnotationGroupResult
pub record GroupResult (E : Type 0) : Type 0 where
  pub group_name : Bytes
  pub success : Bool
  pub operations : List (Outcome E)
  pub error : GroupFailure E
  pub resources_affected : ℕ

-- the error of the first operation that has failed
abbrev first_error : {E : Type 0} → List OperationResult → GroupFailure E
first_error [] = no_error
first_error (r ∷ rs) = elim r.error [ none ↦ first_error rs | some e ↦ operation_failed e ]

abbrev of_result : {E : Type 0} → OperationResult → Outcome E
of_result r = record {
  operation = r;
  success = r.success;
  error = elim r.error [ none ↦ none | some e ↦ some (of_operation e) ];
}

-- the loop that marks all operations as failed
abbrev mark_failed : {E : Type 0} → UpdateError E → Outcome E → Outcome E
mark_failed e r = if r.success then record r { success = false; error = some (of_update e) } else r

-- What `sort.Slice` does to a slice under the test `a.Priority > b.Priority`. It promises an order of
-- the same elements, not which one of two equal elements stands first, so it is a parameter.
abbrev pub SortSlice : Type 0
SortSlice = List AnnotationOperation → List AnnotationOperation

-- What the result of one more resource adds to the result of a group.
unfoldable pub absorb : {E : Type 0} → GroupResult E → GroupResult E → GroupResult E
absorb result r =
    if r.success
    then record result {
      operations = result.operations ++ r.operations;
      resources_affected = result.resources_affected + 1;
    }
    else record result {
      operations = result.operations ++ r.operations;
      success = false;
      error = elim result.error [ no_error ↦ r.error | e ↦ e ];
    }

module _ {W E : Type 0} (client : Client W E) (sort_slice : SortSlice) (rm : Policies) where
  -- applyAnnotationOperationsToResource
  pub apply_annotation_operations_to_resource :
      Object → List AnnotationOperation → Bytes → TemplateContext → Bytes → W → GroupResult E × W
  apply_annotation_operations_to_resource resource operations rule_id ctx resolution w =
      let (results, annotations) =
        apply_annotation_operations rm (some_or_nil resource.annotations) (sort_slice operations)
          rule_id ctx resolution in
      let has_errors = any (λ r. not r.success) results in
      let result : GroupResult E = record {
        group_name = [];
        success = not has_errors;
        operations = map of_result results;
        error = first_error results;
        resources_affected = 0;
      } in
      if any (λ r. r.success) results && not has_errors
      then (let (failure, w') =
            update_resource_with_retry client (record resource { annotations = some annotations })
              resource w in
          elim failure [
            | none ↦ (result, w')
            | some e ↦ (
              record result {
                success = false;
                error = update_failed e;
                operations = map (mark_failed e) result.operations;
              },
              w',
            )
          ])
      else (result, w)

  -- the loop of applyAnnotationGroup, from the result so far
  unfoldable pub apply_to_resources :
      AnnotationGroup
      → List Object
      → Bytes
      → TemplateContext
      → Bytes
      → GroupResult E
      → W
      → GroupResult E × W
  apply_to_resources group [] rule_id ctx resolution result w = (result, w)
  apply_to_resources group (resource ∷ rest) rule_id ctx resolution result w =
      let (r, w') =
        apply_annotation_operations_to_resource resource group.operations rule_id
          (record ctx { resource = some resource }) resolution w in
      let next = apply_to_resources group rest rule_id ctx resolution (absorb result r) w' in
      if not r.success && group.atomic
      then (
        record result {
          operations = result.operations ++ r.operations;
          success = false;
          error = atomic_failed group.name resource.namespace resource.name r.error;
        },
        w',
      )
      else next

  unfoldable pub apply_annotation_group :
      List Object → AnnotationGroup → Bytes → TemplateContext → Bytes → W → GroupResult E × W
  apply_annotation_group resources group rule_id ctx resolution w =
      apply_to_resources group resources rule_id ctx resolution
        (record {
          group_name = group.name;
          success = true;
          operations = [];
          error = no_error;
          resources_affected = 0;
        })
        w

  -- the loop of ApplyAnnotationGroups; a failed atomic group only leaves a line in the log
  unfoldable pub apply_groups :
      List Object
      → List AnnotationGroup
      → Bytes
      → TemplateContext
      → Bytes
      → W
      → List (GroupResult E) × W
  apply_groups resources [] rule_id ctx resolution w = ([], w)
  apply_groups resources (group ∷ groups) rule_id ctx resolution w =
      let (result, w₁) = apply_annotation_group resources group rule_id ctx resolution w in
      let (results, w₂) = apply_groups resources groups rule_id ctx resolution w₁ in
      (result ∷ results, w₂)

-- The loop of removeAnnotationKeysFromResource: the annotations that are left, and the count.
pub remove_keys : Assoc Bytes → List Bytes → Bytes → ℕ → Assoc Bytes × ℕ
remove_keys annotations [] rule_id count = (annotations, count)
remove_keys annotations (key ∷ keys) rule_id count =
    let applied = was_annotation_applied_by_rule annotations key rule_id in
    let there : Bool = elim (lookup key annotations) [ none ↦ false | some v ↦ true ] in
    remove_keys
      (if applied && there
        then untrack_annotation_application (delete key annotations) key rule_id
        else annotations)
      keys rule_id (if applied && there then count + 1 else count)

module _ {W E : Type 0} (client : Client W E) where
  unfoldable pub remove_annotation_keys_from_resource :
      Object → List Bytes → Bytes → W → Option (UpdateError E) × W
  remove_annotation_keys_from_resource resource keys rule_id w = elim resource.annotations [
    | none ↦ (none, w)
    | some current ↦
        let (annotations, count) = remove_keys current keys rule_id 0 in
        if ltb 0 count
        then update_resource_with_retry client (record resource { annotations = some annotations })
            resource w
        else (none, w)
  ]

  -- the loop of removeAnnotationGroup, from the result so far
  unfoldable pub remove_from_resources :
      List Object → List Bytes → Bytes → GroupResult E → W → GroupResult E × W
  remove_from_resources [] keys rule_id result w = (result, w)
  remove_from_resources (resource ∷ rest) keys rule_id result w =
      let (failure, w') = remove_annotation_keys_from_resource resource keys rule_id w in
      remove_from_resources rest keys rule_id
        (elim failure [
          | none ↦ record result { resources_affected = result.resources_affected + 1 }
          | some e ↦ record result {
            success = false;
            error = elim result.error [ no_error ↦ update_failed e | first ↦ first ];
          }
        ])
        w'

  unfoldable pub remove_annotation_group :
      List Object → AnnotationGroup → Bytes → W → GroupResult E × W
  remove_annotation_group resources group rule_id w =
      remove_from_resources resources (map (λ op. op.key) group.operations) rule_id
        (record {
          group_name = group.name;
          success = true;
          operations = [];
          error = no_error;
          resources_affected = 0;
        })
        w

  -- the loop of RemoveAnnotationGroups
  unfoldable pub remove_groups :
      List Object → List AnnotationGroup → Bytes → W → List (GroupResult E) × W
  remove_groups resources [] rule_id w = ([], w)
  remove_groups resources (group ∷ groups) rule_id w =
      let (result, w₁) = remove_annotation_group resources group rule_id w in
      let (results, w₂) = remove_groups resources groups rule_id w₁ in (result ∷ results, w₂)
