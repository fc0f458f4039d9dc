-- ===== src/Operation/Laws.antt =====
-- What one operation of a group changes.
use dynamic_annotation_contr.Base.{
  refl, inl, inr, some, Option-cases, inr, inl, some, Option-cases, none, codes, ◌≡◌, ◌≢◌,
  str_eq_self, str_eq-ne, ◌∙◌, sym, ◌⊎◌, true, false, Bytes, arith, str_eq, Assoc, lookup, insert,
  delete, lookup-insert, lookup-delete,
}
use dynamic_annotation_contr.Api.{AnnotationOperation}
use dynamic_annotation_contr.Template.{TemplateContext}
use dynamic_annotation_contr.Tracking.{tracking_key}
use dynamic_annotation_contr.Tracking.Laws.{
  untrack-IsTracked, tracked_keys-write, was_applied-track, track-IsTracked, IsTracked,
  lookup-track, lookup-untrack,
}
use dynamic_annotation_contr.Validator.Policy.{validate_annotation_key-IsKeyText}
use dynamic_annotation_contr.Operation.{
  KeyError, track_annotation_application, was_annotation_applied_by_rule, validate_annotation_value,
  validate_annotation_key, action_or_apply, should_override_annotation, Policies, processed_value,
  apply_value, remove_value, perform, apply_annotation_operation,
}

-- An operation that fails or is skipped leaves the annotations as they were; in particular one with
-- an invalid key, an invalid value or an unknown action does.
unsuccessful-unchanged :
    (rm : Policies) (m : Assoc Bytes) (op : AnnotationOperation) (rule_id : Bytes)
    (ctx : TemplateContext) (resolution : Bytes)
    → ((apply_annotation_operation rm m op rule_id ctx resolution).0.success ≡ false)
      ⊎ ((apply_annotation_operation rm m op rule_id ctx resolution).0.skipped ≡ true)
    → (apply_annotation_operation rm m op rule_id ctx resolution).1 ≡ m
unfolding apply_annotation_operation perform apply_value remove_value
unsuccessful-unchanged rm m op rule_id ctx resolution h = ground arith

-- An operation touches its own key and the tracking annotation of its rule, and nothing else.
pub operation_frame :
    (rm : Policies) (m : Assoc Bytes) (op : AnnotationOperation) (rule_id : Bytes)
    (ctx : TemplateContext) (resolution j : Bytes)
    → str_eq op.key j ≡ false
    → str_eq (tracking_key rule_id) j ≡ false
    → lookup j (apply_annotation_operation rm m op rule_id ctx resolution).1 ≡ lookup j m
unfolding apply_annotation_operation perform apply_value remove_value
operation_frame rm m op rule_id ctx resolution j hk ht = ground (
  arith,
  lookup-track (insert op.key (processed_value rm op ctx) m) op.key j rule_id ht,
  lookup-untrack (delete op.key m) op.key j rule_id ht,
  lookup-insert op.key j (processed_value rm op ctx) m,
  lookup-delete op.key j m,
)

-- What an operation with the action "apply" leaves behind: the processed value stands at the key
-- and the key is tracked for the rule; or, under the resolution "skip", a different value stood
-- there and nothing has changed. Either way it succeeds. (The policy accepts key and value, the
-- tracking annotation of the rule, if there is one, lists keys that a validator lets pass, and the
-- key is not that annotation.)
pub apply_operation_lem :
    (rm : Policies) (m : Assoc Bytes) (op : AnnotationOperation) (rule_id : Bytes)
    (ctx : TemplateContext) (resolution : Bytes)
    → action_or_apply op.action ≡ codes "apply"
    → validate_annotation_key rm.validator op.key ≡ none
    → validate_annotation_value rm.validator (processed_value rm op ctx) ≡ none
    → IsTracked m rule_id
    → op.key ≢ tracking_key rule_id
    → let (result, after) = apply_annotation_operation rm m op rule_id ctx resolution in
      (result.success ≡ true)
      × ((result.skipped ≡ false)
            × (lookup op.key after ≡ some (processed_value rm op ctx))
            × (was_annotation_applied_by_rule after op.key rule_id ≡ true)
          ⊎ ((result.skipped ≡ true)
              × (after ≡ m)
              × (should_override_annotation resolution ≡ false)
              × (lookup op.key m ≢ none)
              × (lookup op.key m ≢ some (processed_value rm op ctx))))
unfolding apply_annotation_operation perform apply_value
apply_operation_lem rm m op rule_id ctx resolution ha hk hv ht hne = ground (
  arith,
  ha,
  applied,
  stored,
  str_eq_self (codes "apply"),
  str_eq_self (processed_value rm op ctx),
)
  where
    m' : Assoc Bytes
    m' = insert op.key (processed_value rm op ctx) m

    stored :
        lookup op.key (track_annotation_application m' op.key rule_id)
        ≡ some (processed_value rm op ctx)
    stored =
        lookup-track m' op.key op.key rule_id (str_eq-ne _ _ (λ e. hne (sym e)))
        ∙ rw (lookup-insert, str_eq_self op.key) refl

    applied :
        was_annotation_applied_by_rule
          (track_annotation_application m' op.key rule_id)
          op.key
          rule_id
        ≡ true
    applied =
        was_applied-track m' op.key op.key rule_id
          (validate_annotation_key-IsKeyText rm.validator op.key hk)
          (rw (tracked_keys-write m op.key (processed_value rm op ctx) rule_id hne).0 ht)
        ∙ rw (str_eq_self op.key) (ground arith)

rejected-unchanged :
    (rm : Policies) (m : Assoc Bytes) (op : AnnotationOperation) (rule_id : Bytes)
    (ctx : TemplateContext) (resolution : Bytes) {e : KeyError}
    → validate_annotation_key rm.validator op.key ≡ some e
    → (apply_annotation_operation rm m op rule_id ctx resolution).1 ≡ m
unfolding apply_annotation_operation
rejected-unchanged rm m op rule_id ctx resolution h = ground arith

-- The tracking annotation stays one that lists keys that a validator lets pass, under every
-- operation on another key, whatever its outcome.
pub operation-IsTracked :
    (rm : Policies) (m : Assoc Bytes) (op : AnnotationOperation) (rule_id : Bytes)
    (ctx : TemplateContext) (resolution : Bytes)
    → op.key ≢ tracking_key rule_id
    → IsTracked m rule_id
    → IsTracked (apply_annotation_operation rm m op rule_id ctx resolution).1 rule_id
operation-IsTracked rm m op rule_id ctx resolution hne ht =
    elim (Option-cases (validate_annotation_key rm.validator op.key)) [
      | inl k ↦
          unfold apply_annotation_operation perform apply_value remove_value in
          ground (
            arith,
            track-IsTracked (insert op.key value m) op.key rule_id
                (validate_annotation_key-IsKeyText rm.validator op.key k)
                (rw (tracked_keys-write m op.key value rule_id hne).0 ht),
            untrack-IsTracked (delete op.key m) op.key rule_id
                (rw (tracked_keys-write m op.key value rule_id hne).1 ht),
          )
      | inr (e, k) ↦ rw (rejected-unchanged rm m op rule_id ctx resolution k) ht
    ]
  where
    value : Bytes
    value = processed_value rm op ctx
