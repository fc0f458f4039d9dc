-- ===== src/Operation/Removal.antt =====
-- What a removal changes, and that it undoes what the same rule applied.
use dynamic_annotation_contr.Base.{
  [], ◌≡◌, ◌≢◌, ◌⊎◌, ◌∙◌, refl, sym, true, false, none, Bytes, codes, arith, str_eq, str_eq_self,
  str_eq-ne, Assoc, lookup, delete, lookup-delete,
}
use dynamic_annotation_contr.Api.{AnnotationOperation}
use dynamic_annotation_contr.Validator.{validate_annotation_key, validate_annotation_value}
use dynamic_annotation_contr.Template.{TemplateContext}
use dynamic_annotation_contr.Tracking.{
  tracking_key, untrack_annotation_application, was_annotation_applied_by_rule,
}
use dynamic_annotation_contr.Tracking.Laws.{
  IsTracked, lookup-untrack, was_applied-untrack, tracked_keys-write,
}
use dynamic_annotation_contr.Operation.{
  Policies, processed_value, action_or_apply, remove_value, perform, apply_annotation_operation,
}
use dynamic_annotation_contr.Operation.Laws.{apply_operation_lem, operation-IsTracked}

-- What an operation with the action "remove" leaves behind: a key that the rule has applied and
-- that is there is gone and no longer tracked; in every other case the operation is skipped and
-- nothing changes. Either way it succeeds. (The policy accepts key and value, the tracking
-- annotation of the rule, if there is one, lists keys that a validator lets pass, and the key is
-- not that annotation.)
pub remove_operation_lem :
    (rm : Policies) (m : Assoc Bytes) (op : AnnotationOperation) (rule_id : Bytes)
    (ctx : TemplateContext) (resolution : Bytes)
    → action_or_apply op.action ≡ codes "remove"
    → validate_annotation_key rm.validator op.key ≡ none
    → validate_annotation_value rm.validator (processed_value rm op ctx) ≡ none
    → IsTracked m rule_id
    → op.key ≢ tracking_key rule_id
    → let (result, after) = apply_annotation_operation rm m op rule_id ctx resolution in
      (result.success ≡ true)
      × ((result.skipped ≡ false)
            × (lookup op.key m ≢ none)
            × (was_annotation_applied_by_rule m op.key rule_id ≡ true)
            × (lookup op.key after ≡ none)
            × (was_annotation_applied_by_rule after op.key rule_id ≡ false)
          ⊎ ((result.skipped ≡ true)
              × (after ≡ m)
              × ((lookup op.key m ≡ none)
                  ⊎ (was_annotation_applied_by_rule m op.key rule_id ≡ false))))
unfolding apply_annotation_operation perform remove_value
remove_operation_lem rm m op rule_id ctx resolution ha hk hv ht hne =
    ground (arith, ha, str_eq_self (codes "remove"), apply_ne, gone, untracked)
  where
    apply_ne : str_eq (codes "remove") (codes "apply") ≡ false
    apply_ne = unfold str_eq in refl

    m' : Assoc Bytes
    m' = delete op.key m

    gone : lookup op.key (untrack_annotation_application m' op.key rule_id) ≡ none
    gone =
        lookup-untrack m' op.key op.key rule_id (str_eq-ne _ _ (λ e. hne (sym e)))
        ∙ lookup-delete op.key op.key m
        ∙ rw (str_eq_self op.key) (λ i. none)

    untracked :
        was_annotation_applied_by_rule
          (untrack_annotation_application m' op.key rule_id)
          op.key
          rule_id
        ≡ false
    untracked =
        was_applied-untrack m' op.key op.key rule_id
          (rw (tracked_keys-write m op.key [] rule_id hne).1 ht)
        ∙ rw (str_eq_self op.key) (λ i. false)

-- The same operation with the action "remove".
abbrev pub as_removal : AnnotationOperation → AnnotationOperation
as_removal op = record op { action = codes "remove" }

-- Applying a key and then removing it, by the same rule, leaves the key absent and untracked; the
-- removal succeeds and is not skipped. (The policy accepts key and value, the apply was not
-- skipped, the tracking annotation, if there is one, lists keys that a validator lets pass, and
-- the key is not that annotation.)
pub remove-apply :
    (rm : Policies) (m : Assoc Bytes) (op : AnnotationOperation) (rule_id : Bytes)
    (ctx : TemplateContext) (resolution : Bytes)
    → action_or_apply op.action ≡ codes "apply"
    → validate_annotation_key rm.validator op.key ≡ none
    → validate_annotation_value rm.validator (processed_value rm op ctx) ≡ none
    → IsTracked m rule_id
    → op.key ≢ tracking_key rule_id
    → (apply_annotation_operation rm m op rule_id ctx resolution).0.skipped ≡ false
    → let applied = (apply_annotation_operation rm m op rule_id ctx resolution).1 in
      let (result, after) =
        apply_annotation_operation rm applied (as_removal op) rule_id ctx resolution in
      (result.success ≡ true)
      × (result.skipped ≡ false)
      × (lookup op.key after ≡ none)
      × (was_annotation_applied_by_rule after op.key rule_id ≡ false)
unfolding processed_value
remove-apply rm m op rule_id ctx resolution ha hk hv ht hne hs = ground (
  arith,
  apply_operation_lem rm m op rule_id ctx resolution ha hk hv ht hne,
  remove_operation_lem rm (apply_annotation_operation rm m op rule_id ctx resolution).1
      (as_removal op) rule_id ctx resolution (λ i. codes "remove") hk hv
      (operation-IsTracked rm m op rule_id ctx resolution hne ht) hne,
)
