-- ===== src/Examples/Operations.antt =====
-- Applications of the theorems on operations and on tracking.
use dynamic_annotation_contr.Base.{
  str_eq-ne, sym, if◌then◌else◌, ◌&&◌, str_eq_self, any, contains, has_prefix, to_lower, ◌≡◌, ◌≢◌,
  ◌⊎◌, refl, true, false, none, some, [], ◌∷◌, arith, Bytes, codes, str_eq, Assoc, lookup,
}
use dynamic_annotation_contr.Validator.{
  check_allowed, check_controls, check_denied, check_patterns, split_key, validate_dns_label,
  validate_dns_subdomain, validate_prefix, validate_value_content, validate_annotation_key,
  validate_annotation_value,
}
use dynamic_annotation_contr.Validator.Policy.{validate_annotation_key-IsKeyText}
use dynamic_annotation_contr.Tracking.{
  tracking_key, format_keys, parse_keys, tracked_keys, was_annotation_applied_by_rule,
}
use dynamic_annotation_contr.Tracking.Text.{IsKeyText, parse_keys-format_keys}
use dynamic_annotation_contr.Tracking.Laws.{IsTracked}
use dynamic_annotation_contr.Operation.{
  perform, apply_value, processed_value, apply_annotation_operation, should_override_annotation,
}
use dynamic_annotation_contr.Operation.Laws.{apply_operation_lem, operation_frame}
use dynamic_annotation_contr.Operation.Removal.{as_removal, remove_operation_lem, remove-apply}
use dynamic_annotation_contr.Manager.Groups.{remove_keys}
use dynamic_annotation_contr.Manager.Groups.Keys.{lookup-remove_keys}
use dynamic_annotation_contr.Examples.{
  policies, validator, managed_key, rule_id, context, operation,
}

abbrev empty_map : Assoc Bytes
empty_map = []

-- the annotations after the operation
abbrev tracked : Assoc Bytes
tracked = (managed_key, codes "v1") ∷ (tracking_key rule_id, codes "[a.b/m-x]") ∷ []

key_accepted : validate_annotation_key validator managed_key ≡ none
unfolding validate_annotation_key check_denied has_prefix check_allowed any validate_dns_subdomain
    validate_prefix split_key validate_dns_label
key_accepted = refl

value_accepted :
    validate_annotation_value validator (processed_value policies operation context) ≡ none
unfolding validate_annotation_value processed_value validate_value_content check_patterns contains
    to_lower check_controls
value_accepted = refl

nothing-IsTracked : IsTracked [] rule_id
unfolding tracked_keys lookup
nothing-IsTracked = tt

managed_key-IsKeyText : IsKeyText managed_key
managed_key-IsKeyText = validate_annotation_key-IsKeyText validator managed_key key_accepted

tracked-IsTracked : IsTracked tracked rule_id
unfolding tracked_keys lookup tracking_key str_eq parse_keys
tracked-IsTracked = (managed_key-IsKeyText, tt)

managed_key-ne : managed_key ≢ tracking_key rule_id
unfolding tracking_key
managed_key-ne e = ground arith

not_skipped :
    (apply_annotation_operation policies empty_map operation rule_id context []).0.skipped ≡ false
unfolding apply_annotation_operation perform apply_value lookup
not_skipped = ground (arith, key_accepted, value_accepted, str_eq_self (codes "apply"))

apply_operation_lem_example :
    let (result, after) = apply_annotation_operation policies [] operation rule_id context [] in
    (result.success ≡ true)
    × ((result.skipped ≡ false)
          × (lookup managed_key after ≡ some (processed_value policies operation context))
          × (was_annotation_applied_by_rule after managed_key rule_id ≡ true)
        ⊎ ((result.skipped ≡ true)
            × (after ≡ [])
            × (should_override_annotation [] ≡ false)
            × (lookup managed_key empty_map ≢ none)
            × (lookup managed_key empty_map ≢ some (processed_value policies operation context))))
apply_operation_lem_example =
    apply_operation_lem policies [] operation rule_id context [] refl key_accepted value_accepted
      nothing-IsTracked managed_key-ne

remove_operation_lem_example :
    let (result, after) =
      apply_annotation_operation policies tracked (as_removal operation) rule_id context [] in
    (result.success ≡ true)
    × ((result.skipped ≡ false)
          × (lookup managed_key tracked ≢ none)
          × (was_annotation_applied_by_rule tracked managed_key rule_id ≡ true)
          × (lookup managed_key after ≡ none)
          × (was_annotation_applied_by_rule after managed_key rule_id ≡ false)
        ⊎ ((result.skipped ≡ true)
            × (after ≡ tracked)
            × ((lookup managed_key tracked ≡ none)
                ⊎ (was_annotation_applied_by_rule tracked managed_key rule_id ≡ false))))
unfolding processed_value
remove_operation_lem_example =
    remove_operation_lem policies tracked (as_removal operation) rule_id context [] refl
      key_accepted value_accepted tracked-IsTracked managed_key-ne

remove-apply_example :
    let applied = (apply_annotation_operation policies [] operation rule_id context []).1 in
    let (result, after) =
      apply_annotation_operation policies applied (as_removal operation) rule_id context [] in
    (result.success ≡ true)
    × (result.skipped ≡ false)
    × (lookup managed_key after ≡ none)
    × (was_annotation_applied_by_rule after managed_key rule_id ≡ false)
remove-apply_example =
    remove-apply policies [] operation rule_id context [] refl key_accepted value_accepted
      nothing-IsTracked managed_key-ne not_skipped

operation_frame_example :
    lookup
      (codes "other")
      (apply_annotation_operation policies tracked operation rule_id context []).1
    ≡ lookup (codes "other") tracked
operation_frame_example =
    operation_frame policies tracked operation rule_id context [] (codes "other")
      (unfold str_eq in refl) (unfold str_eq in unfold tracking_key in refl)

parse_keys-format_keys_example :
    parse_keys (format_keys (managed_key ∷ managed_key ∷ [])) ≡ managed_key ∷ managed_key ∷ []
parse_keys-format_keys_example =
    parse_keys-format_keys (managed_key ∷ managed_key ∷ [])
      (managed_key-IsKeyText, (managed_key-IsKeyText, tt))

lookup-remove_keys_example :
    lookup managed_key (remove_keys tracked (managed_key ∷ []) rule_id 0).0 ≡ (
      if was_annotation_applied_by_rule tracked managed_key rule_id
        && any (λ k. str_eq k managed_key) (managed_key ∷ [])
      then none
      else lookup managed_key tracked)
lookup-remove_keys_example =
    lookup-remove_keys rule_id managed_key (managed_key ∷ []) tracked 0
      (str_eq-ne _ _ (λ e. managed_key-ne (sym e))) (managed_key-ne, tt) tracked-IsTracked
