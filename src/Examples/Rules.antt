-- ===== src/Examples/Rules.antt =====
-- Applications of the theorems on the validation and on the status of a rule.
use dynamic_annotation_contr.Base.{
  ◌↔◌, keep, any, str_eq, any, has_prefix, str_eq, to_lower, arith, ◌+◌, ◌≡◌, ◌≢◌, ◌⊎◌, refl, none,
  some, [], codes,
}
use dynamic_annotation_contr.Api.{condition_true, condition_false}
use dynamic_annotation_contr.Validator.{
  check_allowed, check_controls, check_denied, check_patterns, split_key, validate_annotation_key,
  validate_annotation_value, validate_dns_label, validate_dns_subdomain, validate_prefix,
  validate_value_content, validate_annotations,
}
use dynamic_annotation_contr.Schedule.{
  check_no_cron, validate_date_time_schedule, validate_schedule,
}
use dynamic_annotation_contr.RuleChecks.{
  validate_conflict_resolution, validate_annotations_config, validate_legacy_annotations,
  validate_resource_types, unsupported_resource_types, check_variables, validate_legacy_annotations,
  is_supported_type, validate_rule,
}
use dynamic_annotation_contr.RuleChecks.Accepted.{
  validate_rule_configured, validate_schedule_config-parsed,
}
use dynamic_annotation_contr.Status.{ErrorTexts, record_execution}
use dynamic_annotation_contr.Status.Laws.{IsCounted, status_of, record_execution_lem}
use dynamic_annotation_contr.Examples.{validator, policies, validator, rule, window, cron_library}

window_parsed : validate_schedule cron_library window ≡ none
unfolding validate_schedule str_eq validate_date_time_schedule check_no_cron
window_parsed = refl

pub annotations_accepted : validate_annotations validator rule.spec.annotations ≡ none
unfolding validate_annotations validate_annotation_key check_denied has_prefix check_allowed any
    validate_dns_subdomain validate_prefix split_key validate_dns_label validate_annotation_value
    validate_value_content check_patterns to_lower check_controls
annotations_accepted = refl

rule_accepted : validate_rule policies none rule ≡ none
unfolding validate_rule check_variables validate_conflict_resolution validate_annotations_config
    validate_legacy_annotations validate_resource_types unsupported_resource_types is_supported_type
    keep any str_eq
rule_accepted =
    ground (
      arith,
      annotations_accepted,
      validate_schedule_config-parsed cron_library window window_parsed,
    )

validate_rule_configured_example : (validate_rule policies (some validator) rule ≡ none) ↔ (
    (validate_rule policies none rule ≡ none)
    × ((rule.spec.annotation_groups ≢ [])
        ⊎ (validate_annotations validator rule.spec.annotations ≡ none)))
validate_rule_configured_example = validate_rule_configured policies validator rule

abbrev refused : ErrorTexts
refused = record {
  text = codes "refused";
  executed_message = codes "failed: refused";
  error_message = codes "apply: refused";
}

record_execution_lem_example :
    let after = record_execution (some refused) [] 0 100 101 102 rule.status in
    IsCounted after
    × (after.execution_count ≡ rule.status.execution_count + 1)
    × (after.last_execution_time ≡ some 100)
    × (((some refused ≡ none)
          × (after.last_error_time ≡ none)
          × (status_of (codes "Executed") after.conditions ≡ some condition_true)
          × (status_of (codes "Error") after.conditions ≡ some condition_false))
        ⊎ ((some refused ≢ none)
            × (after.last_error_time ≡ some 100)
            × (status_of (codes "Executed") after.conditions ≡ some condition_false)
            × (status_of (codes "Error") after.conditions ≡ some condition_true)))
record_execution_lem_example = record_execution_lem (some refused) [] 0 100 101 102 rule.status refl
