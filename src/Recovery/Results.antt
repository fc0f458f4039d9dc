-- ===== src/Recovery/Results.antt =====
-- What a recovery reports.
use dynamic_annotation_contr.Base.{
  Bool, ℕ, ◌+◌, ◌≡◌, ◌≢◌, true, none, List, [], ◌∷◌, arith, length, length-append, is_empty, Bytes,
}
use dynamic_annotation_contr.Api.{Time, Rule}
use dynamic_annotation_contr.Client.{Result}
use dynamic_annotation_contr.Errors.{ErrorTests, RetryConfig}
use dynamic_annotation_contr.Controller.{RuleClient}
use dynamic_annotation_contr.Recovery.{
  RecoveryResult, recover_rule, recover_rules, recover_controller_state, empty_result,
  validate_rule_for_recovery, get_all_rules,
}

-- Each rule that was processed was recovered or has failed, and each failure has its error.
abbrev IsComplete : {E : Type 0} → ℕ → RecoveryResult E → Type 0
IsComplete processed r =
    (r.rules_recovered + r.rules_failed ≡ processed) × (length r.errors ≡ r.rules_failed)

module _ {W E : Type 0} (rules : RuleClient W E) (list_rules : W → Result E (List Rule) × W)
    (tests : ErrorTests E) (config : RetryConfig) (wait : ℕ → W → Bool × W) (now : W → Time)
    (missed_text : Time → Bytes) where
  recover_rules-IsComplete :
      (found : List Rule) (processed : ℕ) (result : RecoveryResult E) (w : W)
      → IsComplete processed result
      → let r =
          (recover_rules rules list_rules tests config wait now missed_text found result w).0 in
        IsComplete (processed + length found) r × (r.rules_processed ≡ result.rules_processed)
  unfolding recover_rules
  recover_rules-IsComplete [] processed result w h = ground arith
  recover_rules-IsComplete (rule ∷ rest) processed result w h = grind (
    arith,
    length-append result.errors,
    λ (r : RecoveryResult E) (w' : W). recover_rules-IsComplete rest (processed + 1) r w',
  )

  -- A recovery, whether it could list the rules or not, has recovered or failed each rule that it
  -- counts as processed, and has one error for each that failed.
  recover_controller_state-IsComplete :
      (w : W)
      → let (result, failure, w') =
          recover_controller_state rules list_rules tests config wait now missed_text w in
        IsComplete result.rules_processed result
  unfolding recover_controller_state empty_result
  recover_controller_state-IsComplete w = ground (
    arith,
    recover_rules-IsComplete
        (get_all_rules rules list_rules tests config wait now missed_text w).1.0 0
        (record empty_result {
          rules_processed =
              length (get_all_rules rules list_rules tests config wait now missed_text w).1.0;
        })
        (get_all_rules rules list_rules tests config wait now missed_text w).1.1,
  )

  -- A rule that is not being deleted and that has annotation groups alone is never recovered: its
  -- recovery ends with an error, whatever the cluster answers.
  group_rules_not_recovered :
      (rule : Rule) (w : W)
      → rule.deletion_timestamp ≡ none
      → is_empty rule.spec.annotations ≡ true
      → (recover_rule rules list_rules tests config wait now missed_text rule w).0 ≢ none
  unfolding recover_rule validate_rule_for_recovery
  group_rules_not_recovered rule w hd ha = ground arith
