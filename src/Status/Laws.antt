-- ===== src/Status/Laws.antt =====
-- What the recorded status says.
use dynamic_annotation_contr.Base.{
  ℕ, ◌+◌, ◌≡◌, ◌≢◌, ◌⊎◌, inl, inr, refl, false, Option, none, some, List, [], ◌∷◌, arith, Bytes,
  codes, str_eq, str_eq_iff, str_eq_self, if◌then◌else◌,
}
use dynamic_annotation_contr.Api.{
  Time, Condition, ConditionStatus, RuleStatus, condition_true, condition_false,
}
use dynamic_annotation_contr.Status.{ErrorTexts, set_condition, record_execution}

-- The status of the first condition of a type.
abbrev pub status_of : Bytes → List Condition → Option ConditionStatus
status_of type [] = none
status_of type (c ∷ cs) = if str_eq c.type type then some c.status else status_of type cs

-- Setting a condition gives its type its status, and leaves the status of every other type.
status_of-set_condition :
    (type : Bytes) (c : Condition) (cs : List Condition)
    → status_of type (set_condition c cs)
      ≡ (if str_eq c.type type then some c.status else status_of type cs)
unfolding set_condition
status_of-set_condition type c [] = refl
status_of-set_condition type c (d ∷ ds) = ground (
  arith,
  status_of-set_condition type c ds,
  str_eq_iff d.type c.type,
  str_eq_iff c.type type,
  str_eq_iff d.type type,
)

two_conditions :
    (x e : Condition) (cs : List Condition)
    → x.type ≡ codes "Executed"
    → e.type ≡ codes "Error"
    → (status_of (codes "Executed") (set_condition e (set_condition x cs)) ≡ some x.status)
      × (status_of (codes "Error") (set_condition e (set_condition x cs)) ≡ some e.status)
two_conditions x e cs hx he = ground (
  arith,
  status_of-set_condition (codes "Executed") e (set_condition x cs),
  status_of-set_condition (codes "Executed") x cs,
  status_of-set_condition (codes "Error") e (set_condition x cs),
  error_ne,
  str_eq_self (codes "Executed"),
  str_eq_self (codes "Error"),
)
  where
    error_ne : str_eq (codes "Error") (codes "Executed") ≡ false
    error_ne = unfold str_eq in refl

-- Every execution is counted once, as a success or as a failure.
abbrev pub IsCounted : RuleStatus → Type 0
IsCounted s = s.execution_count ≡ s.successful_executions + s.failed_executions

-- If every execution so far was counted once, as a success or as a failure, so it is after an
-- execution is recorded, with one more; the time of the execution is recorded, and the time of the
-- last error and the conditions Executed and Error tell whether it has failed.
pub record_execution_lem :
    (failure : Option ErrorTexts) (message : Bytes) (affected : ℕ) (at now later : Time)
    (status : RuleStatus)
    → IsCounted status
    → let after = record_execution failure message affected at now later status in
      IsCounted after
      × (after.execution_count ≡ status.execution_count + 1)
      × (after.last_execution_time ≡ some at)
      × (((failure ≡ none)
            × (after.last_error_time ≡ none)
            × (status_of (codes "Executed") after.conditions ≡ some condition_true)
            × (status_of (codes "Error") after.conditions ≡ some condition_false))
          ⊎ ((failure ≢ none)
              × (after.last_error_time ≡ some at)
              × (status_of (codes "Executed") after.conditions ≡ some condition_false)
              × (status_of (codes "Error") after.conditions ≡ some condition_true)))
unfolding record_execution
record_execution_lem none message affected at now later status h =
    let two =
      two_conditions
        (record {
          type = codes "Executed";
          status = condition_true;
          reason = codes "ExecutionSucceeded";
          message = message;
          last_transition_time = now;
        })
        (record {
          type = codes "Error";
          status = condition_false;
          reason = codes "ExecutionSucceeded";
          message = codes "No execution errors";
          last_transition_time = later;
        })
        status.conditions refl refl in
    (omega (arith, h), refl, refl, inl (refl, refl, two.0, two.1))
record_execution_lem (some e) message affected at now later status h =
    let two =
      two_conditions
        (record {
          type = codes "Executed";
          status = condition_false;
          reason = codes "ExecutionFailed";
          message = e.executed_message;
          last_transition_time = now;
        })
        (record {
          type = codes "Error";
          status = condition_true;
          reason = codes "ExecutionFailed";
          message = e.error_message;
          last_transition_time = later;
        })
        status.conditions refl refl in
    (omega (arith, h), refl, refl, inr (λ p. cc, refl, two.0, two.1))
