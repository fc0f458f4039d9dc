-- ===== src/Api.antt =====
-- api/v1/annotationschedulerule_types.go, and the fields of Kubernetes objects that the program reads.
-- A time is a number of nanoseconds; a nil pointer is `none`.
use dynamic_annotation_contr.Base.{ℕ, Bool, Option, List, Bytes, Assoc, ℤ}

abbrev pub Time : Type 0
Time = ℕ

-- client.Object, as far as the program reads it; nil annotations are `none`
pub record Object : Type 0 where
  pub kind : Bytes
  pub name : Bytes
  pub namespace : Bytes
  pub uid : Bytes
  pub resource_version : Bytes
  pub labels : Assoc Bytes
  pub annotations : Option (Assoc Bytes)

pub record ScheduleConfig : Type 0 where
  pub type : Bytes
  pub start_time : Option Time
  pub end_time : Option Time
  pub cron_expression : Bytes
  pub action : Bytes

pub record AnnotationOperation : Type 0 where
  pub key : Bytes
  pub value : Bytes
  pub template : Bool
  pub action : Bytes
  pub priority : ℤ

pub record AnnotationGroup : Type 0 where
  pub name : Bytes
  pub operations : List AnnotationOperation
  pub atomic : Bool

pub record Requirement : Type 0 where
  pub key : Bytes
  pub operator : Bytes
  pub values : List Bytes

-- metav1.LabelSelector
pub record LabelSelector : Type 0 where
  pub match_labels : Assoc Bytes
  pub match_expressions : List Requirement

pub record RuleSpec : Type 0 where
  pub schedule : ScheduleConfig
  pub selector : LabelSelector
  pub annotations : Assoc Bytes
  pub annotation_groups : List AnnotationGroup
  pub target_resources : List Bytes
  pub template_variables : Assoc Bytes
  pub conflict_resolution : Bytes

-- metav1.Condition and metav1.ConditionStatus
pub data ConditionStatus : Type 0 where
  condition_true condition_false condition_unknown : ConditionStatus

pub record Condition : Type 0 where
  pub type : Bytes
  pub status : ConditionStatus
  pub reason : Bytes
  pub message : Bytes
  pub last_transition_time : Time

pub record RuleStatus : Type 0 where
  pub last_execution_time : Option Time
  pub next_execution_time : Option Time
  pub phase : Bytes
  pub conditions : List Condition
  pub affected_resources : ℕ
  pub execution_count : ℕ
  pub successful_executions : ℕ
  pub failed_executions : ℕ
  pub last_error : Bytes
  pub last_error_time : Option Time

-- AnnotationScheduleRule with the metadata that the program reads
pub record Rule : Type 0 where
  pub name : Bytes
  pub namespace : Bytes
  pub finalizers : List Bytes
  pub deletion_timestamp : Option Time
  pub spec : RuleSpec
  pub status : RuleStatus
