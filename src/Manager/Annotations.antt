-- ===== src/Manager/Annotations.antt =====
-- ApplyAnnotations, RemoveAnnotations, ApplyAnnotationGroups and RemoveAnnotationGroups of
-- internal/resource/manager.go: a query, the writes to what it found, and the invalidation of the
-- cache.
pub mod Writes
pub mod Audits
use dynamic_annotation_contr.Base.{
  ℕ, suc, ◌+◌, Bool, true, false, Option, none, some, List, [], ◌∷◌, if◌then◌else◌, ltb, length,
  is_empty, Bytes, Assoc,
}
use dynamic_annotation_contr.Api.{Time, Object, AnnotationGroup, LabelSelector}
use dynamic_annotation_contr.Client.{Client, Result, ok, err}
use dynamic_annotation_contr.Validator.{AnnotationValidator, AnnotationError, validate_annotations}
use dynamic_annotation_contr.Template.{TemplateContext}
use dynamic_annotation_contr.Operation.{Policies}
use dynamic_annotation_contr.Cache.{ResourceCache, SelectorText, invalidate_cache}
use dynamic_annotation_contr.RateLimiter.{
  TokenBucket, LimitError, operation_apply, operation_remove,
}
use dynamic_annotation_contr.Audit.{
  AuditSink, RuleInfo, log_annotation_apply, log_annotation_remove, log_validation_failure,
}
use dynamic_annotation_contr.Manager.Retry.{UpdateError}
use dynamic_annotation_contr.Manager.Legacy.{
  keys_of, apply_annotations_to_resource, remove_annotations_from_resource,
}
use dynamic_annotation_contr.Manager.Groups.{GroupResult, SortSlice, apply_groups, remove_groups}
use dynamic_annotation_contr.Manager.Discovery.{
  Services, QueryTimes, QueryError, wait_if_limited, get_matching_resources,
}

-- the errors of ApplyAnnotations and of RemoveAnnotations
pub data WriteError (F : Type 0) : Type 0 where
  write_limited : LimitError F → WriteError F
  rejected : AnnotationError → WriteError F
  query_failed : QueryError F → WriteError F
  failed_resources : ℕ → ℕ → WriteError F

-- The log of rm.Auditor, and the texts of the errors that it is told.
pub record Auditing (W E : Type 0) : Type 0 where
  pub sink : AuditSink W
  pub update_text : UpdateError E → Bytes
  pub rejection_text : AnnotationError → Bytes

-- What the manager tells the auditor of the rule: its ID and the namespace, and no name.
abbrev rule_info : Bytes → Bytes → RuleInfo
rule_info namespace rule_id = record {
  rule_id = rule_id;
  rule_name = [];
  rule_namespace = namespace;
}

-- The readings of the clock: those of the rate limit of the operation, and those of its query.
pub record WriteTimes : Type 0 where
  pub asked : Time
  pub admitted : Time
  pub query : QueryTimes

-- rm.Cache.InvalidateCache(namespace, ""), where there is a cache
unfoldable pub forget : {L : Type 0} → Bytes → Services L → Services L
forget namespace s = elim s.cache [
  | none ↦ s
  | some rc ↦ record s { cache = some (invalidate_cache namespace [] rc) }
]

-- the error for the resources that failed, if any did
unfoldable pub report : {F : Type 0} → ℕ → ℕ → Option (WriteError F)
report failed total = if ltb 0 failed then some (failed_resources failed total) else none

module _ {W E : Type 0} (client : Client W E) where
  -- The loops over the resources, each audited, and how many of them failed.
  module _ (auditing : Auditing W E) where
    open auditing use {sink, update_text}

    unfoldable pub apply_to_all : List Object → Assoc Bytes → Bytes → Bytes → W → ℕ × W
    apply_to_all [] annotations namespace rule_id w = (0, w)
    apply_to_all (resource ∷ rest) annotations namespace rule_id w =
        let (failure, w₁) = apply_annotations_to_resource client resource annotations rule_id w in
        let w₂ : W = elim failure [
          | none ↦
              log_annotation_apply sink (rule_info namespace rule_id) resource annotations true none
                w₁
          | some e ↦
              log_annotation_apply sink (rule_info namespace rule_id) resource annotations false
                (some (update_text e)) w₁
        ] in
        let (failed, w₃) = apply_to_all rest annotations namespace rule_id w₂ in
        (elim failure [ none ↦ failed | some e ↦ failed + 1 ], w₃)

    unfoldable pub remove_from_all : List Object → List Bytes → Bytes → Bytes → W → ℕ × W
    remove_from_all [] keys namespace rule_id w = (0, w)
    remove_from_all (resource ∷ rest) keys namespace rule_id w =
        let (failure, w₁) = remove_annotations_from_resource client resource keys rule_id w in
        let w₂ : W = elim failure [
          | none ↦
              log_annotation_remove sink (rule_info namespace rule_id) resource keys true none w₁
          | some e ↦
              log_annotation_remove sink (rule_info namespace rule_id) resource keys false
                (some (update_text e)) w₁
        ] in
        let (failed, w₃) = remove_from_all rest keys namespace rule_id w₂ in
        (elim failure [ none ↦ failed | some e ↦ failed + 1 ], w₃)

  module _ (texts : SelectorText) {L C F : Type 0} (bucket : TokenBucket L C F) (ctx : C) where
    module _ (auditing : Auditing W E) where
      open auditing use {sink, rejection_text}

      unfoldable pub apply_annotations :
          AnnotationValidator
          → LabelSelector
          → Assoc Bytes
          → List Bytes
          → Bytes
          → Bytes
          → WriteTimes
          → Services L
          → W
          → Option (WriteError F) × Services L × W
      apply_annotations validator selector annotations types namespace rule_id times s w =
          let (limited, s₁) =
            wait_if_limited bucket ctx operation_apply namespace times.asked times.admitted s in
          let (found, s₂, w₁) =
            get_matching_resources client texts bucket ctx selector types namespace times.query s₁
              w in
          if is_empty (keys_of annotations) then (none, s, w) else elim limited [
            | some e ↦ (some (write_limited e), s₁, w)
            | none ↦ elim (validate_annotations validator annotations) [
              | some e ↦ (
                some (rejected e),
                s₁,
                log_validation_failure sink (rule_info namespace rule_id) annotations
                    (rejection_text e) w,
              )
              | none ↦ elim found [
                | err e ↦ (some (query_failed e), s₂, w₁)
                | ok resources ↦
                    let (failed, w₂) =
                      apply_to_all auditing resources annotations namespace rule_id w₁ in
                    if is_empty resources
                    then (none, s₂, w₁)
                    else (report failed (length resources), forget namespace s₂, w₂)
              ]
            ]
          ]

      unfoldable pub remove_annotations :
          LabelSelector
          → List Bytes
          → List Bytes
          → Bytes
          → Bytes
          → WriteTimes
          → Services L
          → W
          → Option (WriteError F) × Services L × W
      remove_annotations selector keys types namespace rule_id times s w =
          let (limited, s₁) =
            wait_if_limited bucket ctx operation_remove namespace times.asked times.admitted s in
          let (found, s₂, w₁) =
            get_matching_resources client texts bucket ctx selector types namespace times.query s₁
              w in
          if is_empty keys then (none, s, w) else elim limited [
            | some e ↦ (some (write_limited e), s₁, w)
            | none ↦ elim found [
              | err e ↦ (some (query_failed e), s₂, w₁)
              | ok resources ↦
                  let (failed, w₂) = remove_from_all auditing resources keys namespace rule_id w₁ in
                  if is_empty resources
                  then (none, s₂, w₁)
                  else (report failed (length resources), forget namespace s₂, w₂)
            ]
          ]

    -- The results of the groups; the query alone is limited, and the cache stays as it left it.
    pub apply_annotation_groups :
        SortSlice
        → Policies
        → LabelSelector
        → List AnnotationGroup
        → List Bytes
        → Bytes
        → Bytes
        → TemplateContext
        → Bytes
        → QueryTimes
        → Services L
        → W
        → Result (QueryError F) (List (GroupResult E)) × Services L × W
    apply_annotation_groups sort policies selector groups types namespace rule_id context resolution
          times s w =
        let (found, s₁, w₁) =
          get_matching_resources client texts bucket ctx selector types namespace times s w in
        if is_empty groups then (ok [], s, w) else elim found [
          | err e ↦ (err e, s₁, w₁)
          | ok resources ↦
              let (results, w₂) =
                apply_groups client sort policies resources groups rule_id context resolution w₁ in
              if is_empty resources then (ok [], s₁, w₁) else (ok results, s₁, w₂)
        ]

    unfoldable pub remove_annotation_groups :
        LabelSelector
        → List AnnotationGroup
        → List Bytes
        → Bytes
        → Bytes
        → QueryTimes
        → Services L
        → W
        → Result (QueryError F) (List (GroupResult E)) × Services L × W
    remove_annotation_groups selector groups types namespace rule_id times s w =
        let (found, s₁, w₁) =
          get_matching_resources client texts bucket ctx selector types namespace times s w in
        if is_empty groups then (ok [], s, w) else elim found [
          | err e ↦ (err e, s₁, w₁)
          | ok resources ↦
              let (results, w₂) = remove_groups client resources groups rule_id w₁ in
              if is_empty resources then (ok [], s₁, w₁) else (ok results, s₁, w₂)
        ]
