-- ===== src/Manager/Annotations/Writes.antt =====
-- What the writes report, and what they leave in the cache.
use dynamic_annotation_contr.Base.{
  sym, subst, ℕ, ◌+◌, ◌≤◌, ◌<◌, ◌≡◌, Bool, true, false, Option, none, some, List, [], ◌∷◌, arith,
  is_empty, length, Bytes, Assoc, All,
}
use dynamic_annotation_contr.Api.{Object, AnnotationGroup, LabelSelector}
use dynamic_annotation_contr.Client.{Client, Result, ok}
use dynamic_annotation_contr.Validator.{AnnotationValidator, validate_annotations}
use dynamic_annotation_contr.Cache.{
  ResourceCache, CacheEntry, SelectorText, invalidate_cache, get_cached_resources,
}
use dynamic_annotation_contr.Cache.Invalidation.{IsElsewhere, invalidate_cache-IsElsewhere}
use dynamic_annotation_contr.RateLimiter.{TokenBucket, operation_apply}
use dynamic_annotation_contr.Template.{TemplateContext}
use dynamic_annotation_contr.Operation.{Policies}
use dynamic_annotation_contr.Manager.Legacy.{keys_of, apply_annotations_to_resource}
use dynamic_annotation_contr.Manager.Updates.{Applied, apply_annotations_to_resource-Applied}
use dynamic_annotation_contr.Manager.Groups.{SortSlice}
use dynamic_annotation_contr.Manager.Discovery.{
  Services, QueryTimes, QueryError, get_matching_resources, wait_if_limited,
}
use dynamic_annotation_contr.Manager.Discovery.Queries.{
  get_matching_resources-reads, AnsweredFrom, get_matching_resources-repeated, ListReads,
}
use dynamic_annotation_contr.Manager.Annotations.{
  log_validation_failure, rule_info, log_annotation_apply, Auditing, write_limited, rejected,
  query_failed, WriteError, WriteTimes, apply_to_all, forget, report, failed_resources,
  apply_annotations, apply_annotation_groups,
}

abbrev counts_failures : {F : Type 0} → WriteError F → Bool
counts_failures (write_limited e) = false
counts_failures (rejected e) = false
counts_failures (query_failed e) = false
counts_failures (failed_resources n total) = true

-- the entries of the cache, if there is one
abbrev pub entries : {L : Type 0} → Services L → Assoc CacheEntry
entries s = elim s.cache [ none ↦ [] | some rc ↦ rc.cache ]

forgotten :
    (namespace : Bytes) (cache : Option ResourceCache)
    → is_empty namespace ≡ false
    → All
        (IsElsewhere namespace)
        (elim cache [ none ↦ [] | some rc ↦ (invalidate_cache namespace [] rc).cache ])
forgotten namespace none hn = tt
forgotten namespace (some rc) hn = invalidate_cache-IsElsewhere namespace rc hn

forget-entries :
    {L : Type 0} (namespace : Bytes) (s : Services L)
    → entries (forget namespace s)
      ≡ (elim s.cache [ none ↦ [] | some rc ↦ (invalidate_cache namespace [] rc).cache ])
unfolding forget
forget-entries namespace s = ground arith

forget-IsElsewhere :
    {L : Type 0} (namespace : Bytes) (s : Services L)
    → is_empty namespace ≡ false
    → All (IsElsewhere namespace) (entries (forget namespace s))
forget-IsElsewhere namespace s hn =
    subst (All (IsElsewhere namespace)) (sym (forget-entries namespace s))
      (forgotten namespace s.cache hn)

module _ {W E : Type 0} (client : Client W E) where
  module _ (auditing : Auditing W E) (annotations : Assoc Bytes) (namespace rule_id : Bytes) where
    apply_to_all_bound :
        (resources : List Object) (w : W)
        → (apply_to_all client auditing resources annotations namespace rule_id w).0
          ≤ length resources
    unfolding apply_to_all
    apply_to_all_bound [] w = omega arith
    apply_to_all_bound (resource ∷ rest) w = grind (arith, λ (w' : W). apply_to_all_bound rest w')

    -- Each resource in turn was written, as it was found or as a fetch of it answered, with the
    -- annotations on it: the update was accepted, and left the cluster as the auditor then met it.
    abbrev pub EachApplied : List Object → W → Type 0
    EachApplied [] w = Unit
    EachApplied (r ∷ rs) w =
        let w' = (apply_annotations_to_resource client r annotations rule_id w).1 in
        Applied client r annotations rule_id w'
        × EachApplied rs (
            log_annotation_apply auditing.sink (rule_info namespace rule_id) r annotations true none
              w')

    apply_to_all-EachApplied :
        (resources : List Object) (w : W)
        → (apply_to_all client auditing resources annotations namespace rule_id w).0 ≡ 0
        → EachApplied resources w
    unfolding apply_to_all
    apply_to_all-EachApplied [] w h = tt
    apply_to_all-EachApplied (r ∷ rs) w h = (
      apply_annotations_to_resource-Applied client r annotations rule_id w _ (ground arith),
      apply_to_all-EachApplied rs _ (ground arith),
    )

  module _ (texts : SelectorText) {L C F : Type 0} (bucket : TokenBucket L C F) (ctx : C) where
    module _ (auditing : Auditing W E) (validator : AnnotationValidator) (selector : LabelSelector)
        (annotations : Assoc Bytes) (types : List Bytes) (namespace rule_id : Bytes)
        (times : WriteTimes) (s : Services L) (w : W) where
      abbrev pub applied : Option (WriteError F) × Services L × W
      applied =
          apply_annotations client texts bucket ctx auditing validator selector annotations types
            namespace rule_id times s w

      -- the query of an apply that the rate limit lets pass
      abbrev pub queried : Result (QueryError F) (List Object) × Services L × W
      queried =
          get_matching_resources client texts bucket ctx selector types namespace times.query
            (wait_if_limited bucket ctx operation_apply namespace times.asked times.admitted s).1 w

      -- An apply that has found a resource leaves no entry of its namespace in the cache, whether
      -- its writes succeed or not.
      pub apply_annotations-IsElsewhere :
          (r : Object) (rs : List Object)
          → is_empty namespace ≡ false
          → is_empty (keys_of annotations) ≡ false
          → (wait_if_limited bucket ctx operation_apply namespace times.asked times.admitted s).0
            ≡ none
          → validate_annotations validator annotations ≡ none
          → queried.0 ≡ ok (r ∷ rs)
          → All (IsElsewhere namespace) (entries applied.1)
      unfolding apply_annotations
      apply_annotations-IsElsewhere r rs hn ha hl hv hq =
          subst (λ (t : Services L). All (IsElsewhere namespace) (entries t))
            {x = forget namespace queried.1} {y = applied.1} (ground arith)
            (forget-IsElsewhere namespace queried.1 hn)

      -- If an apply that has found resources reports no error, each of them was written in turn: an
      -- update was accepted that wrote that resource, as it was found or as a fetch of it answered,
      -- with the annotations of the rule and their tracking annotation on it and all else as it was.
      pub apply_annotations-EachApplied :
          (resources : List Object)
          → is_empty (keys_of annotations) ≡ false
          → queried.0 ≡ ok resources
          → applied.0 ≡ none
          → EachApplied auditing annotations namespace rule_id resources queried.2
      unfolding apply_annotations report apply_to_all
      apply_annotations-EachApplied resources ha hq h =
          apply_to_all-EachApplied auditing annotations namespace rule_id resources queried.2
            (ground arith)

      -- the world with the audit event of a rejection, if the error is one
      abbrev audited : WriteError F → W
      audited (rejected e) =
          log_validation_failure auditing.sink (rule_info namespace rule_id) annotations
            (auditing.rejection_text e) w
      audited e = w

      -- If listing leaves the cluster as it is, an apply that reports another error than failed
      -- resources has left the cluster as it was; of the annotations that it rejects, the one
      -- audit event of that is written.
      pub apply_annotations_refused :
          (e : WriteError F)
          → ListReads client
          → applied.0 ≡ some e
          → counts_failures e ≡ false
          → applied.2 ≡ audited e
      unfolding apply_annotations report
      apply_annotations_refused e reads h hc = ground (
        arith,
        get_matching_resources-reads client texts bucket ctx selector types namespace times.query
            (wait_if_limited bucket ctx operation_apply namespace times.asked times.admitted s).1 w
            reads,
      )

      -- The resources that are counted as failed are at least one and at most all that were found.
      apply_annotations_bound :
          (failed total : ℕ)
          → applied.0 ≡ some (failed_resources failed total)
          → (0 < failed) × (failed ≤ total)
      unfolding apply_annotations report
      apply_annotations_bound failed total h = grind (
        arith,
        λ (rs : List Object) (w' : W).
            apply_to_all_bound auditing annotations namespace rule_id rs w',
      )

    -- The services after a write of groups are those after its query.
    apply_annotation_groups-services :
        (sort : SortSlice) (policies : Policies) (selector : LabelSelector)
        (groups : List AnnotationGroup) (types : List Bytes) (namespace rule_id : Bytes)
        (context : TemplateContext) (resolution : Bytes) (times : QueryTimes) (s : Services L)
        (w : W)
        → is_empty groups ≡ false
        → (apply_annotation_groups client texts bucket ctx sort policies selector groups types
            namespace rule_id context resolution times s w).1
          ≡ (get_matching_resources client texts bucket ctx selector types namespace times s w).1
    unfolding apply_annotation_groups
    apply_annotation_groups-services sort policies selector groups types namespace rule_id context
          resolution times s w hg =
        ground arith

    -- A write of annotation groups does not reach the cache: for the time to live of what its query
    -- stored, a query of the same selector, unless it is limited, finds the resources as they were
    -- before the write.
    pub apply_annotation_groups-repeated :
        (sort : SortSlice) (policies : Policies) (selector : LabelSelector)
        (groups : List AnnotationGroup) (types : List Bytes) (namespace rule_id : Bytes)
        (context : TemplateContext) (resolution : Bytes) (times later : QueryTimes) (s : Services L)
        (rc : ResourceCache) (w : W) (resources : List Object)
        → s.cache ≡ some rc
        → (get_cached_resources texts selector types namespace times.looked_up rc).0 ≡ none
        → (get_matching_resources client texts bucket ctx selector types namespace times s w).0
          ≡ ok resources
        → is_empty groups ≡ false
        → later.looked_up ≤ times.stored + rc.ttl
        → let (results, s', w') =
            apply_annotation_groups client texts bucket ctx sort policies selector groups types
              namespace rule_id context resolution times s w in
          AnsweredFrom resources w'
            (get_matching_resources client texts bucket ctx selector types namespace later s' w')
    apply_annotation_groups-repeated sort policies selector groups types namespace rule_id context
          resolution times later s rc w resources hs hm hq hg ht =
        rw
          (apply_annotation_groups-services sort policies selector groups types namespace rule_id
            context resolution times s w hg)
          (get_matching_resources-repeated client texts bucket ctx selector types namespace times
            later s rc w _ resources hs hm hq ht)
