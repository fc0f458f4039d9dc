-- ===== src/Examples/Resources.antt =====
-- Applications of the theorems on queries, on writes to all resources and on rate limits.
use dynamic_annotation_contr.Base.{
  ℕ, ◌≡◌, refl, false, not, none, some, List, [], ◌∷◌, codes, is_empty, arith, str_eq, All, any,
  has_prefix, to_lower, lookup,
}
use dynamic_annotation_contr.Api.{AnnotationGroup, AnnotationOperation}
use dynamic_annotation_contr.Audit.{log_annotation_apply, log_event}
use dynamic_annotation_contr.Client.{ok}
use dynamic_annotation_contr.Validator.{
  check_allowed, check_controls, check_denied, check_patterns, split_key, validate_annotation_key,
  validate_annotation_value, validate_dns_label, validate_dns_subdomain, validate_prefix,
  validate_value_content, validate_annotations,
}
use dynamic_annotation_contr.Cache.{SelectorText, ResourceCache, get_cached_resources}
use dynamic_annotation_contr.Cache.Invalidation.{IsElsewhere}
use dynamic_annotation_contr.RateLimiter.{
  AnnotationRateLimiter, new_annotation_rate_limiter, operation_apply,
}
use dynamic_annotation_contr.Manager.Legacy.{apply_annotations_to_resource, apply_attempts}
use dynamic_annotation_contr.Manager.Discovery.{
  Services, bad_selector, collect_resources, get_matching_resources, get_resources_by_type,
  has_matching_resources, is_listed, look_up, store, wait_if_limited,
}
use dynamic_annotation_contr.Manager.Discovery.Queries.{
  AnsweredFrom, has_matching-collect_resources,
}
use dynamic_annotation_contr.Manager.Annotations.{
  query_failed, forget, report, apply_to_all, apply_annotations, apply_annotation_groups,
}
use dynamic_annotation_contr.Manager.Annotations.Writes.{
  EachApplied, applied, entries, apply_annotations-EachApplied, apply_annotations-IsElsewhere,
  apply_annotations_refused, apply_annotation_groups-repeated, queried,
}
use dynamic_annotation_contr.Examples.{
  annotations, pods, auditing, validator, policies, rule_id, context, operation, pod, api,
  any_selector, bucket, texts, query_times, write_times,
}

-- without a cache and a rate limiter
abbrev pub bare : Services ℕ
bare = record { cache = none; rate_limiter = none }

abbrev empty_cache : ResourceCache
empty_cache = record {
  cache = [];
  ttl = 300;
  max_entries = 1000;
  hits = 0;
  misses = 0;
  evictions = 0;
}

abbrev cached : Services ℕ
cached = record { cache = some empty_cache; rate_limiter = none }

pub annotations_accepted : validate_annotations validator annotations ≡ none
unfolding validate_annotations validate_annotation_key check_denied has_prefix check_allowed any
    validate_dns_subdomain validate_prefix split_key validate_dns_label validate_annotation_value
    validate_value_content check_patterns to_lower check_controls
annotations_accepted = refl

has_matching-collect_resources_example :
    (has_matching_resources api texts any_selector pods (codes "ns") (pod, 0)).0
    ≡ some (not (is_empty (collect_resources api pods any_selector (codes "ns") (pod, 0)).0))
has_matching-collect_resources_example =
    has_matching-collect_resources api texts any_selector pods (codes "ns") (pod, 0)
      (λ t s n w. refl)

pod_found :
    (queried api texts bucket tt auditing validator any_selector annotations pods
      (codes "ns")
      rule_id
      write_times
      bare
      (pod, 0)).0
    ≡ ok (pod ∷ [])
unfolding get_matching_resources wait_if_limited look_up store collect_resources
    get_resources_by_type is_listed str_eq
pod_found = refl

admitted :
    (wait_if_limited bucket tt operation_apply
      (codes "ns")
      write_times.asked
      write_times.admitted
      bare).0
    ≡ none
unfolding wait_if_limited
admitted = refl

apply_annotations-IsElsewhere_example : All (IsElsewhere (codes "ns")) (
    entries
      (applied api texts bucket tt auditing validator any_selector annotations pods
        (codes "ns")
        rule_id
        write_times
        bare
        (pod, 0)).1)
apply_annotations-IsElsewhere_example =
    apply_annotations-IsElsewhere api texts bucket tt auditing validator any_selector annotations
      pods (codes "ns") rule_id write_times bare (pod, 0) pod [] refl refl admitted
      annotations_accepted pod_found

all_applied :
    (applied api texts bucket tt auditing validator any_selector annotations pods
      (codes "ns")
      rule_id
      write_times
      bare
      (pod, 0)).0
    ≡ none
unfolding apply_annotations get_matching_resources wait_if_limited look_up store collect_resources
    get_resources_by_type is_listed str_eq forget report apply_to_all apply_annotations_to_resource
    log_annotation_apply log_event apply_attempts validate_annotations validate_annotation_key
    check_denied has_prefix check_allowed any validate_dns_subdomain validate_prefix split_key
    validate_dns_label validate_annotation_value validate_value_content check_patterns to_lower
    check_controls
all_applied = refl

apply_annotations-EachApplied_example :
    EachApplied api auditing annotations
      (codes "ns")
      rule_id
      (pod ∷ [])
      (queried api texts bucket tt auditing validator any_selector annotations pods
        (codes "ns")
        rule_id
        write_times
        bare
        (pod, 0)).2
apply_annotations-EachApplied_example =
    apply_annotations-EachApplied api texts bucket tt auditing validator any_selector annotations
      pods (codes "ns") rule_id write_times bare (pod, 0) (pod ∷ []) refl pod_found all_applied

-- a selector that is no selector
abbrev no_texts : SelectorText
no_texts = record { canonical = λ s. none; printed = λ s. [] }

selector_refused :
    (applied api no_texts bucket tt auditing validator any_selector annotations pods
      (codes "ns")
      rule_id
      write_times
      bare
      (pod, 0)).0
    ≡ some (query_failed bad_selector)
unfolding apply_annotations get_matching_resources wait_if_limited look_up store collect_resources
    get_resources_by_type is_listed str_eq forget report apply_to_all apply_annotations_to_resource
    log_annotation_apply log_event apply_attempts validate_annotations validate_annotation_key
    check_denied has_prefix check_allowed any validate_dns_subdomain validate_prefix split_key
    validate_dns_label validate_annotation_value validate_value_content check_patterns to_lower
    check_controls
selector_refused = refl

apply_annotations_refused_example :
    (applied api no_texts bucket tt auditing validator any_selector annotations pods
      (codes "ns")
      rule_id
      write_times
      bare
      (pod, 0)).2
    ≡ (pod, 0)
apply_annotations_refused_example =
    apply_annotations_refused api no_texts bucket tt auditing validator any_selector annotations
      pods (codes "ns") rule_id write_times bare (pod, 0) (query_failed bad_selector)
      (λ t s n w. refl) selector_refused refl

not_cached :
    (get_cached_resources texts any_selector pods (codes "ns") query_times.looked_up empty_cache).0
    ≡ none
unfolding get_cached_resources lookup
not_cached = refl

pod_listed :
    (get_matching_resources api texts bucket tt any_selector pods
      (codes "ns")
      query_times
      cached
      (pod, 0)).0
    ≡ ok (pod ∷ [])
unfolding get_matching_resources wait_if_limited look_up store collect_resources
    get_resources_by_type is_listed str_eq get_cached_resources lookup
pod_listed = refl

abbrev groups : List AnnotationGroup
groups = record { name = codes "g"; operations = operation ∷ []; atomic = false } ∷ []

abbrev unsorted : List AnnotationOperation → List AnnotationOperation
unsorted ops = ops

apply_annotation_groups-repeated_example :
    let (results, s', w') =
      apply_annotation_groups api texts bucket tt unsorted policies any_selector groups pods
        (codes "ns")
        rule_id
        context
        (codes "priority")
        query_times
        cached
        (pod, 0) in
    AnsweredFrom
      (pod ∷ [])
      w'
      (get_matching_resources api texts bucket tt any_selector pods (codes "ns") query_times s' w')
apply_annotation_groups-repeated_example =
    apply_annotation_groups-repeated api texts bucket tt unsorted policies any_selector groups pods
      (codes "ns") rule_id context (codes "priority") query_times query_times cached empty_cache
      (pod, 0) (pod ∷ []) refl not_cached pod_listed refl (omega arith)

abbrev limiter : AnnotationRateLimiter ℕ
limiter = new_annotation_rate_limiter bucket none
