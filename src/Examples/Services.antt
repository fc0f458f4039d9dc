-- ===== src/Examples/Services.antt =====
-- Applications of the theorems on retries, on the cache, on the cleanup and on templates.
use dynamic_annotation_contr.Base.{
  false, ◌++◌, ◌≢◌, lookup, ◌+◌, ◌<◌, join, str_eq, insert, delete, length, ◌⊎◌, ℕ, zero, suc, ◌≡◌,
  ◌≢◌, ◌++◌, refl, Bool, true, false, Option, none, some, List, [], ◌∷◌, Bytes, codes, arith,
  lookup, Assoc,
}
use dynamic_annotation_contr.Errors.{
  ErrorTests, should_retry, retry_with_backoff, default_retry_config,
}
use dynamic_annotation_contr.Errors.Retries.{Ended, retry_with_backoff-Ended}
use dynamic_annotation_contr.Cache.{SelectorText}
use dynamic_annotation_contr.Tracking.{format_keys}
use dynamic_annotation_contr.Cache.Bounds.{IsBounded}
use dynamic_annotation_contr.Cache.{
  is_expired, new_resource_cache, get_cached_resources, cache_resources, generate_cache_key,
  evict_oldest_entry, find_oldest,
}
use dynamic_annotation_contr.Cache.Calls.{
  CacheCall, looked_up, stored, make_call, cache_after, expected,
}
use dynamic_annotation_contr.Cache.Calls.History.{cache_after-IsBounded, cache_after-expected}
use dynamic_annotation_contr.Cleanup.{orphaned_keys, delete_keys, rule_ids}
use dynamic_annotation_contr.Cleanup.Keys.{live_tracking_deleted}
use dynamic_annotation_contr.Tracking.{tracking_key}
use dynamic_annotation_contr.Template.{TemplateContext}
use dynamic_annotation_contr.Examples.{context, rule_id, rule, pod, any_selector}

-- The errors are the numbers of attempts that will still fail, all of them conflicts.
abbrev tests : ErrorTests ℕ
tests = record {
  is_not_found = λ e. false;
  is_conflict = λ e. true;
  is_server_timeout = λ e. false;
  is_timeout = λ e. false;
  is_service_unavailable = λ e. false;
  is_internal_error = λ e. false;
  is_too_many_requests = λ e. false;
  is_bad_request = λ e. false;
  is_invalid = λ e. false;
  is_forbidden = λ e. false;
  is_unauthorized = λ e. false;
  net_timeout = λ e. none;
  api_status = λ e. none;
  message = λ e. codes "conflict";
}

abbrev flaky : ℕ → Option ℕ × ℕ
flaky zero = (none, zero)
flaky (suc n) = (some n, n)

abbrev no_wait : ℕ → ℕ → Bool × ℕ
no_wait attempt w = (false, w)

retry_with_backoff-Ended_example :
    let (result, w') = retry_with_backoff tests default_retry_config flaky no_wait 2 in
    Ended flaky no_wait
      (should_retry tests default_retry_config)
      (default_retry_config.max_retries + 1)
      0
      2
      result
      w'
retry_with_backoff-Ended_example =
    retry_with_backoff-Ended flaky no_wait tests default_retry_config 2

abbrev texts : SelectorText
texts = record { canonical = λ s. some (codes "app=x"); printed = λ s. codes "x" }

abbrev pods : List Bytes
pods = codes "pods" ∷ []

-- Two queries are cached, of which there is room for one, and the second one is looked up.
abbrev calls : List CacheCall
calls =
    looked_up any_selector pods (codes "ns") 12
    ∷ stored any_selector pods (codes "ns") (pod ∷ []) 11
    ∷ stored any_selector pods (codes "other") [] 10
    ∷ []

cache_after-IsBounded_example : IsBounded (cache_after texts 300 1 calls)
cache_after-IsBounded_example = cache_after-IsBounded texts 300 1 calls (omega arith)

abbrev query : Bytes
query = generate_cache_key texts any_selector pods (codes "ns")

-- The cache answers the second query, and has lost the first one.
evicted :
    (length (cache_after texts 300 1 calls).cache ≡ 1)
    × ((cache_after texts 300 1 calls).hits ≡ 1)
    × ((cache_after texts 300 1 calls).evictions ≡ 1)
unfolding new_resource_cache make_call get_cached_resources cache_resources generate_cache_key
    evict_oldest_entry find_oldest insert delete lookup format_keys str_eq join is_expired
evicted = (refl, refl, refl)

cache_after-expected_example :
    let rc = cache_after texts 300 1 calls in
    (lookup query rc.cache ≡ expected texts 300 query calls)
    ⊎ ((lookup query rc.cache ≡ none) × (0 < rc.evictions))
cache_after-expected_example = cache_after-expected texts 300 1 query calls

abbrev tracked : Assoc Bytes
tracked = (tracking_key rule_id, codes "[a.b/m-x]") ∷ []

live_tracking_deleted_example :
    lookup
      (tracking_key rule_id)
      (delete_keys (orphaned_keys (rule_ids (rule ∷ [])) tracked) tracked)
    ≡ none
live_tracking_deleted_example =
    live_tracking_deleted (rule ∷ []) rule_id tracked (refl, (refl, (refl, (refl, tt))))

-- the rule defines the variable
abbrev defining : TemplateContext
defining = record context { variables = (codes "v", codes "1") ∷ [] }
