-- ===== src/Manager/Discovery/Queries.antt =====
-- What the queries find.
use dynamic_annotation_contr.Base.{
  str_eq_iff, str_eq_self, ◌⊎◌, ◌&&◌, ◌+◌, ◌≤◌, ◌≡◌, ◌∙◌, ap, sym, refl, Bool, true, false, not,
  none, some, List, [], ◌∷◌, ◌++◌, append_assoc, append-nil, arith, is_empty, length, Bytes, str_eq,
  keep, Assoc, lookup, insert, lookup-insert, ltb,
}
use dynamic_annotation_contr.Api.{Time, Object, LabelSelector}
use dynamic_annotation_contr.Client.{Result, Client, ok, err}
use dynamic_annotation_contr.Cache.{
  ResourceCache, SelectorText, get_cached_resources, cache_resources,
}
use dynamic_annotation_contr.Cache.Lookups.{get_cached_resources-ttl, get-cache_resources}
use dynamic_annotation_contr.RateLimiter.{TokenBucket}
use dynamic_annotation_contr.Manager.Discovery.{
  bad_selector, query_limited, query_limited, QueryError, operation_query, Services, QueryTimes,
  get_resources_by_type, collect_resources, has_type, has_matching_resources, group_key,
  listed_under, group_resources, get_resources_by_namespace, get_matching_resources,
  wait_if_limited, look_up, store,
}

-- Listing reads the cluster and leaves it as it is.
abbrev pub ListReads : {W E : Type 0} → Client W E → Type 0
ListReads {W} client =
    (t : Bytes) (s : LabelSelector) (n : Bytes) (w : W) → (client.list t s n w).1 ≡ w

is_empty-append : (xs ys : List Object) → is_empty (xs ++ ys) ≡ (is_empty xs && is_empty ys)
is_empty-append [] ys = refl
is_empty-append (x ∷ xs) ys = refl

ltb-length : (xs : List Object) → ltb 0 (length xs) ≡ not (is_empty xs)
ltb-length [] = refl
ltb-length (x ∷ xs) = ground arith

abbrev is_limited : {F : Type 0} {A : Type 0} → Result (QueryError F) A → Bool
is_limited (ok a) = false
is_limited (err (query_limited e)) = true
is_limited (err bad_selector) = false

-- The answer is these resources, or the rate limit, and the cluster is as it was.
abbrev pub AnsweredFrom :
    {W F L : Type 0}
    → List Object
    → W
    → Result (QueryError F) (List Object) × Services L × W
    → Type 0
AnsweredFrom resources w (answer, s, w') =
    ((answer ≡ ok resources) ⊎ (is_limited answer ≡ true)) × (w' ≡ w)

module _ {W E : Type 0} (client : Client W E) where
  get_resources_by_type-reads :
      ListReads client
      → (t : Bytes) (s : LabelSelector) (n : Bytes) (w : W)
      → (get_resources_by_type client t s n w).1 ≡ w
  unfolding get_resources_by_type
  get_resources_by_type-reads reads t s n w = ground (arith, reads t s n w)

  collect_resources-reads :
      ListReads client
      → (types : List Bytes) (s : LabelSelector) (n : Bytes) (w : W)
      → (collect_resources client types s n w).1 ≡ w
  unfolding collect_resources
  collect_resources-reads reads [] s n w = refl
  collect_resources-reads reads (t ∷ types) s n w =
      collect_resources-reads reads types s n _ ∙ get_resources_by_type-reads reads t s n w

  has_type-collect :
      ListReads client
      → (types : List Bytes) (s : LabelSelector) (n : Bytes) (w : W)
      → has_type client types s n w ≡ (not (is_empty (collect_resources client types s n w).0), w)
  unfolding has_type collect_resources
  has_type-collect reads [] s n w = refl
  has_type-collect reads (t ∷ types) s n w = grind (
    arith,
    get_resources_by_type-reads reads t s n w,
    has_type-collect reads types s n w,
    λ (xs ys : List Object). is_empty-append xs ys,
    λ (xs : List Object). ltb-length xs,
  )

  -- If listing leaves the cluster as it is, then HasMatchingResources, which ends at the first type
  -- with a resource, answers whether the loop of GetMatchingResources finds any.
  pub has_matching-collect_resources :
      (texts : SelectorText) (selector : LabelSelector) (types : List Bytes) (namespace : Bytes)
      (w : W)
      → ListReads client
      → (has_matching_resources client texts selector types namespace w).0
        ≡ (elim (texts.canonical selector) [
          | none ↦ none
          | some t ↦ some (not (is_empty (collect_resources client types selector namespace w).0))
        ])
  unfolding has_matching_resources
  has_matching-collect_resources texts selector types namespace w reads =
      ground (arith, has_type-collect reads types selector namespace w)

  module _ (texts : SelectorText) {L C F : Type 0} (bucket : TokenBucket L C F) (ctx : C) where
    -- If listing leaves the cluster as it is, so does a query.
    pub get_matching_resources-reads :
        (selector : LabelSelector) (types : List Bytes) (namespace : Bytes) (times : QueryTimes)
        (s : Services L) (w : W)
        → ListReads client
        → (get_matching_resources client texts bucket ctx selector types namespace times s w).2 ≡ w
    unfolding get_matching_resources
    get_matching_resources-reads selector types namespace times s w reads =
        ground (arith, collect_resources-reads reads types selector namespace w)

    wait_if_limited-cache :
        (operation namespace : Bytes) (asked admitted : Time) (s : Services L)
        → (wait_if_limited bucket ctx operation namespace asked admitted s).1.cache ≡ s.cache
    unfolding wait_if_limited
    wait_if_limited-cache operation namespace asked admitted s = ground arith

    -- A query that the cache answers leaves the cluster as it is, and fails only if it is limited.
    cached_query :
        (selector : LabelSelector) (types : List Bytes) (namespace : Bytes) (times : QueryTimes)
        (s : Services L) (rc : ResourceCache) (w : W) (resources : List Object)
        → s.cache ≡ some rc
        → (get_cached_resources texts selector types namespace times.looked_up rc).0
          ≡ some resources
        → AnsweredFrom resources w
            (get_matching_resources client texts bucket ctx selector types namespace times s w)
    unfolding get_matching_resources look_up
    cached_query selector types namespace times s rc w resources hs hf =
        ground (arith, wait_if_limited-cache operation_query namespace times.asked times.admitted s)

    -- A query that succeeds without an answer of the cache leaves its own in the cache.
    query_stores :
        (selector : LabelSelector) (types : List Bytes) (namespace : Bytes) (times : QueryTimes)
        (s : Services L) (rc : ResourceCache) (w : W) (resources : List Object)
        → s.cache ≡ some rc
        → (get_cached_resources texts selector types namespace times.looked_up rc).0 ≡ none
        → let (found, s₁, w₁) =
            get_matching_resources client texts bucket ctx selector types namespace times s w in
          found ≡ ok resources
          → s₁.cache
            ≡ some (
                cache_resources texts selector types namespace resources times.stored
                  (get_cached_resources texts selector types namespace times.looked_up rc).1)
    unfolding get_matching_resources look_up store
    query_stores selector types namespace times s rc w resources hs hm hf =
        ground (arith, wait_if_limited-cache operation_query namespace times.asked times.admitted s)

    -- A query that the cache did not answer, and that succeeded, is answered alike for the time to
    -- live of the cache, unless the rate limit stops it: whatever has become of the cluster, and
    -- without a call of the API.
    pub get_matching_resources-repeated :
        (selector : LabelSelector) (types : List Bytes) (namespace : Bytes)
        (times later : QueryTimes) (s : Services L) (rc : ResourceCache) (w w' : W)
        (resources : List Object)
        → s.cache ≡ some rc
        → (get_cached_resources texts selector types namespace times.looked_up rc).0 ≡ none
        → let (found, s₁, w₁) =
            get_matching_resources client texts bucket ctx selector types namespace times s w in
          found ≡ ok resources
          → later.looked_up ≤ times.stored + rc.ttl
          → AnsweredFrom resources w'
              (get_matching_resources client texts bucket ctx selector types namespace later s₁ w')
    get_matching_resources-repeated selector types namespace times later s rc w w' resources hs hm
          hf ht =
        cached_query selector types namespace later _ _ w' resources
          (query_stores selector types namespace times s rc w resources hs hm hf)
          (ap (λ p. p.0)
            (get-cache_resources texts selector types namespace resources times.stored
              later.looked_up
              (get_cached_resources texts selector types namespace times.looked_up rc).1
              (omega (
                arith,
                get_cached_resources-ttl texts selector types namespace times.looked_up rc,
                ht,
              ))))

group_resources_from :
    (key : Bytes) (resources : List Object) (groups : Assoc (List Object))
    → listed_under key (group_resources resources groups)
      ≡ listed_under key groups ++ keep (λ r. str_eq (group_key r) key) resources
unfolding group_resources keep listed_under
group_resources_from key [] groups = sym (append-nil (listed_under key groups))
group_resources_from key (r ∷ rest) groups = grind (
  arith,
  str_eq_self key,
  str_eq_iff (group_key r) key,
  append_assoc (listed_under key groups) (r ∷ []) (keep (λ o. str_eq (group_key o) key) rest),
  lookup-insert (group_key r) key (listed_under (group_key r) groups ++ r ∷ []) groups,
  group_resources_from key rest
      (insert (group_key r) (listed_under (group_key r) groups ++ r ∷ []) groups),
)

-- The group that GetResourcesByNamespace makes for a namespace has the resources of that namespace,
-- in their order.
get_resources_by_namespace-keep :
    (key : Bytes) (resources : List Object)
    → listed_under key (get_resources_by_namespace resources)
      ≡ keep (λ r. str_eq (group_key r) key) resources
unfolding get_resources_by_namespace listed_under lookup
get_resources_by_namespace-keep key resources = group_resources_from key resources []
