-- ===== src/Manager/Discovery.antt =====
-- GetMatchingResources and the other queries of internal/resource/manager.go: the rate limit, the
-- cache, and the lists of the API. A query takes the cluster and the services of the manager, and
-- returns both.
pub mod Queries
use dynamic_annotation_contr.Base.{
  ℕ, Bool, true, false, ◌||◌, Option, none, some, List, [], ◌∷◌, ◌++◌, if◌then◌else◌, ltb, length,
  is_empty, Bytes, codes, str_eq, keep, Assoc, lookup, insert,
}
use dynamic_annotation_contr.Api.{Time, Object, LabelSelector}
use dynamic_annotation_contr.Client.{Client, Result, ok, err}
use dynamic_annotation_contr.Cache.{
  ResourceCache, SelectorText, get_cached_resources, cache_resources,
}
use dynamic_annotation_contr.RateLimiter.{
  TokenBucket, AnnotationRateLimiter, LimitError, operation_query, wait_operation,
}

-- The parts of `ResourceManager` that have a state; none is the nil pointer.
pub record Services (L : Type 0) : Type 0 where
  pub cache : Option ResourceCache
  pub rate_limiter : Option (AnnotationRateLimiter L)

-- The readings of the clock of one query: the two of the rate limit, and the two of the cache.
pub record QueryTimes : Type 0 where
  pub asked : Time
  pub admitted : Time
  pub looked_up : Time
  pub stored : Time

-- the errors of getResourcesByType
pub data ListError (E : Type 0) : Type 0 where
  unsupported_type : Bytes → ListError E
  list_failed : Bytes → E → ListError E

pub data QueryError (F : Type 0) : Type 0 where
  query_limited : LimitError F → QueryError F
  bad_selector : QueryError F

-- the cases of the `switch` on the resource type
unfoldable pub is_listed : Bytes → Bool
is_listed resource_type =
    str_eq resource_type (codes "pods")
    || str_eq resource_type (codes "deployments")
    || str_eq resource_type (codes "statefulsets")
    || str_eq resource_type (codes "daemonsets")

module _ {L C F : Type 0} (bucket : TokenBucket L C F) (ctx : C) where
  -- rm.RateLimiter.Wait, where there is a rate limiter
  unfoldable pub wait_if_limited :
      Bytes → Bytes → Time → Time → Services L → Option (LimitError F) × Services L
  wait_if_limited operation namespace asked admitted s = elim s.rate_limiter [
    | none ↦ (none, s)
    | some limiter ↦
        let (failure, limiter') =
          wait_operation bucket ctx operation namespace asked admitted limiter in
        (failure, record s { rate_limiter = some limiter' })
  ]

module _ (texts : SelectorText) {L : Type 0} where
  -- rm.Cache.GetCachedResources, where there is a cache
  unfoldable pub look_up :
      LabelSelector → List Bytes → Bytes → Time → Services L → Option (List Object) × Services L
  look_up selector resource_types namespace now s = elim s.cache [
    | none ↦ (none, s)
    | some rc ↦
        let (found, rc') = get_cached_resources texts selector resource_types namespace now rc in
        (found, record s { cache = some rc' })
  ]

  -- rm.Cache.CacheResources, where there is a cache
  unfoldable pub store :
      LabelSelector → List Bytes → Bytes → List Object → Time → Services L → Services L
  store selector resource_types namespace resources now s = elim s.cache [
    | none ↦ s
    | some rc ↦ record s {
      cache = some (cache_resources texts selector resource_types namespace resources now rc);
    }
  ]

module _ {W E : Type 0} (client : Client W E) where
  unfoldable pub get_resources_by_type :
      Bytes → LabelSelector → Bytes → W → Result (ListError E) (List Object) × W
  get_resources_by_type resource_type selector namespace w =
      let (listed, w') = client.list resource_type selector namespace w in
      if is_listed resource_type
      then (
        elim listed [ ok resources ↦ ok resources | err e ↦ err (list_failed resource_type e) ],
        w',
      )
      else (err (unsupported_type resource_type), w)

  -- The loop over the resource types; one that cannot be listed is passed over.
  unfoldable pub collect_resources : List Bytes → LabelSelector → Bytes → W → List Object × W
  collect_resources [] selector namespace w = ([], w)
  collect_resources (resource_type ∷ rest) selector namespace w =
      let (listed, w₁) = get_resources_by_type resource_type selector namespace w in
      let (others, w₂) = collect_resources rest selector namespace w₁ in
      (elim listed [ ok resources ↦ resources ++ others | err e ↦ others ], w₂)

  -- The loop of CountResourcesByType, on the counts so far.
  unfoldable count_types : List Bytes → LabelSelector → Bytes → Assoc ℕ → W → Assoc ℕ × W
  count_types [] selector namespace counts w = (counts, w)
  count_types (resource_type ∷ rest) selector namespace counts w =
      let (listed, w₁) = get_resources_by_type resource_type selector namespace w in
      let count : ℕ = elim listed [ ok resources ↦ length resources | err e ↦ 0 ] in
      count_types rest selector namespace (insert resource_type count counts) w₁

  -- The loop of HasMatchingResources, which ends at the first type with a resource.
  has_type : List Bytes → LabelSelector → Bytes → W → Bool × W
  has_type [] selector namespace w = (false, w)
  has_type (resource_type ∷ rest) selector namespace w =
      let (listed, w₁) = get_resources_by_type resource_type selector namespace w in
      let later = has_type rest selector namespace w₁ in
      elim listed [
        | ok resources ↦ if ltb 0 (length resources) then (true, w₁) else later
        | err e ↦ later
      ]

  module _ (texts : SelectorText) where
    unfoldable count_resources_by_type :
        LabelSelector → List Bytes → Bytes → W → Option (Assoc ℕ) × W
    count_resources_by_type selector resource_types namespace w =
        let (counts, w') = count_types resource_types selector namespace [] w in
        elim (texts.canonical selector) [ none ↦ (none, w) | some t ↦ (some counts, w') ]

    pub has_matching_resources : LabelSelector → List Bytes → Bytes → W → Option Bool × W
    has_matching_resources selector resource_types namespace w =
        let (found, w') = has_type resource_types selector namespace w in
        elim (texts.canonical selector) [ none ↦ (none, w) | some t ↦ (some found, w') ]

    module _ {L C F : Type 0} (bucket : TokenBucket L C F) (ctx : C) where
      unfoldable pub get_matching_resources :
          LabelSelector
          → List Bytes
          → Bytes
          → QueryTimes
          → Services L
          → W
          → Result (QueryError F) (List Object) × Services L × W
      get_matching_resources selector resource_types namespace times s w =
          let (limited, s₁) =
            wait_if_limited bucket ctx operation_query namespace times.asked times.admitted s in
          let (found, s₂) = look_up texts selector resource_types namespace times.looked_up s₁ in
          let (resources, w') = collect_resources resource_types selector namespace w in
          elim limited [
            | some e ↦ (err (query_limited e), s₁, w)
            | none ↦ elim found [
              | some cached ↦ (ok cached, s₂, w)
              | none ↦ elim (texts.canonical selector) [
                | none ↦ (err bad_selector, s₂, w)
                | some t ↦ (
                  ok resources,
                  store texts selector resource_types namespace resources times.stored s₂,
                  w',
                )
              ]
            ]
          ]

-- FilterResourcesBySelector, none for a selector that is no selector; `matches` is
-- labels.Selector.Matches.
unfoldable filter_resources_by_selector :
    SelectorText
    → (LabelSelector → Assoc Bytes → Bool)
    → List Object
    → LabelSelector
    → Option (List Object)
filter_resources_by_selector texts matches resources selector = elim (texts.canonical selector) [
  | none ↦ none
  | some t ↦ some (keep (λ resource. matches selector resource.labels) resources)
]

-- the key that a resource is grouped under
unfoldable group_key : Object → Bytes
group_key resource =
    if is_empty resource.namespace then codes "cluster-scoped" else resource.namespace

listed_under : Bytes → Assoc (List Object) → List Object
listed_under key groups = elim (lookup key groups) [ none ↦ [] | some l ↦ l ]

-- the loop of GetResourcesByNamespace, on the groups so far
group_resources : List Object → Assoc (List Object) → Assoc (List Object)
group_resources [] groups = groups
group_resources (resource ∷ rest) groups =
    group_resources rest (
      insert (group_key resource) (listed_under (group_key resource) groups ++ resource ∷ [])
        groups)

get_resources_by_namespace : List Object → Assoc (List Object)
get_resources_by_namespace resources = group_resources resources []
