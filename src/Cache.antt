-- ===== src/Cache.antt =====
-- internal/resource/cache.go: the cache of resource queries. The text of a label selector is made by
-- apimachinery: it is a parameter. An object is a value here, so its deep copy is the object.
pub mod Lookups
pub mod Bounds
pub mod Invalidation
pub mod Calls
use dynamic_annotation_contr.Base.{
  keys_where, delete_all, ℕ, ◌+◌, ◌-◌, Bool, true, false, not, ◌&&◌, ◌||◌, Option, none, some, List,
  [], ◌∷◌, ◌++◌, if◌then◌else◌, ltb, leb, length, is_empty, Bytes, codes, str_eq, contains, Assoc,
  lookup, insert, delete,
}
use dynamic_annotation_contr.Api.{Time, Object, LabelSelector}
use dynamic_annotation_contr.Tracking.{format_keys}

pub record CacheEntry : Type 0 where
  pub resources : List Object
  pub last_updated : Time
  pub selector : Bytes
  pub namespace : Bytes

pub record ResourceCache : Type 0 where
  pub cache : Assoc CacheEntry
  pub ttl : ℕ
  pub max_entries : ℕ
  pub hits : ℕ
  pub misses : ℕ
  pub evictions : ℕ

unfoldable pub new_resource_cache : ℕ → ℕ → ResourceCache
new_resource_cache ttl max_entries = record {
  cache = [];
  ttl = ttl;
  max_entries = max_entries;
  hits = 0;
  misses = 0;
  evictions = 0;
}

-- What apimachinery makes of a selector: `LabelSelectorAsSelector(s).String()`, or none for its
-- error, and `s.String()`.
pub record SelectorText : Type 0 where
  pub canonical : LabelSelector → Option Bytes
  pub printed : LabelSelector → Bytes

-- "%s:%s:%v"; the resource types are printed as the keys of a tracking annotation are.
unfoldable pub generate_cache_key : SelectorText → LabelSelector → List Bytes → Bytes → Bytes
generate_cache_key texts selector resource_types namespace =
    let text : Bytes = elim (texts.canonical selector) [ none ↦ [] | some t ↦ t ] in
    let shown =
      if not (is_empty selector.match_labels) || not (is_empty selector.match_expressions)
      then text
      else [] in
    namespace ++ b':' ∷ (shown ++ b':' ∷ format_keys resource_types)

-- time.Since(entry.LastUpdated) > ttl
unfoldable pub is_expired : ℕ → Time → CacheEntry → Bool
is_expired ttl now entry = ltb ttl (now - entry.last_updated)

-- The loop over the entries, with the oldest key and time so far; the empty key stands for none.
unfoldable pub find_oldest : Bytes → Time → Assoc CacheEntry → Bytes
find_oldest oldest_key oldest_time [] = oldest_key
find_oldest oldest_key oldest_time ((key, entry) ∷ rest) =
    let older = is_empty oldest_key || ltb entry.last_updated oldest_time in
    find_oldest (if older then key else oldest_key)
      (if older then entry.last_updated else oldest_time) rest

unfoldable pub evict_oldest_entry : ResourceCache → ResourceCache
evict_oldest_entry rc =
    let oldest = find_oldest [] 0 rc.cache in
    if is_empty oldest
    then rc
    else record rc { cache = delete oldest rc.cache; evictions = rc.evictions + 1 }

module _ (texts : SelectorText) where
  unfoldable pub get_cached_resources :
      LabelSelector
      → List Bytes
      → Bytes
      → Time
      → ResourceCache
      → Option (List Object) × ResourceCache
  get_cached_resources selector resource_types namespace now rc =
      elim (lookup (generate_cache_key texts selector resource_types namespace) rc.cache) [
        | none ↦ (none, record rc { misses = rc.misses + 1 })
        | some entry ↦
            if is_expired rc.ttl now entry
            then (none, record rc { misses = rc.misses + 1 })
            else (some entry.resources, record rc { hits = rc.hits + 1 })
      ]

  unfoldable pub cache_resources :
      LabelSelector → List Bytes → Bytes → List Object → Time → ResourceCache → ResourceCache
  cache_resources selector resource_types namespace resources now rc =
      let key = generate_cache_key texts selector resource_types namespace in
      let room = if leb rc.max_entries (length rc.cache) then evict_oldest_entry rc else rc in
      let entry : CacheEntry = record {
        resources = resources;
        last_updated = now;
        selector = texts.printed selector;
        namespace = namespace;
      } in
      record room { cache = insert key entry room.cache }

-- the `if`s of the loop of InvalidateCache: an entry that reaches the end of the loop's body
pub is_matching : Bytes → Bytes → Bytes × CacheEntry → Bool
is_matching namespace resource_type (key, entry) =
    if not (is_empty namespace) && not (str_eq entry.namespace namespace)
    then false
    else if not (is_empty resource_type) && not (contains key resource_type)
    then false
    else true

pub invalidate_cache : Bytes → Bytes → ResourceCache → ResourceCache
invalidate_cache namespace resource_type rc = record rc {
  cache = delete_all (keys_where (is_matching namespace resource_type) rc.cache) rc.cache;
}

pub is_expired_entry : ℕ → Time → Bytes × CacheEntry → Bool
is_expired_entry ttl now (key, entry) = is_expired ttl now entry

pub invalidate_expired_entries : Time → ResourceCache → ResourceCache
invalidate_expired_entries now rc =
    let keys = keys_where (is_expired_entry rc.ttl now) rc.cache in
    record rc { cache = delete_all keys rc.cache; evictions = rc.evictions + length keys }

pub clear_cache : ResourceCache → ResourceCache
clear_cache rc = record rc { cache = [] }

-- GetCacheStats: hits, misses, evictions and the size
unfoldable get_cache_stats : ResourceCache → ℕ × ℕ × ℕ × ℕ
get_cache_stats rc = (rc.hits, rc.misses, rc.evictions, length rc.cache)
