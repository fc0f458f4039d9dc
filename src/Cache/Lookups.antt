-- ===== src/Cache/Lookups.antt =====
-- What the cache answers.
use dynamic_annotation_contr.Base.{
  ◌+◌, ◌≡◌, ◌≤◌, some, List, arith, Bytes, lookup, lookup-insert, str_eq_self,
}
use dynamic_annotation_contr.Api.{Time, Object, LabelSelector}
use dynamic_annotation_contr.Cache.{
  ResourceCache, CacheEntry, SelectorText, generate_cache_key, cache_resources,
  get_cached_resources, is_expired, evict_oldest_entry,
}

-- A query that was cached is answered from the cache, as a hit, as long as its time to live has not
-- passed.
pub get-cache_resources :
    (texts : SelectorText) (selector : LabelSelector) (types : List Bytes) (namespace : Bytes)
    (resources : List Object) (now later : Time) (rc : ResourceCache)
    → later ≤ now + rc.ttl
    → let cached = cache_resources texts selector types namespace resources now rc in
      get_cached_resources texts selector types namespace later cached
      ≡ (some resources, record cached { hits = cached.hits + 1 })
unfolding get_cached_resources cache_resources is_expired evict_oldest_entry
get-cache_resources texts selector types namespace resources now later rc h = grind (
  arith,
  str_eq_self (generate_cache_key texts selector types namespace),
  λ (entry : CacheEntry) (m : List (Bytes × CacheEntry)).
      lookup-insert (generate_cache_key texts selector types namespace)
        (generate_cache_key texts selector types namespace) entry m,
)

-- What the cache answers is what it has stored under the key of the query, and not past its time to
-- live.
get_cached_resources-fresh :
    (texts : SelectorText) (selector : LabelSelector) (types : List Bytes) (namespace : Bytes)
    (resources : List Object) (now : Time) (rc : ResourceCache)
    → (get_cached_resources texts selector types namespace now rc).0 ≡ some resources
    → (entry : CacheEntry) × (lookup (generate_cache_key texts selector types namespace) rc.cache
        ≡ some entry)
      × (entry.resources ≡ resources)
      × (now ≤ entry.last_updated + rc.ttl)
unfolding get_cached_resources is_expired
get_cached_resources-fresh texts selector types namespace resources now rc h = grind arith

-- A lookup counts, and changes neither the entries nor the limits.
pub get_cached_resources-ttl :
    (texts : SelectorText) (selector : LabelSelector) (types : List Bytes) (namespace : Bytes)
    (now : Time) (rc : ResourceCache)
    → let rc' = (get_cached_resources texts selector types namespace now rc).1 in
      (rc'.cache ≡ rc.cache) × (rc'.ttl ≡ rc.ttl) × (rc'.max_entries ≡ rc.max_entries)
unfolding get_cached_resources
get_cached_resources-ttl texts selector types namespace now rc = grind arith
