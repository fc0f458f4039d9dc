-- ===== src/Cache/Bounds.antt =====
-- The size of the cache.
use dynamic_annotation_contr.Base.{
  keys_where, delete_all, ◌+◌, ◌≡◌, ◌≤◌, ◌<◌, refl, true, false, List, [], ◌∷◌, ◌⊎◌, arith, length,
  is_empty, Bytes, Assoc, insert, delete, All, length-insert, length-delete, str_eq_self, ltb,
}
use dynamic_annotation_contr.Api.{Time, Object, LabelSelector}
use dynamic_annotation_contr.Cache.{
  is_matching, is_expired_entry, invalidate_cache, invalidate_expired_entries, clear_cache,
  cache_resources, evict_oldest_entry, ResourceCache, CacheEntry, ResourceCache, SelectorText,
  find_oldest, evict_oldest_entry, cache_resources, invalidate_cache, invalidate_expired_entries,
  clear_cache, generate_cache_key,
}

-- No key is empty: the text of a key has a colon.
abbrev HasKeys : Assoc CacheEntry → Type 0
HasKeys m = All (λ (entry : Bytes × CacheEntry). is_empty entry.0 ≡ false) m

-- The cache is not larger than configured.
abbrev pub IsBounded : ResourceCache → Type 0
IsBounded rc = (length rc.cache ≤ rc.max_entries) × HasKeys rc.cache

-- one of the keys
abbrev HasKey : Bytes → Assoc CacheEntry → Type 0
HasKey key [] = ⊥
HasKey key ((k, entry) ∷ m) = (k ≡ key) ⊎ HasKey key m

delete-shorter :
    (key : Bytes) (m : Assoc CacheEntry) → HasKey key m → length (delete key m) + 1 ≤ length m
unfolding delete
delete-shorter key [] h = absurd h
delete-shorter key ((k, entry) ∷ m) h =
    ground (arith, str_eq_self k, delete-shorter key m, length-delete key m)

find_oldest_from :
    (key : Bytes) (time : Time) (m : Assoc CacheEntry)
    → HasKeys m
    → is_empty key ≡ false
    → (is_empty (find_oldest key time m) ≡ false)
      × ((find_oldest key time m ≡ key) ⊎ HasKey (find_oldest key time m) m)
unfolding find_oldest
find_oldest_from key time [] h e = ground arith
find_oldest_from key time ((k, entry) ∷ m) h e =
    ground (arith, find_oldest_from key time m h.1, find_oldest_from k entry.last_updated m h.1)

find_oldest-HasKey :
    (m : Assoc CacheEntry)
    → HasKeys m
    → ltb 0 (length m) ≡ true
    → (is_empty (find_oldest [] 0 m) ≡ false) × HasKey (find_oldest [] 0 m) m
unfolding find_oldest
find_oldest-HasKey [] h hl = absurd (ground arith)
find_oldest-HasKey ((k, entry) ∷ m) h hl =
    ground (arith, find_oldest_from k entry.last_updated m h.1)

generate_cache_key-not_empty :
    (texts : SelectorText) (selector : LabelSelector) (types : List Bytes) (namespace : Bytes)
    → is_empty (generate_cache_key texts selector types namespace) ≡ false
unfolding generate_cache_key
generate_cache_key-not_empty texts selector types [] = refl
generate_cache_key-not_empty texts selector types (c ∷ namespace) = refl

insert-HasKeys :
    (key : Bytes) (entry : CacheEntry) (m : Assoc CacheEntry)
    → is_empty key ≡ false
    → HasKeys m
    → HasKeys (insert key entry m)
unfolding insert
insert-HasKeys key entry [] e h = (e, tt)
insert-HasKeys key entry ((k, x) ∷ m) e h = ground (arith, insert-HasKeys key entry m)

delete-HasKeys : (key : Bytes) (m : Assoc CacheEntry) → HasKeys m → HasKeys (delete key m)
unfolding delete
delete-HasKeys key [] h = tt
delete-HasKeys key ((k, x) ∷ m) h = ground (arith, delete-HasKeys key m)

delete_all-IsBounded :
    (keys : List Bytes) (m : Assoc CacheEntry)
    → HasKeys m
    → (length (delete_all keys m) ≤ length m) × HasKeys (delete_all keys m)
unfolding delete_all
delete_all-IsBounded [] m h = (omega arith, h)
delete_all-IsBounded (key ∷ keys) m h =
    ground
      (arith, delete-HasKeys key m, length-delete key m, delete_all-IsBounded keys (delete key m))

-- An eviction makes room for one entry.
evict_oldest_entry-room :
    (rc : ResourceCache)
    → HasKeys rc.cache
    → ltb 0 (length rc.cache) ≡ true
    → (length (evict_oldest_entry rc).cache + 1 ≤ length rc.cache)
      × HasKeys (evict_oldest_entry rc).cache
      × ((evict_oldest_entry rc).max_entries ≡ rc.max_entries)
unfolding evict_oldest_entry
evict_oldest_entry-room rc h hl = ground (
  arith,
  find_oldest-HasKey rc.cache h hl,
  delete-shorter (find_oldest [] 0 rc.cache) rc.cache,
  delete-HasKeys (find_oldest [] 0 rc.cache) rc.cache h,
)

-- A cache that holds at most the configured number of entries, which is not zero, still does so
-- after a query is cached.
pub cache_resources-IsBounded :
    (texts : SelectorText) (selector : LabelSelector) (types : List Bytes) (namespace : Bytes)
    (resources : List Object) (now : Time) (rc : ResourceCache)
    → 0 < rc.max_entries
    → IsBounded rc
    → IsBounded (cache_resources texts selector types namespace resources now rc)
unfolding cache_resources
cache_resources-IsBounded texts selector types namespace resources now rc hm h = grind (
  arith,
  evict_oldest_entry-room rc,
  generate_cache_key-not_empty texts selector types namespace,
  λ (entry : CacheEntry) (m : Assoc CacheEntry).
      insert-HasKeys (generate_cache_key texts selector types namespace) entry m,
  λ (entry : CacheEntry) (m : Assoc CacheEntry).
      length-insert (generate_cache_key texts selector types namespace) entry m,
)

-- Neither invalidation nor clearing makes a cache too large.
pub invalidation-IsBounded :
    (namespace resource_type : Bytes) (now : Time) (rc : ResourceCache)
    → IsBounded rc
    → IsBounded (invalidate_cache namespace resource_type rc)
      × IsBounded (invalidate_expired_entries now rc)
      × IsBounded (clear_cache rc)
unfolding invalidate_cache invalidate_expired_entries clear_cache
invalidation-IsBounded namespace resource_type now rc h = ground (
  arith,
  delete_all-IsBounded (keys_where (is_matching namespace resource_type) rc.cache) rc.cache,
  delete_all-IsBounded (keys_where (is_expired_entry rc.ttl now) rc.cache) rc.cache,
)
