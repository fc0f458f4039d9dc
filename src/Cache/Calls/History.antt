-- ===== src/Cache/Calls/History.antt =====
-- What the cache holds after any calls.
use dynamic_annotation_contr.Base.{
  ◌+◌, IsDistinct, insert-IsDistinct, delete-IsDistinct, delete_all-IsDistinct,
  lookup-delete_all-keys_where, ℕ, ◌≡◌, ◌<◌, ◌⊎◌, refl, none, List, [], ◌∷◌, arith, Bytes, Assoc,
  lookup, lookup-insert, lookup-delete, KeptOrGone, keys_where,
}
use dynamic_annotation_contr.Cache.{
  get_cached_resources, ResourceCache, CacheEntry, SelectorText, new_resource_cache,
  generate_cache_key, cache_resources, is_matching, invalidate_cache, is_expired_entry,
  invalidate_expired_entries, clear_cache, evict_oldest_entry, find_oldest,
}
use dynamic_annotation_contr.Cache.Bounds.{
  IsBounded, cache_resources-IsBounded, invalidation-IsBounded,
}
use dynamic_annotation_contr.Cache.Lookups.{get_cached_resources-ttl}
use dynamic_annotation_contr.Cache.Calls.{
  CacheCall, looked_up, stored, invalidated, swept, cleared, make_call, cache_after, expected,
}

-- An eviction is counted, and takes away one entry.
evict_oldest_entry_lem :
    (key : Bytes) (rc : ResourceCache)
    → let rc' = evict_oldest_entry rc in
      (lookup key rc'.cache ≡ lookup key rc.cache) × (rc'.evictions ≡ rc.evictions)
      ⊎ (KeptOrGone key rc.cache rc'.cache × (rc'.evictions ≡ rc.evictions + 1))
unfolding evict_oldest_entry
evict_oldest_entry_lem key rc =
    grind (arith, lookup-delete (find_oldest [] 0 rc.cache) key rc.cache)

evict_oldest_entry-IsDistinct :
    (rc : ResourceCache) → IsDistinct rc.cache → IsDistinct (evict_oldest_entry rc).cache
unfolding evict_oldest_entry
evict_oldest_entry-IsDistinct rc h =
    grind (arith, delete-IsDistinct (find_oldest [] 0 rc.cache) rc.cache h)

module _ (texts : SelectorText) (ttl max_entries : ℕ) where
  -- The limits stay as configured.
  make_call-limits :
      (call : CacheCall) (rc : ResourceCache)
      → let rc' = make_call texts call rc in (rc'.ttl ≡ rc.ttl) × (rc'.max_entries ≡ rc.max_entries)
  unfolding make_call cache_resources evict_oldest_entry invalidate_cache invalidate_expired_entries
      clear_cache
  make_call-limits (looked_up selector types namespace now) rc =
      grind (arith, get_cached_resources-ttl texts selector types namespace now rc)
  make_call-limits (stored selector types namespace resources now) rc = grind arith
  make_call-limits (invalidated namespace resource_type) rc = (refl, refl)
  make_call-limits (swept now) rc = (refl, refl)
  make_call-limits cleared rc = (refl, refl)

  cache_after-limits :
      (calls : List CacheCall)
      → let rc = cache_after texts ttl max_entries calls in
        (rc.ttl ≡ ttl) × (rc.max_entries ≡ max_entries)
  unfolding new_resource_cache
  cache_after-limits [] = (refl, refl)
  cache_after-limits (call ∷ calls) = grind (
    arith,
    make_call-limits call (cache_after texts ttl max_entries calls),
    cache_after-limits calls,
  )

  -- In every interleaving, also with the background cleanup, the cache holds at most the configured
  -- number of entries. (That number is not zero.)
  pub cache_after-IsBounded :
      (calls : List CacheCall)
      → 0 < max_entries
      → IsBounded (cache_after texts ttl max_entries calls)
  unfolding new_resource_cache make_call
  cache_after-IsBounded [] h = (omega arith, tt)
  cache_after-IsBounded (looked_up selector types namespace now ∷ calls) h = grind (
    arith,
    get_cached_resources-ttl texts selector types namespace now
        (cache_after texts ttl max_entries calls),
    cache_after-IsBounded calls h,
  )
  cache_after-IsBounded (stored selector types namespace resources now ∷ calls) h =
      cache_resources-IsBounded texts selector types namespace resources now
        (cache_after texts ttl max_entries calls) (rw (cache_after-limits calls).1 h)
        (cache_after-IsBounded calls h)
  cache_after-IsBounded (invalidated namespace resource_type ∷ calls) h =
      (invalidation-IsBounded namespace resource_type 0 (cache_after texts ttl max_entries calls)
        (cache_after-IsBounded calls h)).0
  cache_after-IsBounded (swept now ∷ calls) h =
      (invalidation-IsBounded [] [] now (cache_after texts ttl max_entries calls)
        (cache_after-IsBounded calls h)).1
  cache_after-IsBounded (cleared ∷ calls) h =
      (invalidation-IsBounded [] [] 0 (cache_after texts ttl max_entries calls)
        (cache_after-IsBounded calls h)).2

  make_call-IsDistinct :
      (call : CacheCall) (rc : ResourceCache)
      → IsDistinct rc.cache
      → IsDistinct (make_call texts call rc).cache
  unfolding make_call cache_resources invalidate_cache invalidate_expired_entries clear_cache
  make_call-IsDistinct (looked_up selector types namespace now) rc h =
      rw (get_cached_resources-ttl texts selector types namespace now rc).0 h
  make_call-IsDistinct (stored selector types namespace resources now) rc h = grind (
    arith,
    evict_oldest_entry-IsDistinct rc h,
    λ (entry : CacheEntry) (m : Assoc CacheEntry).
        insert-IsDistinct (generate_cache_key texts selector types namespace) entry m,
  )
  make_call-IsDistinct (invalidated namespace resource_type) rc h =
      delete_all-IsDistinct (keys_where (is_matching namespace resource_type) rc.cache) rc.cache h
  make_call-IsDistinct (swept now) rc h =
      delete_all-IsDistinct (keys_where (is_expired_entry rc.ttl now) rc.cache) rc.cache h
  make_call-IsDistinct cleared rc h = tt

  cache_after-IsDistinct :
      (calls : List CacheCall) → IsDistinct (cache_after texts ttl max_entries calls).cache
  unfolding new_resource_cache
  cache_after-IsDistinct [] = tt
  cache_after-IsDistinct (call ∷ calls) =
      make_call-IsDistinct call (cache_after texts ttl max_entries calls)
        (cache_after-IsDistinct calls)

  -- What the cache holds is expected, or it holds nothing and has counted an eviction.
  abbrev Refines : Bytes → List CacheCall → ResourceCache → Type 0
  Refines key calls rc =
      (lookup key rc.cache ≡ expected texts ttl key calls)
      ⊎ ((lookup key rc.cache ≡ none) × (0 < rc.evictions))

  module _ (key : Bytes) (calls : List CacheCall) (rc : ResourceCache) where
    -- where each call leads from a cache that refines the history
    make_call-Refines :
        (call : CacheCall)
        → IsDistinct rc.cache
        → rc.ttl ≡ ttl
        → Refines key calls rc
        → Refines key (call ∷ calls) (make_call texts call rc)
    unfolding make_call cache_resources invalidate_cache invalidate_expired_entries clear_cache
        lookup get_cached_resources
    make_call-Refines (looked_up selector types namespace now) hd ht h = grind arith
    make_call-Refines (stored selector types namespace resources now) hd ht h = grind (
      arith,
      λ (entry : CacheEntry) (m : Assoc CacheEntry).
          lookup-insert (generate_cache_key texts selector types namespace) key entry m,
      evict_oldest_entry_lem key rc,
    )
    make_call-Refines (invalidated namespace resource_type) hd ht h =
        grind (
          arith,
          lookup-delete_all-keys_where (is_matching namespace resource_type) key rc.cache hd,
        )
    make_call-Refines (swept now) hd ht h =
        grind (arith, lookup-delete_all-keys_where (is_expired_entry rc.ttl now) key rc.cache hd)
    make_call-Refines cleared hd ht h = grind arith

  -- After any calls the cache holds under a key what a cache without a bound would hold: the
  -- resources that were stored last for the query, unless they were invalidated, found expired by
  -- the cleanup, or cleared since. Otherwise it holds nothing and has counted an eviction, so that
  -- an eviction can lose an entry but never brings back an old one.
  pub cache_after-expected :
      (key : Bytes) (calls : List CacheCall)
      → let rc = cache_after texts ttl max_entries calls in
        (lookup key rc.cache ≡ expected texts ttl key calls)
        ⊎ ((lookup key rc.cache ≡ none) × (0 < rc.evictions))
  unfolding new_resource_cache lookup
  cache_after-expected key [] = grind arith
  cache_after-expected key (call ∷ calls) =
      make_call-Refines key calls (cache_after texts ttl max_entries calls) call
        (cache_after-IsDistinct calls) (cache_after-limits calls).0 (cache_after-expected key calls)
