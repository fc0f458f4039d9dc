-- ===== src/Cache/Calls.antt =====
-- The calls that the goroutines make on the shared cache of internal/resource/cache.go. Each of them
-- holds the mutex, so any interleaving of the goroutines is a list of calls.
pub mod History
use dynamic_annotation_contr.Base.{
  unless, ℕ, Bool, Option, none, some, List, [], ◌∷◌, Bytes, if◌then◌else◌, str_eq,
}
use dynamic_annotation_contr.Api.{Time, Object, LabelSelector}
use dynamic_annotation_contr.Ticker.{TickerEvent, run_ticker}
use dynamic_annotation_contr.Cache.{
  ResourceCache, CacheEntry, SelectorText, new_resource_cache, generate_cache_key,
  get_cached_resources, cache_resources, is_matching, invalidate_cache, is_expired_entry,
  invalidate_expired_entries, clear_cache,
}

-- StartCleanupRoutine
unfoldable pub start_cleanup_routine : List TickerEvent → ResourceCache → ResourceCache
start_cleanup_routine = run_ticker invalidate_expired_entries

pub data CacheCall : Type 0 where
  looked_up : LabelSelector → List Bytes → Bytes → Time → CacheCall
  stored : LabelSelector → List Bytes → Bytes → List Object → Time → CacheCall
  invalidated : Bytes → Bytes → CacheCall
  swept : Time → CacheCall
  cleared : CacheCall

module _ (texts : SelectorText) where
  unfoldable pub make_call : CacheCall → ResourceCache → ResourceCache
  make_call (looked_up selector types namespace now) rc =
      (get_cached_resources texts selector types namespace now rc).1
  make_call (stored selector types namespace resources now) rc =
      cache_resources texts selector types namespace resources now rc
  make_call (invalidated namespace resource_type) rc = invalidate_cache namespace resource_type rc
  make_call (swept now) rc = invalidate_expired_entries now rc
  make_call cleared rc = clear_cache rc

  -- A new cache after the calls, of which the last one stands first.
  abbrev pub cache_after : ℕ → ℕ → List CacheCall → ResourceCache
  cache_after ttl max_entries [] = new_resource_cache ttl max_entries
  cache_after ttl max_entries (call ∷ calls) = make_call call (cache_after ttl max_entries calls)

  -- What a cache without a bound holds under a key: what was stored last, unless it was dropped since.
  abbrev pub expected : ℕ → Bytes → List CacheCall → Option CacheEntry
  expected ttl key [] = none
  expected ttl key (looked_up selector types namespace now ∷ calls) = expected ttl key calls
  expected ttl key (stored selector types namespace resources now ∷ calls) =
      if str_eq (generate_cache_key texts selector types namespace) key
      then some (record {
        resources = resources;
        last_updated = now;
        selector = texts.printed selector;
        namespace = namespace;
      })
      else expected ttl key calls
  expected ttl key (invalidated namespace resource_type ∷ calls) =
      unless (is_matching namespace resource_type) key (expected ttl key calls)
  expected ttl key (swept now ∷ calls) =
      unless (is_expired_entry ttl now) key (expected ttl key calls)
  expected ttl key (cleared ∷ calls) = none
