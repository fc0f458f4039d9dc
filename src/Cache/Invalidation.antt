-- ===== src/Cache/Invalidation.antt =====
-- What an invalidation leaves in the cache.
use dynamic_annotation_contr.Base.{
  ℕ, ◌+◌, ◌≤◌, ◌≡◌, false, arith, Bytes, All, delete_all-keys_where, [], ◌∷◌, Assoc, is_empty,
  str_eq,
}
use dynamic_annotation_contr.Api.{Time}
use dynamic_annotation_contr.Cache.{
  ResourceCache, CacheEntry, is_matching, is_expired, is_expired_entry, invalidate_cache,
  invalidate_expired_entries,
}

-- an entry of another namespace
abbrev pub IsElsewhere : Bytes → Bytes × CacheEntry → Type 0
IsElsewhere namespace (key, entry) = str_eq entry.namespace namespace ≡ false

elsewhere :
    (namespace : Bytes) (m : Assoc CacheEntry)
    → is_empty namespace ≡ false
    → All (λ entry. is_matching namespace [] entry ≡ false) m
    → All (IsElsewhere namespace) m
unfolding is_matching
elsewhere namespace [] hn h = tt
elsewhere namespace ((key, entry) ∷ m) hn h = ground (arith, elsewhere namespace m hn h.1)

-- After the cache of a namespace is invalidated, no entry of that namespace is left.
pub invalidate_cache-IsElsewhere :
    (namespace : Bytes) (rc : ResourceCache)
    → is_empty namespace ≡ false
    → All (IsElsewhere namespace) (invalidate_cache namespace [] rc).cache
unfolding invalidate_cache
invalidate_cache-IsElsewhere namespace rc hn =
    elsewhere namespace _ hn (delete_all-keys_where (is_matching namespace []) rc.cache)

-- within its time to live
abbrev IsFresh : ℕ → Time → Bytes × CacheEntry → Type 0
IsFresh ttl now (key, entry) = now ≤ entry.last_updated + ttl

fresh :
    (ttl : ℕ) (now : Time) (m : Assoc CacheEntry)
    → All (λ entry. is_expired_entry ttl now entry ≡ false) m
    → All (IsFresh ttl now) m
unfolding is_expired_entry is_expired
fresh ttl now [] h = tt
fresh ttl now ((key, entry) ∷ m) h = ground (arith, fresh ttl now m h.1)

-- After the expired entries are invalidated, every entry is within its time to live.
invalidate_expired_entries-IsFresh :
    (now : Time) (rc : ResourceCache)
    → All (IsFresh rc.ttl now) (invalidate_expired_entries now rc).cache
unfolding invalidate_expired_entries
invalidate_expired_entries-IsFresh now rc =
    fresh rc.ttl now _ (delete_all-keys_where (is_expired_entry rc.ttl now) rc.cache)
