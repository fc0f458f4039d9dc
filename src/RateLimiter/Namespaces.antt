-- ===== src/RateLimiter/Namespaces.antt =====
-- What the cleanup of unused limiters keeps.
use dynamic_annotation_contr.Base.{
  ℕ, ◌+◌, ◌≤◌, ◌≡◌, false, arith, Bytes, All, delete_all-keys_where, [], ◌∷◌, Assoc,
}
use dynamic_annotation_contr.Api.{Time}
use dynamic_annotation_contr.RateLimiter.{
  AnnotationRateLimiter, NamespaceLimiters, is_unused, cleanup_unused_namespace_limiters,
}

-- used within the age
abbrev IsRecent : {L : Type 0} → ℕ → Time → Bytes × NamespaceLimiters L → Type 0
IsRecent max_age now (namespace, ls) = now ≤ ls.last_used + max_age

recent :
    {L : Type 0} (max_age : ℕ) (now : Time) (m : Assoc (NamespaceLimiters L))
    → All (λ entry. is_unused max_age now entry ≡ false) m
    → All (IsRecent max_age now) m
unfolding is_unused
recent max_age now [] h = tt
recent max_age now ((namespace, ls) ∷ m) h = ground (arith, recent max_age now m h.1)

-- After a cleanup every namespace that has limiters was used within the age.
cleanup_unused-IsRecent :
    {L : Type 0} (max_age : ℕ) (now : Time) (s : AnnotationRateLimiter L)
    → All (IsRecent max_age now) (cleanup_unused_namespace_limiters max_age now s).namespaces
unfolding cleanup_unused_namespace_limiters
cleanup_unused-IsRecent max_age now s =
    recent max_age now _ (delete_all-keys_where (is_unused max_age now) s.namespaces)
