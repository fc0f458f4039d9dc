-- ===== src/Manager/Groups/Keys.antt =====
-- What removeAnnotationKeysFromResource of internal/resource/manager.go takes from a resource.
use dynamic_annotation_contr.Base.{
  ℕ, ◌≡◌, ◌≢◌, ◌&&◌, not, ◌∙◌, ◌+◌, false, none, List, [], ◌∷◌, if◌then◌else◌, arith, Bytes, str_eq,
  str_eq_iff, any, All, Assoc, lookup, delete, lookup-delete, refl,
}
use dynamic_annotation_contr.Tracking.{
  tracking_key, tracked_keys, untrack_annotation_application, was_annotation_applied_by_rule,
}
use dynamic_annotation_contr.Tracking.Laws.{
  IsTracked, lookup-untrack, was_applied-untrack, untrack-IsTracked, tracked_keys-write,
}
use dynamic_annotation_contr.Manager.Groups.{remove_keys}

module _ (rule_id j : Bytes) where
  -- The annotations once a key that the rule has applied is removed: what stands under `j`, and
  -- whether the rule is found to have applied it.
  module _ (key : Bytes) (m : Assoc Bytes) where
    abbrev removed : Assoc Bytes
    removed = untrack_annotation_application (delete key m) key rule_id

    delete-tracked :
        key ≢ tracking_key rule_id → tracked_keys (delete key m) rule_id ≡ tracked_keys m rule_id
    delete-tracked hk = (tracked_keys-write m key [] rule_id hk).1

    delete-IsTracked :
        key ≢ tracking_key rule_id → IsTracked m rule_id → IsTracked (delete key m) rule_id
    delete-IsTracked hk ht = rw (delete-tracked hk) ht

    removed-applied :
        key ≢ tracking_key rule_id
        → IsTracked m rule_id
        → was_annotation_applied_by_rule removed j rule_id
          ≡ (not (str_eq key j) && was_annotation_applied_by_rule m j rule_id)
    unfolding was_annotation_applied_by_rule
    removed-applied hk ht =
        was_applied-untrack (delete key m) key j rule_id (delete-IsTracked hk ht)
        ∙ rw (delete-tracked hk) refl

    removed-lookup :
        str_eq (tracking_key rule_id) j ≡ false
        → lookup j removed ≡ (if str_eq key j then none else lookup j m)
    removed-lookup hj = lookup-untrack (delete key m) key j rule_id hj ∙ lookup-delete key j m

  -- The removal of keys takes away those that the rule has applied and no other: an annotation that
  -- is not listed, or that the rule has not applied, stays as it is. (The tracking annotation of the
  -- rule, if there is one, lists keys that a validator lets pass; neither the annotation that is
  -- looked at nor a listed key is that annotation.)
  pub lookup-remove_keys :
      (keys : List Bytes) (m : Assoc Bytes) (count : ℕ)
      → str_eq (tracking_key rule_id) j ≡ false
      → All (λ k. k ≢ tracking_key rule_id) keys
      → IsTracked m rule_id
      → lookup j (remove_keys m keys rule_id count).0 ≡ (
          if was_annotation_applied_by_rule m j rule_id && any (λ k. str_eq k j) keys
          then none
          else lookup j m)
  unfolding remove_keys any
  lookup-remove_keys [] m count hj hk ht = ground arith
  lookup-remove_keys (key ∷ keys) m count hj hk ht = grind (
    arith,
    str_eq_iff key j,
    removed-applied key m hk.0 ht,
    removed-lookup key m hj,
    lookup-remove_keys keys m count hj hk.1 ht,
    lookup-remove_keys keys (removed key m) (count + 1) hj hk.1
        (untrack-IsTracked (delete key m) key rule_id (delete-IsTracked key m hk.0 ht)),
  )
