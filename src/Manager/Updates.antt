-- ===== src/Manager/Updates.antt =====
-- What reaches the cluster when an update meets conflicts.
use dynamic_annotation_contr.Base.{
  ◌⊎◌, Option, not, ◌&&◌, if◌then◌else◌, is_empty, str_eq, lookup, lookup-insert, [], ◌∷◌, ℕ, zero,
  suc, ◌+◌, ◌≤◌, ◌≡◌, refl, true, none, some, arith, Assoc, Bytes, inl, inr, Option-cases,
}
use dynamic_annotation_contr.Api.{Object}
use dynamic_annotation_contr.Client.{Client, Result, ok, err}
use dynamic_annotation_contr.Manager.Retry.{
  update_attempts, update_resource_with_retry, max_retries,
}
use dynamic_annotation_contr.Template.{some_or_nil, set_all}
use dynamic_annotation_contr.Template.Laws.{lookup-set_all}
use dynamic_annotation_contr.Tracking.{tracking_key, format_keys}
use dynamic_annotation_contr.Manager.Legacy.{
  merge_annotations, keys_of, with_merged, apply_attempts, apply_annotations_to_resource,
}

-- The client that also counts the calls of `Update`.
abbrev counting : {W E : Type 0} → Client W E → Client (W × ℕ) E
counting c = record {
  update = λ o s. let (failure, w) = c.update o s.0 in (failure, (w, s.1 + 1));
  get = λ o s. let (fetched, w) = c.get o s.0 in (fetched, (w, s.1));
  list = λ t l n s. let (listed, w) = c.list t l n s.0 in (listed, (w, s.1));
  is_conflict = c.is_conflict;
}

is_empty-keys_of : (m : Assoc Bytes) → is_empty (keys_of m) ≡ is_empty m
is_empty-keys_of [] = refl
is_empty-keys_of (entry ∷ m) = refl

module _ (annotations : Assoc Bytes) (rule_id : Bytes) where
  -- What stands under a key once the annotations of a rule are on a resource: the list of their
  -- keys under the tracking key, if there are any; the value of the rule; or what stood there.
  abbrev value_after : Assoc Bytes → Bytes → Option Bytes
  value_after current key =
      if not (is_empty annotations) && str_eq (tracking_key rule_id) key
      then some (format_keys (keys_of annotations))
      else elim (lookup key annotations) [ none ↦ lookup key current | some v ↦ some v ]

  -- What was written is the resource, but for its annotations, which hold these values.
  abbrev Carries : Object → Object → Type 0
  Carries base written =
      (m : Assoc Bytes) × (written ≡ record base { annotations = some m })
      × ((key : Bytes) → lookup key m ≡ value_after (some_or_nil base.annotations) key)

  lookup-merge_annotations :
      (current : Assoc Bytes) (key : Bytes)
      → lookup key (merge_annotations annotations rule_id current) ≡ value_after current key
  unfolding merge_annotations
  lookup-merge_annotations current key = grind (
    arith,
    is_empty-keys_of annotations,
    lookup-set_all key annotations current,
    lookup-insert (tracking_key rule_id) key (format_keys (keys_of annotations))
        (set_all [] annotations current),
  )

  with_merged-Carries : (base : Object) → Carries base (with_merged annotations rule_id base)
  with_merged-Carries base = (_, refl, lookup-merge_annotations (some_or_nil base.annotations))

module _ {W E : Type 0} (client : Client W E) where
  -- A first update that meets a conflict is followed by a fetch and an update of the object that
  -- was fetched, without the annotations of the first: if both succeed, the call reports success,
  -- and the cluster is as that second update has left it.
  conflict_loses_annotations :
      (copy original fresh : Object) (w w₁ w₂ w₃ : W) (e : E)
      → client.update copy w ≡ (some e, w₁)
      → client.is_conflict e ≡ true
      → client.get original w₁ ≡ (ok fresh, w₂)
      → client.update fresh w₂ ≡ (none, w₃)
      → update_resource_with_retry client copy original w ≡ (none, w₃)
  unfolding update_resource_with_retry update_attempts
  conflict_loses_annotations copy original fresh w w₁ w₂ w₃ e h₁ h₂ h₃ h₄ = ground arith

  attempts_bound :
      (left : ℕ) (copy original : Object) (s : W × ℕ)
      → (update_attempts (counting client) left copy original s).1.1 ≤ s.1 + left
  unfolding update_attempts
  attempts_bound zero copy original s = omega arith
  attempts_bound (suc left) copy original (w, n) =
      grind (arith, λ (fresh : Object) (w' : W) (m : ℕ). attempts_bound left fresh original (w', m))

  -- The retried update calls the API's `Update` at most three times.
  update_resource_with_retry_bound :
      (copy original : Object) (w : W)
      → (update_resource_with_retry (counting client) copy original (w, 0)).1.1 ≤ 3
  unfolding update_resource_with_retry
  update_resource_with_retry_bound copy original w = attempts_bound max_retries copy original (w, 0)

  -- The object is the one that was found, or a fetch of it has answered with it.
  abbrev IsOf : Object → Object → Type 0
  IsOf original base = (base ≡ original) ⊎ ((v : W) × ((client.get original v).0 ≡ ok base))

  -- Some call of `Update` succeeded, and left the cluster as it is: it wrote the resource that was
  -- found, or a later version of it, with the annotations and the tracking annotation on it.
  abbrev pub Applied : Object → Assoc Bytes → Bytes → W → Type 0
  Applied original annotations rule_id w' =
      (base : Object) × (written : Object) × (before : W) × IsOf original base
      × Carries annotations rule_id base written
      × (client.update written before ≡ (none, w'))

  module _ (original : Object) (annotations : Assoc Bytes) (rule_id : Bytes) where
    updated-Applied :
        (base : Object) (w w' : W)
        → IsOf original base
        → client.update (with_merged annotations rule_id base) w ≡ (none, w')
        → Applied original annotations rule_id w'
    updated-Applied base w w' hb h = (
      base,
      with_merged annotations rule_id base,
      w,
      hb,
      with_merged-Carries annotations rule_id base,
      h,
    )

    attempts-Applied :
        (left : ℕ) (base : Object) (w w' : W)
        → IsOf original base
        → apply_attempts client
            (suc left)
            (with_merged annotations rule_id base)
            original
            annotations
            rule_id
            w
          ≡ (none, w')
        → Applied original annotations rule_id w'
    unfolding apply_attempts
    attempts-Applied zero base w w' hb h = updated-Applied base w w' hb (ground arith)
    attempts-Applied (suc left) base w w' hb h =
        elim (Option-cases (client.update (with_merged annotations rule_id base) w).0) [
          | inl e ↦ updated-Applied base w w' hb (ground arith)
          | inr (x, e) ↦ retried (attempts-Applied left) x e (client.get original w₁).0 refl
        ]
      where
        w₁ : W
        w₁ = (client.update (with_merged annotations rule_id base) w).1

        -- what a retry with one attempt less shows
        Shown : Type 0
        Shown =
            (fresh : Object) (w₂ w' : W)
            → IsOf original fresh
            → apply_attempts client (suc left) (with_merged annotations rule_id fresh) original
                annotations rule_id w₂
              ≡ (none, w')
            → Applied original annotations rule_id w'

        retried :
            Shown
            → (x : E) → (client.update (with_merged annotations rule_id base) w).0 ≡ some x
            → (r : Result E Object) → (client.get original w₁).0 ≡ r
            → Applied original annotations rule_id w'
        retried shown x e (ok fresh) f =
            shown fresh (client.get original w₁).1 w' (inr (w₁, f)) (ground arith)
        retried shown x e (err y) f = absurd (ground arith)

    -- If the legacy annotations are reported as applied to a resource, however many conflicts were
    -- met, then a call of `Update` succeeded and left the cluster as it is. What it wrote is that
    -- resource, as it was found or as a fetch of it has answered, in all but the annotations. Of
    -- those each one of the rule has the rule's value, the tracking annotation lists the keys of
    -- the rule if there are any, and every other one is as it was.
    pub apply_annotations_to_resource-Applied :
        (w w' : W)
        → apply_annotations_to_resource client original annotations rule_id w ≡ (none, w')
        → Applied original annotations rule_id w'
    unfolding apply_annotations_to_resource
    apply_annotations_to_resource-Applied w w' h = attempts-Applied 2 original w w' (inl refl) h
