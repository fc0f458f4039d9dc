-- ===== src/Manager/Legacy.antt =====
-- The legacy annotations of a rule, written to and taken from one resource.
use mathlib.Core.List.{map}
use dynamic_annotation_contr.Base.{
  ℕ, zero, suc, ◌+◌, Bool, true, false, not, ◌&&◌, Option, none, some, List, [], ◌∷◌, if◌then◌else◌,
  Bytes, ltb, str_eq, trim_space, is_empty, any, keep, Assoc, lookup, insert, delete,
}
use dynamic_annotation_contr.Api.{Object}
use dynamic_annotation_contr.Client.{Client, ok, err}
use dynamic_annotation_contr.Template.{some_or_nil, set_all}
use dynamic_annotation_contr.Tracking.{tracking_key, format_keys, tracked_keys, has_key}
use dynamic_annotation_contr.Manager.Retry.{UpdateError, api_error, refetch_failed, max_retries}

abbrev pub keys_of : Assoc Bytes → List Bytes
keys_of [] = []
keys_of ((k, v) ∷ m) = k ∷ keys_of m

-- The annotations set, and behind them the tracking annotation if there is one at all.
unfoldable pub merge_annotations : Assoc Bytes → Bytes → Assoc Bytes → Assoc Bytes
merge_annotations annotations rule_id current =
    let merged = set_all [] annotations current in
    if is_empty (keys_of annotations)
    then merged
    else insert (tracking_key rule_id) (format_keys (keys_of annotations)) merged

abbrev pub with_merged : Assoc Bytes → Bytes → Object → Object
with_merged annotations rule_id resource = record resource {
  annotations = some (merge_annotations annotations rule_id (some_or_nil resource.annotations));
}

-- One step of the loop of removeAnnotationsFromResource over the keys that are asked for.
unfoldable pub remove_applied : List Bytes → List Bytes → Assoc Bytes → ℕ → Assoc Bytes × ℕ
remove_applied applied [] current count = (current, count)
remove_applied applied (key ∷ keys) current count =
    let there : Bool = elim (lookup key current) [ none ↦ false | some v ↦ true ] in
    let hit : Bool = has_key key applied && there in
    remove_applied applied keys (if hit then delete key current else current)
      (if hit then count + 1 else count)

-- the tracked keys that were not asked for
unfoldable pub remaining_keys : List Bytes → List Bytes → List Bytes
remaining_keys applied keys = keep (λ k. not (any (λ r. str_eq k r) keys)) (map trim_space applied)

unfoldable pub rewrite_tracking : List Bytes → List Bytes → Bytes → Assoc Bytes → Assoc Bytes
rewrite_tracking applied keys rule_id current =
    let remaining = remaining_keys applied keys in
    if is_empty applied
    then current
    else if is_empty remaining
    then delete (tracking_key rule_id) current
    else insert (tracking_key rule_id) (format_keys remaining) current

module _ {W E : Type 0} (client : Client W E) where
  open client use {update, get, is_conflict}

  -- The retry loop of applyAnnotationsToResource with the attempts that are left.
  unfoldable pub apply_attempts :
      ℕ → Object → Object → Assoc Bytes → Bytes → W → Option (UpdateError E) × W
  apply_attempts zero copy resource annotations rule_id w = (none, w)
  apply_attempts (suc left) copy resource annotations rule_id w =
      let (failure, w₁) = update copy w in
      elim failure [
        | none ↦ (none, w₁)
        | some e ↦ elim (is_conflict e && ltb 0 left) [
          | true ↦
              let (fetched, w₂) = get resource w₁ in
              elim fetched [
                | ok fresh ↦
                    apply_attempts left (with_merged annotations rule_id fresh) resource annotations
                      rule_id w₂
                | err refetch ↦ (some (refetch_failed refetch), w₂)
              ]
          | false ↦ (some (api_error e), w₁)
        ]
      ]

  unfoldable pub apply_annotations_to_resource :
      Object → Assoc Bytes → Bytes → W → Option (UpdateError E) × W
  apply_annotations_to_resource resource annotations rule_id w =
      apply_attempts max_retries (with_merged annotations rule_id resource) resource annotations
        rule_id w

  unfoldable pub remove_annotations_from_resource :
      Object → List Bytes → Bytes → W → Option (UpdateError E) × W
  remove_annotations_from_resource resource keys rule_id w = elim resource.annotations [
    | none ↦ (none, w)
    | some current ↦
        let applied = tracked_keys current rule_id in
        let (left, count) = remove_applied applied keys current 0 in
        let (failure, w') =
          update
            (record resource { annotations = some (rewrite_tracking applied keys rule_id left) })
            w in
        if ltb 0 count
        then (elim failure [ none ↦ (none, w') | some e ↦ (some (api_error e), w') ])
        else (none, w)
  ]
