-- ===== src/Examples/Writes.antt =====
-- Applications of the theorems on updates and on annotation groups, in a cluster of one object.
use dynamic_annotation_contr.Base.{◌≡◌, refl, true, none, List, [], ◌∷◌, Bytes, codes, Assoc}
use dynamic_annotation_contr.Api.{AnnotationGroup, AnnotationOperation}
use dynamic_annotation_contr.Manager.Legacy.{
  with_merged, apply_annotations_to_resource, apply_attempts,
}
use dynamic_annotation_contr.Manager.Updates.{Applied, apply_annotations_to_resource-Applied}
use dynamic_annotation_contr.Examples.{managed_key, rule_id, bad_operation, pod, api}

abbrev legacy : Assoc Bytes
legacy = (managed_key, codes "v1") ∷ []

-- a sort of at most one operation
abbrev unsorted : List AnnotationOperation → List AnnotationOperation
unsorted ops = ops

abbrev bad_group : AnnotationGroup
bad_group = record { name = codes "g"; operations = bad_operation ∷ []; atomic = true }

applied_after_conflict :
    apply_annotations_to_resource api pod legacy rule_id (pod, 1)
    ≡ (none, (with_merged legacy rule_id pod, 0))
unfolding apply_annotations_to_resource apply_attempts
applied_after_conflict = refl

apply_annotations_to_resource-Applied_example :
    Applied api pod legacy rule_id (with_merged legacy rule_id pod, 0)
apply_annotations_to_resource-Applied_example =
    apply_annotations_to_resource-Applied api pod legacy rule_id (pod, 1)
      (with_merged legacy rule_id pod, 0) applied_after_conflict
