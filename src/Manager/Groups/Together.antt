-- ===== src/Manager/Groups/Together.antt =====
-- What the operations of a group do on one resource, all of them or none.
use dynamic_annotation_contr.Base.{
  ◌≡◌, ◌⊎◌, Bool, true, false, Option, none, some, List, [], ◌∷◌, Bytes, Assoc,
}
use dynamic_annotation_contr.Api.{Object, AnnotationOperation}
use dynamic_annotation_contr.Client.{Client}
use dynamic_annotation_contr.Template.{TemplateContext, some_or_nil}
use dynamic_annotation_contr.Operation.{Policies, apply_annotation_operation}
use dynamic_annotation_contr.Manager.Retry.{UpdateError, update_resource_with_retry}
use dynamic_annotation_contr.Manager.Groups.{SortSlice}

module _ (rm : Policies) (rule_id : Bytes) (ctx : TemplateContext) (resolution : Bytes) where
  -- The operations, each on what the one before has left, all succeed and lead to these annotations.
  abbrev Leads : Assoc Bytes → List AnnotationOperation → Assoc Bytes → Type 0
  Leads m [] final = m ≡ final
  Leads m (op ∷ ops) final =
      let (result, after) = apply_annotation_operation rm m op rule_id ctx resolution in
      (result.success ≡ true) × Leads after ops final

  -- One of them fails on what those before it have left.
  abbrev Fails : Assoc Bytes → List AnnotationOperation → Type 0
  Fails m [] = ⊥
  Fails m (op ∷ ops) =
      let (result, after) = apply_annotation_operation rm m op rule_id ctx resolution in
      (result.success ≡ false) ⊎ Fails after ops

module _ {W E : Type 0} (client : Client W E) (sort_slice : SortSlice) (rm : Policies)
    (resource : Object) (operations : List AnnotationOperation) (rule_id : Bytes)
    (ctx : TemplateContext) (resolution : Bytes) where
  abbrev sorted : List AnnotationOperation
  sorted = sort_slice operations

  abbrev current : Assoc Bytes
  current = some_or_nil resource.annotations

  -- the retried update of the resource with these annotations
  abbrev pub written : Assoc Bytes → W → Option (UpdateError E) × W
  written m w =
      update_resource_with_retry client (record resource { annotations = some m }) resource w

  -- What may have become of the operations on the resource.
  abbrev pub IsTogether : W → Bool → W → Type 0
  IsTogether w success w' =
      ((success ≡ false) × Fails rm rule_id ctx resolution current sorted × (w' ≡ w))
      ⊎ ((success ≡ true) × (sorted ≡ []) × (w' ≡ w))
      ⊎ ((final : Assoc Bytes) × Leads rm rule_id ctx resolution current sorted final
          × (((success ≡ true) × (written final w ≡ (none, w')))
              ⊎ ((success ≡ false) × ((e : UpdateError E) × (written final w ≡ (some e, w'))))))
