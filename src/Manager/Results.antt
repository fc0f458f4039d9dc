-- ===== src/Manager/Results.antt =====
-- What the results of annotation groups say of the cluster.
use dynamic_annotation_contr.Base.{
  ◌⊎◌, ℕ, Bool, ◌++◌, ◌∙◌, ◌+◌, ◌≡◌, true, false, some, List, [], ◌∷◌, arith, Bytes, length,
}
use dynamic_annotation_contr.Api.{Object, AnnotationGroup}
use dynamic_annotation_contr.Client.{Client}
use dynamic_annotation_contr.Template.{TemplateContext}
use dynamic_annotation_contr.Operation.{Policies}
use dynamic_annotation_contr.Manager.Groups.{
  absorb, GroupResult, SortSlice, apply_annotation_operations_to_resource, apply_to_resources,
  apply_annotation_group,
}

module _ {W E : Type 0} (client : Client W E) (sort_slice : SortSlice) (rm : Policies) where
  affected_on_success :
      (group : AnnotationGroup) (resources : List Object) (rule_id : Bytes) (ctx : TemplateContext)
      (resolution : Bytes) (r : GroupResult E) (w : W)
      → let result =
          (apply_to_resources client sort_slice rm group resources rule_id ctx resolution r w).0 in
        result.success ≡ true
        → (r.success ≡ true) × (result.resources_affected ≡ r.resources_affected + length resources)
  unfolding apply_to_resources absorb
  affected_on_success group [] rule_id ctx resolution r w h = ground arith
  affected_on_success group (resource ∷ resources) rule_id ctx resolution r w h = ground (
    arith,
    affected_on_success group resources rule_id ctx resolution (absorb r (on_resource resource).0)
        (on_resource resource).1,
  )
    where
      on_resource : Object → GroupResult E × W
      on_resource o =
          apply_annotation_operations_to_resource client sort_slice rm o group.operations rule_id
            (record ctx { resource = some o }) resolution w

  -- A group that reports success has counted every resource as affected, atomic or not.
  apply_annotation_group_affected :
      (resources : List Object) (group : AnnotationGroup) (rule_id : Bytes) (ctx : TemplateContext)
      (resolution : Bytes) (w : W)
      → (apply_annotation_group client sort_slice rm resources group rule_id ctx resolution
          w).0.success
        ≡ true
      → (apply_annotation_group client sort_slice rm resources group rule_id ctx resolution
          w).0.resources_affected
        ≡ length resources
  unfolding apply_annotation_group
  apply_annotation_group_affected resources group rule_id ctx resolution w h =
      (affected_on_success group resources rule_id ctx resolution _ w h).1 ∙ omega arith

  module _ (group : AnnotationGroup) (rule_id : Bytes) (ctx : TemplateContext)
      (resolution : Bytes) where
    -- what the operations of the group come to on one resource
    abbrev on_one : Object → W → GroupResult E × W
    on_one resource w =
        apply_annotation_operations_to_resource client sort_slice rm resource group.operations
          rule_id (record ctx { resource = some resource }) resolution w

    -- the cluster after the resources, one after the other
    abbrev after_all : List Object → W → W
    after_all [] w = w
    after_all (resource ∷ rest) w = after_all rest (on_one resource w).1

    -- The operations succeed on each of the resources, one after the other.
    abbrev AllSucceed : List Object → W → Type 0
    AllSucceed [] w = Unit
    AllSucceed (resource ∷ rest) w =
        ((on_one resource w).0.success ≡ true) × AllSucceed rest (on_one resource w).1

    -- The resources, from `w` on, have all been written; or they end with one that failed, behind
    -- which none was touched. `counted` is the number of those that were written.
    abbrev pub StopsAtFailure : List Object → W → Bool → ℕ → W → Type 0
    StopsAtFailure resources w success counted w' =
        (AllSucceed resources w
          × (success ≡ true)
          × (counted ≡ length resources)
          × (w' ≡ after_all resources w))
        ⊎ ((done : List Object) × (failed : Object) × (rest : List Object) × (resources
              ≡ done ++ failed ∷ rest)
            × AllSucceed done w
            × ((on_one failed (after_all done w)).0.success ≡ false)
            × (success ≡ false)
            × (counted ≡ length done)
            × (w' ≡ (on_one failed (after_all done w)).1))

    abbrev on_all : List Object → GroupResult E → W → GroupResult E × W
    on_all resources r w =
        apply_to_resources client sort_slice rm group resources rule_id ctx resolution r w

    -- the result of a group, from the one so far
    abbrev Outcome : List Object → ℕ → W → GroupResult E × W → Type 0
    Outcome resources so_far w (result, w') =
        (n : ℕ) × (result.resources_affected ≡ so_far + n)
        × StopsAtFailure resources w result.success n w'
