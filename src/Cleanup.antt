-- ===== src/Cleanup.antt =====
-- internal/resource/cleanup.go: the removal of tracking annotations whose rule is gone.
pub mod Keys
pub mod Batches
use mathlib.Core.List.{map}
use dynamic_annotation_contr.Base.{
  ℕ, zero, suc, ◌+◌, ◌≡◌, Bool, true, false, not, ◌&&◌, Option, none, some, List, [], ◌∷◌, ◌++◌,
  if◌then◌else◌, ltb, leb, length, is_empty, Bytes, codes, str_eq, has_prefix, split, join, any,
  keep, Assoc, lookup, delete,
}
use dynamic_annotation_contr.Ticker.{TickerEvent, run_ticker}
use dynamic_annotation_contr.Api.{Object, LabelSelector, Rule}
use dynamic_annotation_contr.Client.{Client, Result, ok, err}
use dynamic_annotation_contr.Manager.Legacy.{keys_of}
use dynamic_annotation_contr.Manager.Discovery.{ListError, list_failed, unsupported_type, is_listed}

abbrev rule_prefix : Bytes
rule_prefix = codes "scheduler.k8s.io/rule-"

-- parts[2 : len(parts)-1], for at least three parts
abbrev but_last : List Bytes → List Bytes
but_last [] = []
but_last (x ∷ []) = []
but_last (x ∷ y ∷ xs) = x ∷ but_last (y ∷ xs)

abbrev middle_parts : List Bytes → Option (List Bytes)
middle_parts (p ∷ q ∷ r ∷ rest) = some (but_last (r ∷ rest))
middle_parts _ = none

-- The identifier that is reconstructed from a key, if the key has at least three parts.
rule_id_of_key : Bytes → Option Bytes
rule_id_of_key key = elim (middle_parts (split key b'-')) [
  | none ↦ none
  | some parts ↦ some (join parts b'-')
]

-- validRuleIDs[ruleID]
is_valid_rule : List Bytes → Bytes → Bool
is_valid_rule valid id = any (λ v. str_eq v id) valid

is_orphaned : List Bytes → Bytes → Bool
is_orphaned valid key =
    has_prefix key rule_prefix
    && elim (rule_id_of_key key) [ none ↦ false | some id ↦ not (is_valid_rule valid id) ]

pub orphaned_keys : List Bytes → Assoc Bytes → List Bytes
orphaned_keys valid annotations = keep (is_orphaned valid) (keys_of annotations)

pub delete_keys : List Bytes → Assoc Bytes → Assoc Bytes
delete_keys [] annotations = annotations
delete_keys (key ∷ keys) annotations = delete_keys keys (delete key annotations)

unfoldable has_scheduler_annotations : Object → Bool
has_scheduler_annotations resource = elim resource.annotations [
  | none ↦ false
  | some annotations ↦ any (λ k. has_prefix k rule_prefix) (keys_of annotations)
]

-- The identifiers of the rules of the cluster.
pub rule_ids : List Rule → List Bytes
rule_ids rules = map (λ rule. rule.namespace ++ b'/' ∷ rule.name) rules

-- the keys of the map that has a rule's identifier once
unfoldable unique : List Bytes → List Bytes
unique [] = []
unique (id ∷ ids) = let rest = unique ids in if is_valid_rule ids id then rest else id ∷ rest

abbrev cleaned_types : List Bytes
cleaned_types = codes "pods" ∷ codes "deployments" ∷ codes "statefulsets" ∷ codes "daemonsets" ∷ []

abbrev batch_size : ℕ
batch_size = 100

take_batch : ℕ → List Object → List Object × List Object
take_batch zero rest = ([], rest)
take_batch (suc n) [] = ([], [])
take_batch (suc n) (resource ∷ rest) =
    let (batch, left) = take_batch n rest in (resource ∷ batch, left)

module _ {W E : Type 0} (client : Client W E) where
  open client use {update, list}

  -- Whether the resource was cleaned, or the error of `Update`.
  unfoldable cleanup_resource_annotations : Object → List Bytes → W → Result E Bool × W
  cleanup_resource_annotations resource valid w = elim resource.annotations [
    | none ↦ (ok false, w)
    | some annotations ↦
        let orphaned = orphaned_keys valid annotations in
        let (failure, w') =
          update (record resource { annotations = some (delete_keys orphaned annotations) }) w in
        if is_empty orphaned
        then (ok false, w)
        else (elim failure [ none ↦ (ok true, w') | some e ↦ (err e, w') ])
  ]

  -- The number of resources cleaned; an error is logged and passed over.
  pub cleanup_resource_batch : List Object → List Bytes → ℕ → W → ℕ × W
  cleanup_resource_batch [] valid count w = (count, w)
  cleanup_resource_batch (resource ∷ rest) valid count w =
      let (cleaned, w') = cleanup_resource_annotations resource valid w in
      cleanup_resource_batch rest valid
        (elim cleaned [ ok true ↦ count + 1 | ok false ↦ count | err e ↦ count ]) w'

  -- The loop over the batches; each takes at least one resource, so their number is fuel enough.
  pub cleanup_batches : ℕ → List Object → List Bytes → ℕ → W → ℕ × W
  cleanup_batches zero resources valid count w = (count, w)
  cleanup_batches (suc fuel) resources valid count w =
      let (batch, rest) = take_batch batch_size resources in
      let (cleaned, w') = cleanup_resource_batch batch valid 0 w in
      let result = cleanup_batches fuel rest valid (count + cleaned) w' in
      if is_empty resources then (count, w) else result

  -- All resources of the type, of every namespace, with the filter on them.
  unfoldable get_resources_with_scheduler_annotations :
      Bytes → W → Result (ListError E) (List Object) × W
  get_resources_with_scheduler_annotations resource_type w =
      let (listed, w') =
        list resource_type (record { match_labels = []; match_expressions = [] }) [] w in
      if is_listed resource_type
      then (
        elim listed [
          | ok found ↦ ok (keep has_scheduler_annotations found)
          | err e ↦ err (list_failed resource_type e)
        ],
        w',
      )
      else (err (unsupported_type resource_type), w)

  unfoldable cleanup_resource_type : Bytes → List Bytes → W → Result (ListError E) ℕ × W
  cleanup_resource_type resource_type valid w =
      let (listed, w₁) = get_resources_with_scheduler_annotations resource_type w in
      elim listed [
        | err e ↦ (err e, w₁)
        | ok resources ↦
            let (count, w₂) = cleanup_batches (length resources) resources valid 0 w₁ in
            (ok count, w₂)
      ]

  -- The loop over the types; an error of one is logged and passed over.
  unfoldable cleanup_types : List Bytes → List Bytes → ℕ → W → ℕ × W
  cleanup_types [] valid total w = (total, w)
  cleanup_types (t ∷ ts) valid total w =
      let (cleaned, w') = cleanup_resource_type t valid w in
      cleanup_types ts valid (elim cleaned [ ok n ↦ total + n | err e ↦ total ]) w'

  -- CleanupOrphanedAnnotations; `list_rules` lists the rules of the cluster. The number of resources
  -- cleaned, which is logged, is the result here.
  unfoldable cleanup_orphaned_annotations : (W → Result E (List Rule) × W) → W → Result E ℕ × W
  cleanup_orphaned_annotations list_rules w =
      let (listed, w₁) = list_rules w in
      elim listed [
        | err e ↦ (err e, w₁)
        | ok rules ↦
            let (total, w₂) = cleanup_types cleaned_types (rule_ids rules) 0 w₁ in (ok total, w₂)
      ]

  -- StartCleanupRoutine; an error of a cleanup is logged.
  unfoldable start_cleanup_routine : (W → Result E (List Rule) × W) → List TickerEvent → W → W
  start_cleanup_routine list_rules =
      run_ticker λ now w. (cleanup_orphaned_annotations list_rules w).1

  -- The loop of GetCleanupStats over the types: the numbers of those that could be listed.
  unfoldable count_annotated : List Bytes → W → List (Bytes × ℕ) × W
  count_annotated [] w = ([], w)
  count_annotated (t ∷ ts) w =
      let (listed, w₁) = get_resources_with_scheduler_annotations t w in
      let (others, w₂) = count_annotated ts w₁ in
      (elim listed [ ok found ↦ (t, length found) ∷ others | err e ↦ others ], w₂)

  -- GetCleanupStats: the numbers by type, and the number of rules if they could be listed.
  unfoldable get_cleanup_stats :
      (W → Result E (List Rule) × W) → W → (List (Bytes × ℕ) × Option ℕ) × W
  get_cleanup_stats list_rules w =
      let (counts, w₁) = count_annotated cleaned_types w in
      let (listed, w₂) = list_rules w₁ in
      (
        (counts, elim listed [ ok rules ↦ some (length (unique (rule_ids rules))) | err e ↦ none ]),
        w₂,
      )
