-- ===== src/Client.antt =====
-- The Kubernetes API as the program sees it: `client.Client` of controller-runtime and the tests of
-- apimachinery on errors. It is not part of the repository, so it is a parameter: `W` is the state
-- of the cluster, `E` the type of errors, and a call may change the cluster.
use dynamic_annotation_contr.Base.{Bool, Option, List, Bytes}
use dynamic_annotation_contr.Api.{Object, LabelSelector}

pub data Result {ℓ κ} (E : Type ℓ) (A : Type κ) : Type (ℓ ⊔ κ) where
  ok : A → Result E A
  err : E → Result E A

pub record Client (W E : Type 0) : Type 0 where
  -- Update(ctx, obj)
  pub update : Object → W → Option E × W
  -- Get(ctx, ObjectKeyFromObject(obj), copy): the object of this kind, namespace and name
  pub get : Object → W → Result E Object × W
  -- List(ctx, list, MatchingLabels(selector), InNamespace(ns)) of a resource type
  pub list : Bytes → LabelSelector → Bytes → W → Result E (List Object) × W
  -- apierrors.IsConflict
  pub is_conflict : E → Bool
