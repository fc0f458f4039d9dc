-- ===== src/Base/Maps.antt =====
-- Go maps with string keys as association lists. An iteration goes in the order of the list; since
-- the theorems hold for every list, they hold for every order in which Go may iterate.
use Prim.Native.Nat.{◌+◌, ◌≤◌}
use mathlib.Core.Path.{◌≡◌, refl}
use mathlib.Core.Bool.{Bool, true, false}
use mathlib.Core.Logic.{◌⊎◌}
use mathlib.Core.Option.{Option, none, some}
use mathlib.Core.List.{List, [], ◌∷◌}
use native.Mathlib.Omega.{arith}
use dynamic_annotation_contr.Base.Tests.{if◌then◌else◌}
use dynamic_annotation_contr.Base.Lists.{length, any, All}
use dynamic_annotation_contr.Base.Strings.{Bytes, str_eq, str_eq_iff, str_eq_self}

abbrev pub Assoc {ℓ} : Type ℓ → Type ℓ
Assoc V = List (Bytes × V)

module _ {ℓ} {V : Type ℓ} where
  -- v, ok := m[k]
  unfoldable pub lookup : Bytes → Assoc V → Option V
  lookup k [] = none
  lookup k ((j, v) ∷ m) = if str_eq j k then some v else lookup k m

  -- m[k] = v
  unfoldable pub insert : Bytes → V → Assoc V → Assoc V
  insert k v [] = (k, v) ∷ []
  insert k v ((j, w) ∷ m) =
      let rest = insert k v m in if str_eq j k then (k, v) ∷ m else (j, w) ∷ rest

  -- delete(m, k)
  unfoldable pub delete : Bytes → Assoc V → Assoc V
  delete k [] = []
  delete k ((j, v) ∷ m) = let rest = delete k m in if str_eq j k then rest else (j, v) ∷ rest

  pub lookup-insert :
      (k j : Bytes) (v : V) (m : Assoc V)
      → lookup j (insert k v m) ≡ (if str_eq k j then some v else lookup j m)
  unfolding lookup insert
  lookup-insert k j v [] = refl
  lookup-insert k j v ((i, w) ∷ m) =
      ground (arith, str_eq_iff k j, str_eq_iff i k, str_eq_iff i j, lookup-insert k j v m)

  pub lookup-delete :
      (k j : Bytes) (m : Assoc V)
      → lookup j (delete k m) ≡ (if str_eq k j then none else lookup j m)
  unfolding lookup delete
  lookup-delete k j [] = ground arith
  lookup-delete k j ((i, w) ∷ m) =
      ground (arith, str_eq_iff k j, str_eq_iff i k, str_eq_iff i j, lookup-delete k j m)

  pub length-insert : (k : Bytes) (v : V) (m : Assoc V) → length (insert k v m) ≤ length m + 1
  unfolding insert
  length-insert k v [] = omega arith
  length-insert k v ((j, w) ∷ m) = ground (arith, length-insert k v m)

  pub length-delete : (k : Bytes) (m : Assoc V) → length (delete k m) ≤ length m
  unfolding delete
  length-delete k [] = omega arith
  length-delete k ((j, w) ∷ m) = ground (arith, length-delete k m)

module _ {ℓ} {V : Type ℓ} where
  -- The keys of the entries that pass a test, gathered in one loop to be deleted in another.
  unfoldable pub keys_where : (Bytes × V → Bool) → Assoc V → List Bytes
  keys_where p [] = []
  keys_where p ((k, v) ∷ m) = let rest = keys_where p m in if p (k, v) then k ∷ rest else rest

  unfoldable pub delete_all : List Bytes → Assoc V → Assoc V
  delete_all [] m = m
  delete_all (k ∷ ks) m = delete_all ks (delete k m)

  module _ (p : Bytes × V → Bool) where
    -- The entry fails the test, or its key is listed.
    abbrev FailsOrListed : List Bytes → Bytes × V → Type 0
    FailsOrListed ks entry = (p entry ≡ false) ⊎ (any (λ k. str_eq k entry.0) ks ≡ true)

    FailsOrListed-cons :
        (k : Bytes) (ks : List Bytes) (m : Assoc V)
        → All (FailsOrListed ks) m
        → All (FailsOrListed (k ∷ ks)) m
    unfolding any
    FailsOrListed-cons k ks [] h = tt
    FailsOrListed-cons k ks ((j, v) ∷ m) h = ground (arith, FailsOrListed-cons k ks m)

    keys_where-FailsOrListed : (m : Assoc V) → All (FailsOrListed (keys_where p m)) m
    unfolding keys_where any
    keys_where-FailsOrListed [] = tt
    keys_where-FailsOrListed ((j, v) ∷ m) =
        ground (
          arith,
          str_eq_self j,
          keys_where-FailsOrListed m,
          FailsOrListed-cons j (keys_where p m) m,
        )

    delete-FailsOrListed :
        (k : Bytes) (ks : List Bytes) (m : Assoc V)
        → All (FailsOrListed (k ∷ ks)) m
        → All (FailsOrListed ks) (delete k m)
    unfolding delete any
    delete-FailsOrListed k ks [] h = tt
    delete-FailsOrListed k ks ((j, v) ∷ m) h =
        ground (arith, str_eq_iff j k, str_eq_iff k j, delete-FailsOrListed k ks m)

    delete_all_fails :
        (ks : List Bytes) (m : Assoc V)
        → All (FailsOrListed ks) m
        → All (λ entry. p entry ≡ false) (delete_all ks m)
    unfolding delete_all any
    delete_all_fails [] [] h = tt
    delete_all_fails [] ((j, v) ∷ m) h = ground (arith, delete_all_fails [] m)
    delete_all_fails (k ∷ ks) m h = delete_all_fails ks (delete k m) (delete-FailsOrListed k ks m h)

    -- No entry that passes the test is left.
    pub delete_all-keys_where :
        (m : Assoc V) → All (λ entry. p entry ≡ false) (delete_all (keys_where p m) m)
    delete_all-keys_where m = delete_all_fails (keys_where p m) m (keys_where-FailsOrListed m)

module _ {ℓ} {V : Type ℓ} where
  -- what is found of a key in a map from which others may be deleted
  abbrev pub KeptOrGone : Bytes → Assoc V → Assoc V → Type ℓ
  KeptOrGone j m m' = (lookup j m' ≡ none) ⊎ (lookup j m' ≡ lookup j m)

  pub lookup-delete_all :
      (ks : List Bytes) (j : Bytes) (m : Assoc V) → KeptOrGone j m (delete_all ks m)
  unfolding delete_all
  lookup-delete_all [] j m = grind arith
  lookup-delete_all (k ∷ ks) j m =
      grind (arith, lookup-delete k j m, lookup-delete_all ks j (delete k m))

  -- What a map holds under a key satisfies what its entries do.
  pub lookup-All :
      (p : Bytes × V → Bool) (j : Bytes) (v : V) (m : Assoc V)
      → All (λ entry. p entry ≡ false) m
      → lookup j m ≡ some v
      → p (j, v) ≡ false
  unfolding lookup
  lookup-All p j v [] h e = ground arith
  lookup-All p j v ((k, w) ∷ m) h e = grind (arith, str_eq_iff k j, lookup-All p j v m h.1)

pub ruleset map_laws = (lookup-insert, lookup-delete, str_eq_self)
