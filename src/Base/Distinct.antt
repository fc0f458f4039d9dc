-- ===== src/Base/Distinct.antt =====
-- Maps of which no key stands twice, as in a Go map.
use mathlib.Core.Path.{◌≡◌, refl}
use mathlib.Core.Bool.{Bool, false}
use mathlib.Core.Option.{Option, none, some}
use mathlib.Core.List.{List, [], ◌∷◌}
use native.Mathlib.Omega.{arith}
use dynamic_annotation_contr.Base.Tests.{if◌then◌else◌}
use dynamic_annotation_contr.Base.Lists.{any}
use dynamic_annotation_contr.Base.Strings.{Bytes, str_eq, str_eq_iff}
use dynamic_annotation_contr.Base.Maps.{
  Assoc, lookup, insert, delete, delete_all, keys_where, lookup-insert, lookup-delete,
  lookup-delete_all, lookup-All, delete_all-keys_where,
}

module _ {ℓ} {V : Type ℓ} where
  abbrev pub IsDistinct : Assoc V → Type ℓ
  IsDistinct [] = Unit
  IsDistinct ((k, v) ∷ m) = (lookup k m ≡ none) × IsDistinct m

  pub insert-IsDistinct :
      (k : Bytes) (v : V) (m : Assoc V) → IsDistinct m → IsDistinct (insert k v m)
  unfolding insert lookup
  insert-IsDistinct k v [] h = (refl, tt)
  insert-IsDistinct k v ((j, w) ∷ m) h =
      grind (arith, str_eq_iff j k, str_eq_iff k j, lookup-insert k j v m, insert-IsDistinct k v m)

  pub delete-IsDistinct : (k : Bytes) (m : Assoc V) → IsDistinct m → IsDistinct (delete k m)
  unfolding delete
  delete-IsDistinct k [] h = tt
  delete-IsDistinct k ((j, w) ∷ m) h = grind (arith, lookup-delete k j m, delete-IsDistinct k m)

  pub delete_all-IsDistinct :
      (ks : List Bytes) (m : Assoc V) → IsDistinct m → IsDistinct (delete_all ks m)
  unfolding delete_all
  delete_all-IsDistinct [] m h = h
  delete_all-IsDistinct (k ∷ ks) m h =
      delete_all-IsDistinct ks (delete k m) (delete-IsDistinct k m h)

  lookup-delete_all_other :
      (ks : List Bytes) (j : Bytes) (m : Assoc V)
      → any (λ k. str_eq k j) ks ≡ false
      → lookup j (delete_all ks m) ≡ lookup j m
  unfolding delete_all any
  lookup-delete_all_other [] j m h = refl
  lookup-delete_all_other (k ∷ ks) j m h =
      grind (arith, lookup-delete k j m, lookup-delete_all_other ks j (delete k m))

  module _ (test : Bytes × V → Bool) (key : Bytes) where
    absent_not_listed :
        (m : Assoc V) → lookup key m ≡ none → any (λ k. str_eq k key) (keys_where test m) ≡ false
    unfolding lookup keys_where any
    absent_not_listed [] h = refl
    absent_not_listed ((k, v) ∷ m) h = grind (arith, absent_not_listed m)

    kept_not_listed :
        (m : Assoc V) (v : V)
        → IsDistinct m
        → lookup key m ≡ some v
        → test (key, v) ≡ false
        → any (λ k. str_eq k key) (keys_where test m) ≡ false
    unfolding lookup keys_where any
    kept_not_listed [] v h e f = ground arith
    kept_not_listed ((k, w) ∷ m) v h e f =
        grind (arith, str_eq_iff k key, absent_not_listed m, kept_not_listed m v h.1)

    -- the value, unless it passes the test under the key
    abbrev pub unless : Option V → Option V
    unless none = none
    unless (some v) = if test (key, v) then none else some v

    -- The deletion of the entries that pass a test takes away these and no other.
    pub lookup-delete_all-keys_where :
        (m : Assoc V)
        → IsDistinct m
        → lookup key (delete_all (keys_where test m) m) ≡ unless (lookup key m)
    lookup-delete_all-keys_where m h = grind (
      arith,
      lookup-delete_all (keys_where test m) key m,
      lookup-delete_all_other (keys_where test m) key m,
      λ (v : V). kept_not_listed m v h,
      λ (v : V).
          lookup-All test key v (delete_all (keys_where test m) m) (delete_all-keys_where test m),
    )
