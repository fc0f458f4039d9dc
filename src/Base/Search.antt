-- ===== src/Base/Search.antt =====
-- What the searches of `Strings` find.
use mathlib.Core.Path.{◌≡◌, refl, sym, ap}
use mathlib.Core.Logic.{◌↔◌, ◌⊎◌, inl, inr}
use mathlib.Core.Bool.{true}
use mathlib.Core.List.{[], ◌∷◌, ◌++◌}
use native.Mathlib.Omega.{arith}
use dynamic_annotation_contr.Base.Tests.{Bool-cases}
use dynamic_annotation_contr.Base.Strings.{
  Bytes, has_prefix, drop_prefix, contains, has_prefix-append, append-drop_prefix,
}

-- The text begins with the prefix.
abbrev pub HasPrefix : Bytes → Bytes → Type 0
HasPrefix s p = (rest : Bytes) × (s ≡ p ++ rest)

-- The text holds the pattern somewhere.
abbrev pub Contains : Bytes → Bytes → Type 0
Contains s p = (before after : Bytes) × (s ≡ before ++ (p ++ after))

pub has_prefix_iff : (s p : Bytes) → (has_prefix s p ≡ true) ↔ HasPrefix s p
has_prefix_iff s p =
    (λ h. (drop_prefix s p, sym (append-drop_prefix s p h)), λ h. rw h.1 (has_prefix-append p h.0))

contains_sound : (s p : Bytes) → contains s p ≡ true → Contains s p
unfolding contains
contains_sound [] p h = let q = (has_prefix_iff [] p).0 h in ([], q.0, q.1)
contains_sound (a ∷ s) p h = elim (Bool-cases (has_prefix (a ∷ s) p)) [
  | inl e ↦ let q = (has_prefix_iff (a ∷ s) p).0 e in ([], q.0, q.1)
  | inr e ↦ let r = contains_sound s p (rw e at h) in (a ∷ r.0, r.1, ap (λ t. a ∷ t) r.2)
]

contains-nil : (s : Bytes) → contains s [] ≡ true
unfolding contains has_prefix
contains-nil [] = refl
contains-nil (a ∷ s) = refl

contains_complete : (b a p : Bytes) → contains (b ++ (p ++ a)) p ≡ true
unfolding contains
contains_complete [] a [] = contains-nil a
contains_complete [] a (c ∷ p) = rw (has_prefix-append (c ∷ p) a) refl
contains_complete (d ∷ b) a p = ground (arith, contains_complete b a p)

pub contains_iff : (s p : Bytes) → (contains s p ≡ true) ↔ Contains s p
contains_iff s p = (contains_sound s p, λ h. rw h.2 (contains_complete h.0 h.1 p))

-- Two prefixes of one text: one is a prefix of the other.
pub prefixes_nest :
    (s p q : Bytes)
    → has_prefix s p ≡ true
    → has_prefix s q ≡ true
    → (has_prefix p q ≡ true) ⊎ (has_prefix q p ≡ true)
unfolding has_prefix
prefixes_nest s [] q hp hq = inr (has_prefix-append [] q)
prefixes_nest s (b ∷ p) [] hp hq = inl refl
prefixes_nest [] (b ∷ p) (c ∷ q) hp hq = ground arith
prefixes_nest (a ∷ s) (b ∷ p) (c ∷ q) hp hq = ground (arith, prefixes_nest s p q)
