-- ===== src/Validator/Values.antt =====
-- Which values and which maps of annotations the policy of validator.go lets pass.
use dynamic_annotation_contr.Base.{
  ℕ, ◌≤◌, ◌⊎◌, codes, ◌≡◌, ◌↔◌, refl, false, none, List, [], ◌∷◌, arith, Bytes, All, length,
  Bool-cases, contains, Contains, contains_iff, to_lower, pos, ◌≤ℤ◌, not_lt→le, le→not_lt, Assoc,
  inl, inr,
}
use dynamic_annotation_contr.Validator.{
  AnnotationValidator, fail_if, is_control, dangerous_patterns, control_character, check_patterns,
  check_controls, validate_value_content, validate_annotation_key, validate_annotation_value,
  validate_annotations,
}
use dynamic_annotation_contr.Validator.Parts.{alt-none, fail_if-none}

-- what a value must not hold, in any case of its letters
abbrev forbidden_texts : List Bytes
forbidden_texts =
    codes "<script"
    ∷ codes "javascript:"
    ∷ codes "data:text/html"
    ∷ codes "vbscript:"
    ∷ codes "onload="
    ∷ codes "onerror="
    ∷ codes "onclick="
    ∷ []

-- a byte that is not below 32, or tab, line feed or carriage return
abbrev IsPlain : ℕ → Type 0
IsPlain c = (32 ≤ c) ⊎ (c ≡ 9) ⊎ (c ≡ 10) ⊎ (c ≡ 13)

-- What the policy demands of a value.
pub record IsPermittedValue (av : AnnotationValidator) (value : Bytes) : Type 0 where
  pub fits : pos (length value) ≤ℤ av.max_value_length
  pub harmless : All (λ p. ¬ Contains (to_lower value) p) forbidden_texts
  pub printable : All IsPlain value

check_patterns_iff :
    (ps : List Bytes) (v : Bytes) → (check_patterns ps v ≡ none) ↔ All (λ p. ¬ Contains v p) ps
unfolding check_patterns
check_patterns_iff [] v = (λ h. tt, λ h. refl)
check_patterns_iff (p ∷ ps) v = elim (Bool-cases (contains v p)) [
  | inl e ↦ (λ h. cc (e, h), λ h. absurd (h.0 ((contains_iff v p).0 e)))
  | inr e ↦ rw e (
    λ h. (λ q. cc (e, (contains_iff v p).1 q), (check_patterns_iff ps v).0 h),
    λ h. (check_patterns_iff ps v).1 h.1,
  )
]

is_control_iff : (c : ℕ) → (is_control c ≡ false) ↔ IsPlain c
is_control_iff c = (λ h. ground arith, λ h. ground arith)

check_controls_iff : (v : Bytes) → (check_controls v ≡ none) ↔ All IsPlain v
unfolding check_controls
check_controls_iff [] = (λ h. tt, λ h. refl)
check_controls_iff (c ∷ v) = (
  λ h.
      let (a, b) = alt-none (fail_if (is_control c) (control_character c)) (check_controls v) h in
      (
        (is_control_iff c).0 (fail_if-none (is_control c) (control_character c) a),
        (check_controls_iff v).0 b,
      ),
  λ h. rw ((is_control_iff c).1 h.0) ((check_controls_iff v).1 h.1),
)

-- A value is accepted exactly if it fits, holds none of seven texts of scripts whatever the case of
-- its letters, and has no byte below 32 but tab, line feed and carriage return. (So the delete
-- character and the control characters from 128 on are accepted.)
pub validate_annotation_value_iff :
    (av : AnnotationValidator) (value : Bytes)
    → (validate_annotation_value av value ≡ none) ↔ IsPermittedValue av value
unfolding validate_annotation_value validate_value_content
validate_annotation_value_iff av value = (
  λ h.
      let (l, h₁) = alt-none _ _ h in
      let (p, c) = alt-none _ _ h₁ in
      record {
        fits = not_lt→le av.max_value_length (pos (length value)) (fail_if-none _ _ l);
        harmless = (check_patterns_iff dangerous_patterns (to_lower value)).0 p;
        printable = (check_controls_iff value).0 c;
      },
  λ v. rw (le→not_lt av.max_value_length (pos (length value)) v.fits) (
      rw ((check_patterns_iff dangerous_patterns (to_lower value)).1 v.harmless)
        ((check_controls_iff value).1 v.printable)),
)

-- The entry is accepted, key and value.
abbrev IsAccepted : AnnotationValidator → Bytes × Bytes → Type 0
IsAccepted av (key, value) =
    (validate_annotation_key av key ≡ none) × (validate_annotation_value av value ≡ none)

-- A map of annotations is accepted exactly if every key and every value is.
validate_annotations_iff :
    (av : AnnotationValidator) (m : Assoc Bytes)
    → (validate_annotations av m ≡ none) ↔ All (IsAccepted av) m
unfolding validate_annotations
validate_annotations_iff av [] = (λ h. tt, λ h. refl)
validate_annotations_iff av ((key, value) ∷ m) = (
  λ h. ground (arith, validate_annotations_iff av m),
  λ h. ground (arith, validate_annotations_iff av m),
)
