-- ===== src/Validator/Policy.antt =====
-- Which keys the policy of validator.go lets pass.
use dynamic_annotation_contr.Base.{
  ◌≡◌, ◌≢◌, ◌⊎◌, inl, inr, refl, true, false, not, ◌&&◌, none, List, [], ◌∷◌, ◌++◌, arith, Bytes,
  codes, All, is_empty, length, any, Bool-cases, has_prefix, HasPrefix, has_prefix_iff, pos, ◌≤ℤ◌,
  not_lt→le, has_prefix-append, drop_prefix-append, append-drop_prefix,
}
use dynamic_annotation_contr.Validator.{
  AnnotationValidator, new_annotation_validator, fail_if, forbidden_prefix, validate_annotation_key,
  check_denied, check_allowed, is_system_annotation, get_managed_annotation_key,
  strip_managed_prefix,
}
use dynamic_annotation_contr.Validator.Parts.{
  alt-none, fail_if-none, IsKeyChar, validate_dns_subdomain-All,
}
use dynamic_annotation_contr.Tracking.{tracking_key}
use dynamic_annotation_contr.Tracking.Text.{IsKeyText}

-- One of the prefixes begins the key.
abbrev HasOneOf : List Bytes → Bytes → Type 0
HasOneOf [] key = ⊥
HasOneOf (p ∷ ps) key = HasPrefix key p ⊎ HasOneOf ps key

-- What the policy demands of a key.
pub record IsPermitted (av : AnnotationValidator) (key : Bytes) : Type 0 where
  pub not_empty : key ≢ []
  pub fits : pos (length key) ≤ℤ av.max_key_length
  pub not_denied : All (λ p. ¬ HasPrefix key p) av.denied_prefixes
  pub required : (av.required_prefix ≡ []) ⊎ HasPrefix key av.required_prefix
  pub allowed : (av.allowed_prefixes ≡ []) ⊎ HasOneOf av.allowed_prefixes key
  pub well_formed : All IsKeyChar key

check_denied-not :
    (ps : List Bytes) (key : Bytes) → check_denied ps key ≡ none → All (λ p. ¬ HasPrefix key p) ps
unfolding check_denied
check_denied-not [] key h = tt
check_denied-not (p ∷ ps) key h =
    let (a, b) =
      alt-none (fail_if (has_prefix key p) (forbidden_prefix p)) (check_denied ps key) h in
    (
      λ q. cc (fail_if-none _ (forbidden_prefix p) a, (has_prefix_iff key p).1 q),
      check_denied-not ps key b,
    )

any-HasOneOf :
    (ps : List Bytes) (key : Bytes) → any (λ p. has_prefix key p) ps ≡ true → HasOneOf ps key
unfolding any
any-HasOneOf [] key h = cc
any-HasOneOf (p ∷ ps) key h = elim (Bool-cases (has_prefix key p)) [
  | inl e ↦ inl ((has_prefix_iff key p).0 e)
  | inr e ↦ inr (any-HasOneOf ps key (rw e at h))
]

check_allowed_sound :
    (ps : List Bytes) (key : Bytes) → check_allowed ps key ≡ none → (ps ≡ []) ⊎ HasOneOf ps key
unfolding check_allowed
check_allowed_sound [] key h = inl refl
check_allowed_sound (p ∷ ps) key h = inr (any-HasOneOf (p ∷ ps) key (ground arith))

required_sound :
    (r key : Bytes)
    → (not (is_empty r) && not (has_prefix key r)) ≡ false
    → (r ≡ []) ⊎ HasPrefix key r
required_sound [] key h = inl refl
required_sound (c ∷ r) key h = inr ((has_prefix_iff key (c ∷ r)).0 (ground arith))

not_empty_sound : (key : Bytes) → is_empty key ≡ false → key ≢ []
not_empty_sound [] h e = cc
not_empty_sound (c ∷ key) h e = cc

-- Every key that the validator accepts is permitted: it is not empty, fits, begins with no denied
-- prefix, begins with the required prefix and with an allowed one where such are set, and is made
-- of small letters, digits, `-`, `.` and `/`.
pub validate_annotation_key-IsPermitted :
    (av : AnnotationValidator) (key : Bytes)
    → validate_annotation_key av key ≡ none
    → IsPermitted av key
unfolding validate_annotation_key
validate_annotation_key-IsPermitted av key h =
    let (e, h₁) = alt-none _ _ h in
    let (l, h₂) = alt-none _ _ h₁ in
    let (d, h₃) = alt-none _ _ h₂ in
    let (r, h₄) = alt-none _ _ h₃ in
    let (a, w) = alt-none _ _ h₄ in
    record {
      not_empty = not_empty_sound key (fail_if-none _ _ e);
      fits = not_lt→le av.max_key_length (pos (length key)) (fail_if-none _ _ l);
      not_denied = check_denied-not av.denied_prefixes key d;
      required = required_sound av.required_prefix key (fail_if-none _ _ r);
      allowed = check_allowed_sound av.allowed_prefixes key a;
      well_formed = validate_dns_subdomain-All key w;
    }

-- An accepted key is one that a tracking annotation can hold.
pub validate_annotation_key-IsKeyText :
    (av : AnnotationValidator) (key : Bytes) → validate_annotation_key av key ≡ none → IsKeyText key
validate_annotation_key-IsKeyText av key h =
    let p = validate_annotation_key-IsPermitted av key h in (p.not_empty, p.well_formed)

off :
    (rule_id : Bytes)
    → has_prefix (tracking_key rule_id) (codes "scheduler.k8s.io/managed-") ≡ false
unfolding tracking_key has_prefix
off rule_id = refl

-- No key that the default policy accepts is the tracking annotation of a rule, whatever the rule.
accepted-ne-tracking_key :
    (key rule_id : Bytes)
    → validate_annotation_key new_annotation_validator key ≡ none
    → key ≢ tracking_key rule_id
unfolding new_annotation_validator
accepted-ne-tracking_key key rule_id h e =
    elim (validate_annotation_key-IsPermitted new_annotation_validator key h).required [
      | inl p ↦ cc
      | inr q ↦ cc (off rule_id, e, (has_prefix_iff key (codes "scheduler.k8s.io/managed-")).1 q)
    ]

-- A key that begins with a denied prefix, a system annotation, is rejected by every policy.
system_annotation_rejected :
    (av : AnnotationValidator) (key : Bytes)
    → is_system_annotation av key ≡ true
    → validate_annotation_key av key ≢ none
unfolding is_system_annotation
system_annotation_rejected av key h e =
    go av.denied_prefixes (any-HasOneOf av.denied_prefixes key h)
      (validate_annotation_key-IsPermitted av key e).not_denied
  where
    go : (ps : List Bytes) → HasOneOf ps key → All (λ p. ¬ HasPrefix key p) ps → ⊥
    go [] m a = m
    go (p ∷ ps) (inl q) a = a.0 q
    go (p ∷ ps) (inr m) a = go ps m a.1

-- A managed key begins with the required prefix; making it managed again changes nothing; and
-- stripping takes off the required prefix and no more.
strip-get_managed :
    (av : AnnotationValidator) (key : Bytes)
    → (has_prefix (get_managed_annotation_key av key) av.required_prefix ≡ true)
      × (get_managed_annotation_key av (get_managed_annotation_key av key)
          ≡ get_managed_annotation_key av key)
      × (av.required_prefix ++ strip_managed_prefix av (get_managed_annotation_key av key)
          ≡ get_managed_annotation_key av key)
unfolding get_managed_annotation_key strip_managed_prefix has_prefix
strip-get_managed av key = ground (
  arith,
  has_prefix-append av.required_prefix key,
  drop_prefix-append av.required_prefix key,
  append-drop_prefix key av.required_prefix,
)
