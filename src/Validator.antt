-- ===== src/Validator.antt =====
-- internal/security/validator.go: the policy on annotation keys and values.
-- An `error` result is an `Option`, with a constructor for each `fmt.Errorf`.
pub mod Parts
pub mod Policy
pub mod Values
use dynamic_annotation_contr.Base.{
  ℕ, Bool, true, false, not, ◌&&◌, ◌||◌, Option, none, some, List, [], ◌∷◌, ◌++◌, ltb, leb, ◌==◌,
  if◌then◌else◌, Bytes, codes, has_prefix, drop_prefix, contains, to_lower, length, is_empty, any,
  Assoc, ℤ, pos, ltb_ℤ,
}

pub record AnnotationValidator : Type 0 where
  pub allowed_prefixes : List Bytes
  pub denied_prefixes : List Bytes
  pub required_prefix : Bytes
  pub max_key_length : ℤ
  pub max_value_length : ℤ

pub new_annotation_validator : AnnotationValidator
new_annotation_validator = record {
  allowed_prefixes =
      codes "app.kubernetes.io/" ∷ codes "scheduler.k8s.io/" ∷ codes "example.com/" ∷ [];
  denied_prefixes =
      codes "kubernetes.io/"
      ∷ codes "k8s.io/"
      ∷ codes "kubectl.kubernetes.io/"
      ∷ codes "node.kubernetes.io/"
      ∷ codes "volume.kubernetes.io/"
      ∷ codes "service.kubernetes.io/"
      ∷ codes "endpoints.kubernetes.io/"
      ∷ codes "endpointslice.kubernetes.io/"
      ∷ codes "networking.kubernetes.io/"
      ∷ codes "policy/"
      ∷ codes "security.kubernetes.io/"
      ∷ codes "admission.kubernetes.io/"
      ∷ codes "authorization.kubernetes.io/"
      ∷ codes "authentication.kubernetes.io/"
      ∷ codes "rbac.authorization.kubernetes.io/"
      ∷ codes "apiserver.kubernetes.io/"
      ∷ codes "controller.kubernetes.io/"
      ∷ codes "scheduler.kubernetes.io/"
      ∷ codes "kubelet.kubernetes.io/"
      ∷ codes "kube-proxy.kubernetes.io/"
      ∷ codes "cloud.kubernetes.io/"
      ∷ codes "cluster-autoscaler.kubernetes.io/"
      ∷ codes "node-restriction.kubernetes.io/"
      ∷ [];
  required_prefix = codes "scheduler.k8s.io/managed-";
  max_key_length = pos 253;
  max_value_length = pos 65536;
}

pub data NameError : Type 0 where
  bad_length invalid_characters consecutive_dots : NameError

pub data KeyError : Type 0 where
  empty_key key_too_long not_allowed : KeyError
  forbidden_prefix missing_prefix : Bytes → KeyError
  invalid_prefix invalid_name : NameError → KeyError

pub data ValueError : Type 0 where
  value_too_long : ValueError
  dangerous_pattern : Bytes → ValueError
  control_character : ℕ → ValueError

-- `if err := …; err != nil { return err }` before the rest
infixr 30 ◌<|>◌
abbrev pub ◌<|>◌ {ℓ} : {E : Type ℓ} → Option E → Option E → Option E
none <|> k = k
some e <|> k = some e

abbrev pub fail_if {ℓ} : {E : Type ℓ} → Bool → E → Option E
fail_if true e = some e
fail_if false e = none

-- [a-z0-9]
is_alnum : ℕ → Bool
is_alnum c = (leb b'a' c && leb c b'z') || (leb b'0' c && leb c b'9')

-- [a-z0-9\-\.]
is_name_char : ℕ → Bool
unfolding is_alnum
is_name_char c = is_alnum c || (c == b'-' || c == b'.')

-- [a-z0-9\-]
is_label_char : ℕ → Bool
unfolding is_alnum
is_label_char c = is_alnum c || c == b'-'

-- C*[a-z0-9]$
match_tail : (ℕ → Bool) → Bytes → Bool
unfolding is_alnum
match_tail p [] = false
match_tail p (c ∷ []) = is_alnum c
match_tail p (c ∷ d ∷ s) = p c && match_tail p (d ∷ s)

-- ^[a-z0-9](C*[a-z0-9])?$
match_dns : (ℕ → Bool) → Bytes → Bool
unfolding match_tail
match_dns p [] = false
match_dns p (c ∷ s) = is_alnum c && (is_empty s || match_tail p s)

validate_dns_name : Bytes → Option NameError
unfolding match_dns is_name_char contains
validate_dns_name name =
    fail_if (length name == 0 || ltb 253 (length name)) bad_length
    <|> fail_if (not (match_dns is_name_char name)) invalid_characters
    <|> fail_if (contains name (codes "..")) consecutive_dots

unfoldable pub validate_dns_label : Bytes → Option NameError
unfolding match_dns is_label_char
validate_dns_label label =
    fail_if (length label == 0 || ltb 63 (length label)) bad_length
    <|> fail_if (not (match_dns is_label_char label)) invalid_characters

-- strings.SplitN(key, "/", 2): what stands before the first slash, if there is one, and the rest.
unfoldable pub split_key : Bytes → Option Bytes × Bytes
split_key [] = (none, [])
split_key (c ∷ s) =
    let (p, name) = split_key s in
    if c == b'/'
    then (some [], s)
    else elim p [ none ↦ (none, c ∷ name) | some q ↦ (some (c ∷ q), name) ]

-- the check of the prefix, which an empty or missing prefix skips
unfoldable pub validate_prefix : Option Bytes → Option KeyError
unfolding validate_dns_name
validate_prefix none = none
validate_prefix (some []) = none
validate_prefix (some (c ∷ p)) = elim (validate_dns_name (c ∷ p)) [
  | none ↦ none
  | some e ↦ some (invalid_prefix e)
]

unfoldable pub validate_dns_subdomain : Bytes → Option KeyError
validate_dns_subdomain key =
    let (prefix, name) = split_key key in
    validate_prefix prefix
    <|> elim (validate_dns_label name) [ none ↦ none | some e ↦ some (invalid_name e) ]

-- the loop over the denied prefixes
unfoldable pub check_denied : List Bytes → Bytes → Option KeyError
check_denied [] key = none
check_denied (p ∷ ps) key = fail_if (has_prefix key p) (forbidden_prefix p) <|> check_denied ps key

unfoldable pub check_allowed : List Bytes → Bytes → Option KeyError
check_allowed ps key =
    fail_if (ltb 0 (length ps) && not (any (λ p. has_prefix key p) ps)) not_allowed

unfoldable pub validate_annotation_key : AnnotationValidator → Bytes → Option KeyError
validate_annotation_key av key =
    fail_if (is_empty key) empty_key
    <|> fail_if (ltb_ℤ av.max_key_length (pos (length key))) key_too_long
    <|> check_denied av.denied_prefixes key
    <|> fail_if (not (is_empty av.required_prefix) && not (has_prefix key av.required_prefix))
        (missing_prefix av.required_prefix)
    <|> check_allowed av.allowed_prefixes key
    <|> validate_dns_subdomain key

abbrev dangerous_patterns : List Bytes
dangerous_patterns =
    codes "<script"
    ∷ codes "javascript:"
    ∷ codes "data:text/html"
    ∷ codes "vbscript:"
    ∷ codes "onload="
    ∷ codes "onerror="
    ∷ codes "onclick="
    ∷ []

unfoldable pub check_patterns : List Bytes → Bytes → Option ValueError
check_patterns [] v = none
check_patterns (p ∷ ps) v = fail_if (contains v p) (dangerous_pattern p) <|> check_patterns ps v

abbrev is_control : ℕ → Bool
is_control c = ltb c 32 && (not (c == 9) && (not (c == 10) && not (c == 13)))

-- The loop over the characters; a character below 32 is one byte, and no other has such a byte.
unfoldable pub check_controls : Bytes → Option ValueError
check_controls [] = none
check_controls (c ∷ s) = fail_if (is_control c) (control_character c) <|> check_controls s

unfoldable pub validate_value_content : Bytes → Option ValueError
validate_value_content value =
    check_patterns dangerous_patterns (to_lower value) <|> check_controls value

unfoldable pub validate_annotation_value : AnnotationValidator → Bytes → Option ValueError
validate_annotation_value av value =
    fail_if (ltb_ℤ av.max_value_length (pos (length value))) value_too_long
    <|> validate_value_content value

pub data AnnotationError : Type 0 where
  bad_key : Bytes → KeyError → AnnotationError
  bad_value : Bytes → ValueError → AnnotationError

abbrev at_key : Bytes → Option KeyError → Option AnnotationError
at_key key none = none
at_key key (some e) = some (bad_key key e)

abbrev at_value : Bytes → Option ValueError → Option AnnotationError
at_value key none = none
at_value key (some e) = some (bad_value key e)

unfoldable pub validate_annotations : AnnotationValidator → Assoc Bytes → Option AnnotationError
validate_annotations av [] = none
validate_annotations av ((key, value) ∷ m) =
    at_key key (validate_annotation_key av key)
    <|> at_value key (validate_annotation_value av value)
    <|> validate_annotations av m

is_system_annotation : AnnotationValidator → Bytes → Bool
is_system_annotation av key = any (λ p. has_prefix key p) av.denied_prefixes

get_managed_annotation_key : AnnotationValidator → Bytes → Bytes
get_managed_annotation_key av key =
    if is_empty av.required_prefix
    then key
    else if has_prefix key av.required_prefix
    then key
    else av.required_prefix ++ key

strip_managed_prefix : AnnotationValidator → Bytes → Bytes
strip_managed_prefix av key =
    if is_empty av.required_prefix
    then key
    else if has_prefix key av.required_prefix
    then drop_prefix key av.required_prefix
    else key
