-- ===== src/Validator/Parts.antt =====
-- What a passed check of validator.go says, check by check.
use dynamic_annotation_contr.Base.{
  ℕ, ◌≤◌, ◌≡◌, ◌⊎◌, inl, inr, refl, Bool, true, false, Option, none, some, List, [], ◌∷◌, ◌++◌,
  arith, Bytes, All, All-append, Bool-cases, has_prefix,
}
use dynamic_annotation_contr.Validator.{
  ◌<|>◌, fail_if, is_alnum, is_name_char, is_label_char, match_tail, match_dns, validate_dns_name,
  validate_dns_label, split_key, validate_prefix, validate_dns_subdomain, check_denied,
}

pub alt-none {ℓ} : {E : Type ℓ} (a b : Option E) → (a <|> b) ≡ none → (a ≡ none) × (b ≡ none)
alt-none none b h = (refl, h)
alt-none (some e) b h = cc

pub fail_if-none {ℓ} : {E : Type ℓ} (b : Bool) (e : E) → fail_if b e ≡ none → b ≡ false
fail_if-none true e h = cc
fail_if-none false e h = refl

-- The bytes of `-`, `.`, `/` and the digits, and of the small letters.
abbrev pub IsKeyChar : ℕ → Type 0
IsKeyChar c = ((b'-' ≤ c) × (c ≤ b'9')) ⊎ ((b'a' ≤ c) × (c ≤ b'z'))

is_alnum-IsKeyChar : (c : ℕ) → is_alnum c ≡ true → IsKeyChar c
unfolding is_alnum
is_alnum-IsKeyChar c h = ground arith

is_name_char-IsKeyChar : (c : ℕ) → is_name_char c ≡ true → IsKeyChar c
unfolding is_name_char
is_name_char-IsKeyChar c h = ground arith

is_label_char-IsKeyChar : (c : ℕ) → is_label_char c ≡ true → IsKeyChar c
unfolding is_label_char
is_label_char-IsKeyChar c h = ground arith

module _ (p : ℕ → Bool) (keeps : (c : ℕ) → p c ≡ true → IsKeyChar c) where
  match_tail-All : (s : Bytes) → match_tail p s ≡ true → All IsKeyChar s
  unfolding match_tail
  match_tail-All [] h = tt
  match_tail-All (c ∷ []) h = (is_alnum-IsKeyChar c h, tt)
  match_tail-All (c ∷ d ∷ s) h = elim (Bool-cases (p c)) [
    | inl e ↦ (keeps c e, match_tail-All (d ∷ s) (rw e at h))
    | inr e ↦ absurd (ground arith)
  ]

  match_dns-All : (s : Bytes) → match_dns p s ≡ true → All IsKeyChar s
  unfolding match_dns
  match_dns-All [] h = tt
  match_dns-All (c ∷ []) h = (is_alnum-IsKeyChar c (ground arith), tt)
  match_dns-All (c ∷ d ∷ s) h =
      (is_alnum-IsKeyChar c (ground arith), match_tail-All (d ∷ s) (ground arith))

validate_dns_name-All : (s : Bytes) → validate_dns_name s ≡ none → All IsKeyChar s
unfolding validate_dns_name
validate_dns_name-All s h = match_dns-All is_name_char is_name_char-IsKeyChar s (ground arith)

validate_dns_label-All : (s : Bytes) → validate_dns_label s ≡ none → All IsKeyChar s
unfolding validate_dns_label
validate_dns_label-All s h = match_dns-All is_label_char is_label_char-IsKeyChar s (ground arith)

-- The parts of a key spell the key.
abbrev spell : Option Bytes × Bytes → Bytes
spell (none, name) = name
spell (some p, name) = p ++ b'/' ∷ name

spell-split_key : (s : Bytes) → spell (split_key s) ≡ s
unfolding split_key
spell-split_key [] = refl
spell-split_key (c ∷ s) = ground (arith, spell-split_key s)

validate_prefix-All : (p : Bytes) → validate_prefix (some p) ≡ none → All IsKeyChar p
unfolding validate_prefix
validate_prefix-All [] h = tt
validate_prefix-All (c ∷ p) h = validate_dns_name-All (c ∷ p) (ground arith)

spell-All :
    (p : Option Bytes) (name : Bytes)
    → validate_prefix p ≡ none
    → validate_dns_label name ≡ none
    → All IsKeyChar (spell (p, name))
spell-All none name hp hn = validate_dns_label-All name hn
spell-All (some p) name hp hn =
    All-append IsKeyChar p (b'/' ∷ name) (validate_prefix-All p hp)
      (inl (omega arith), validate_dns_label-All name hn)

pub validate_dns_subdomain-All :
    (key : Bytes) → validate_dns_subdomain key ≡ none → All IsKeyChar key
unfolding validate_dns_subdomain
validate_dns_subdomain-All key h =
    rw (← spell-split_key key)
      (spell-All (split_key key).0 (split_key key).1 (ground arith) (ground arith))

check_denied-All :
    (ps : List Bytes) (key : Bytes)
    → check_denied ps key ≡ none
    → All (λ p. has_prefix key p ≡ false) ps
unfolding check_denied
check_denied-All [] key h = tt
check_denied-All (p ∷ ps) key h =
    let (a, b) = alt-none _ _ h in (fail_if-none _ _ a, check_denied-All ps key b)
