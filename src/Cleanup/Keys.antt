-- ===== src/Cleanup/Keys.antt =====
-- What the cleanup deletes from a resource.
use dynamic_annotation_contr.Base.{
  str_eq-ne, ◌==◌, All, if◌then◌else◌, ℕ, ◌≡◌, ◌≢◌, refl, ◌==◌, true, false, Option, none, some,
  List, [], ◌∷◌, ◌++◌, ◌∙◌, ap, arith, Bytes, codes, All, split, cons_head, join, keep, has_prefix,
  has_prefix-append, lookup, delete, Assoc, lookup-delete, str_eq_iff, str_eq-ne, any,
}
use dynamic_annotation_contr.Api.{Rule}
use dynamic_annotation_contr.Tracking.{tracking_key}
use dynamic_annotation_contr.Manager.Legacy.{keys_of}
use dynamic_annotation_contr.Api.{Rule}
use dynamic_annotation_contr.Cleanup.{
  rule_ids, rule_prefix, but_last, middle_parts, rule_id_of_key, is_valid_rule, is_orphaned,
  orphaned_keys, delete_keys, rule_ids,
}

-- a text without a hyphen
IsHyphenFree : Bytes → Type 0
IsHyphenFree s = All (λ c. (c == b'-') ≡ false) s

split-ne-nil : (s : Bytes) (sep : ℕ) → split s sep ≢ []
unfolding split cons_head
split-ne-nil [] sep = ground arith
split-ne-nil (c ∷ s) sep = ground (arith, split-ne-nil s sep)

cons_head-append :
    (c : ℕ) (xs ys : List Bytes) → xs ≢ [] → cons_head c (xs ++ ys) ≡ cons_head c xs ++ ys
unfolding cons_head
cons_head-append c [] ys h = absurd (h refl)
cons_head-append c (x ∷ xs) ys h = refl

split-append : (s t : Bytes) (sep : ℕ) → split (s ++ sep ∷ t) sep ≡ split s sep ++ split t sep
unfolding split
split-append [] t sep = ground arith
split-append (c ∷ s) t sep = ground (
  arith,
  split-append s t sep,
  cons_head-append c (split s sep) (split t sep),
  split-ne-nil s sep,
)

but_last-append : (xs : List Bytes) (y : Bytes) → but_last (xs ++ y ∷ []) ≡ xs
but_last-append [] y = refl
but_last-append (x ∷ []) y = refl
but_last-append (x ∷ z ∷ xs) y = ap (λ r. x ∷ r) (but_last-append (z ∷ xs) y)

-- The pieces of a text that its hyphens separate, without the first.
abbrev later_pieces : Bytes → List Bytes
later_pieces s = elim (split s b'-') [ [] ↦ [] | p ∷ ps ↦ ps ]

tracking_key-parts :
    (id : Bytes)
    → split (tracking_key id) b'-'
      ≡ codes "scheduler.k8s.io/rule" ∷ (split id b'-' ++ codes "annotations" ∷ [])
unfolding tracking_key split cons_head
tracking_key-parts id =
    split-append (codes "scheduler.k8s.io/rule") (id ++ codes "-annotations") b'-'
    ∙ (ap (λ r. codes "scheduler.k8s.io/rule" ∷ r) (split-append id (codes "annotations") b'-'))

middle_parts-pieces :
    (first last : Bytes) (pieces : List Bytes)
    → pieces ≢ []
    → middle_parts (first ∷ (pieces ++ last ∷ [])) ≡ some (elim pieces [ [] ↦ [] | p ∷ ps ↦ ps ])
middle_parts-pieces first last [] h = absurd (h refl)
middle_parts-pieces first last (p ∷ []) h = refl
middle_parts-pieces first last (p ∷ q ∷ ps) h = ap some (but_last-append (q ∷ ps) last)

abbrev joined : Option (List Bytes) → Option Bytes
joined none = none
joined (some parts) = some (join parts b'-')

-- From the tracking annotation of a rule the cleanup reconstructs the identifier without its first
-- piece, up to the first hyphen, and not the identifier.
rule_id_of_key-tracking_key :
    (id : Bytes) → rule_id_of_key (tracking_key id) ≡ some (join (later_pieces id) b'-')
unfolding rule_id_of_key
rule_id_of_key-tracking_key id =
    ap (λ parts. joined (middle_parts parts)) (tracking_key-parts id)
    ∙ ap joined (
        middle_parts-pieces (codes "scheduler.k8s.io/rule") (codes "annotations") (split id b'-')
          (split-ne-nil id b'-'))

tracking_key-prefix : (id : Bytes) → has_prefix (tracking_key id) rule_prefix ≡ true
unfolding tracking_key
tracking_key-prefix id = has_prefix-append rule_prefix (id ++ codes "-annotations")

delete_keys-none :
    (keys : List Bytes) (key : Bytes) (m : Assoc Bytes)
    → lookup key m ≡ none
    → lookup key (delete_keys keys m) ≡ none
unfolding delete_keys
delete_keys-none [] key m h = h
delete_keys-none (k ∷ keys) key m h =
    delete_keys-none keys key (delete k m) (ground (arith, lookup-delete k key m))

delete_keys-keep :
    (valid : List Bytes) (key : Bytes) (keys : List Bytes) (m : Assoc Bytes)
    → is_orphaned valid key ≡ false
    → lookup key (delete_keys (keep (is_orphaned valid) keys) m) ≡ lookup key m
unfolding delete_keys keep
delete_keys-keep valid key [] m h = refl
delete_keys-keep valid key (k ∷ keys) m h = ground (
  arith,
  delete_keys-keep valid key keys m,
  delete_keys-keep valid key keys (delete k m),
  lookup-delete k key m,
  str_eq_iff k key,
)

delete_keys-orphaned :
    (valid : List Bytes) (key : Bytes) (all m : Assoc Bytes)
    → is_orphaned valid key ≡ true
    → (lookup key all ≡ none → lookup key m ≡ none)
    → lookup key (delete_keys (keep (is_orphaned valid) (keys_of all)) m) ≡ none
unfolding delete_keys keep lookup
delete_keys-orphaned valid key [] m h g = g refl
delete_keys-orphaned valid key ((k, v) ∷ all) m h g = ground (
  arith,
  str_eq_iff k key,
  lookup-delete k key m,
  delete_keys-none (keep (is_orphaned valid) (keys_of all)) key (delete k m),
  delete_keys-orphaned valid key all (delete k m) h,
  delete_keys-orphaned valid key all m h,
)

-- The cleanup deletes exactly the annotations that it takes for orphaned, and keeps every other.
lookup-orphaned_keys :
    (valid : List Bytes) (key : Bytes) (annotations : Assoc Bytes)
    → lookup key (delete_keys (orphaned_keys valid annotations) annotations)
      ≡ (if is_orphaned valid key then none else lookup key annotations)
unfolding orphaned_keys
lookup-orphaned_keys valid key annotations = ground (
  arith,
  delete_keys-keep valid key (keys_of annotations) annotations,
  delete_keys-orphaned valid key annotations annotations,
)

split-hyphen_free : (s : Bytes) → All (λ c. (c == b'-') ≡ false) s → split s b'-' ≡ s ∷ []
unfolding split cons_head
split-hyphen_free [] h = refl
split-hyphen_free (c ∷ s) h = ground (arith, split-hyphen_free s h.1)

no_empty_rule : (rules : List Rule) → is_valid_rule (rule_ids rules) [] ≡ false
unfolding is_valid_rule rule_ids any
no_empty_rule [] = refl
no_empty_rule (rule ∷ rules) =
    rw (str_eq-ne _ [] (λ e. append-ne rule.namespace rule.name e)) (no_empty_rule rules)
  where
    append-ne : (s t : Bytes) → s ++ b'/' ∷ t ≢ []
    append-ne [] t e = cc
    append-ne (c ∷ s) t e = cc

reconstructed :
    (id : Bytes) → All (λ c. (c == b'-') ≡ false) id → rule_id_of_key (tracking_key id) ≡ some []
unfolding join
reconstructed id h =
    rule_id_of_key-tracking_key id
    ∙ ap (λ s. some (join (elim s as (λ _. List Bytes) [ [] ↦ [] | p ∷ ps ↦ ps ]) b'-'))
        (split-hyphen_free id h)

-- Whatever rules the cluster has, the cleanup deletes the tracking annotation of every rule whose
-- identifier, a namespace, a slash and a name, has no hyphen: a live rule loses its own.
pub live_tracking_deleted :
    (rules : List Rule) (id : Bytes) (annotations : Assoc Bytes)
    → All (λ c. (c == b'-') ≡ false) id
    → lookup
        (tracking_key id)
        (delete_keys (orphaned_keys (rule_ids rules) annotations) annotations)
      ≡ none
unfolding is_orphaned
live_tracking_deleted rules id annotations h = ground (
  arith,
  lookup-orphaned_keys (rule_ids rules) (tracking_key id) annotations,
  tracking_key-prefix id,
  reconstructed id h,
  no_empty_rule rules,
)
