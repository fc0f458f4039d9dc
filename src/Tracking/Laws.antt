-- ===== src/Tracking/Laws.antt =====
-- What tracking and untracking a key change: only the list of the rule, and there only the key.
use mathlib.Core.List.{map, append_cancel_left, append_cancel_right}
use dynamic_annotation_contr.Base.{
  ◌≡◌, ◌≢◌, str_eq-ne, refl, ap, ◌∙◌, false, not, ◌&&◌, ◌||◌, List, [], ◌∷◌, ◌++◌, inl, inr,
  if◌then◌else◌, arith, Bytes, codes, All, All-append, str_eq, str_eq_iff, str_eq_self, str_eq→eq,
  trim_space, is_empty, any, keep, Bool-cases, Assoc, lookup, insert, delete, lookup-insert,
  lookup-delete,
}
use dynamic_annotation_contr.Tracking.{
  tracking_key, listed_keys, format_keys, tracked_keys, has_key, track_annotation_application,
  untrack_annotation_application, was_annotation_applied_by_rule,
}
use dynamic_annotation_contr.Tracking.Text.{
  IsKeyText, parse_keys-format_keys, trim_space_key, map-trim_space,
}

-- The tracking annotation of the rule, if there is one, lists keys that a validator lets pass.
abbrev pub IsTracked : Assoc Bytes → Bytes → Type 0
IsTracked m rule_id = All IsKeyText (tracked_keys m rule_id)

tracked_keys-insert :
    (m : Assoc Bytes) (rule_id : Bytes) (ks : List Bytes)
    → All IsKeyText ks
    → tracked_keys (insert (tracking_key rule_id) (format_keys ks) m) rule_id ≡ ks
unfolding tracked_keys
tracked_keys-insert m rule_id ks h =
    ap listed_keys (lookup-insert (tracking_key rule_id) (tracking_key rule_id) (format_keys ks) m)
    ∙ rw (str_eq_self (tracking_key rule_id)) (parse_keys-format_keys ks h)

tracked_keys-delete :
    (m : Assoc Bytes) (rule_id : Bytes)
    → tracked_keys (delete (tracking_key rule_id) m) rule_id ≡ []
unfolding tracked_keys
tracked_keys-delete m rule_id =
    ap listed_keys (lookup-delete (tracking_key rule_id) (tracking_key rule_id) m)
    ∙ rw (str_eq_self (tracking_key rule_id)) refl

-- The list after tracking: the key is appended unless it is there.
tracked_keys-track :
    (m : Assoc Bytes) (key rule_id : Bytes)
    → IsKeyText key
    → IsTracked m rule_id
    → tracked_keys (track_annotation_application m key rule_id) rule_id ≡ (
        if has_key key (tracked_keys m rule_id)
        then tracked_keys m rule_id
        else tracked_keys m rule_id ++ key ∷ [])
unfolding track_annotation_application
tracked_keys-track m key rule_id hk ht = elim (Bool-cases (has_key key (tracked_keys m rule_id))) [
  | inl e ↦ rw e refl
  | inr e ↦ rw e (
      tracked_keys-insert m rule_id (tracked_keys m rule_id ++ key ∷ [])
        (All-append IsKeyText (tracked_keys m rule_id) (key ∷ []) ht (hk, tt)))
]

-- What `strings.TrimSpace` and the comparison leave of a list.
abbrev without_key : Bytes → List Bytes → List Bytes
without_key key ks = keep (λ k. not (str_eq k key)) ks

without_key-All :
    (key : Bytes) (ks : List Bytes) → All IsKeyText ks → All IsKeyText (without_key key ks)
unfolding keep
without_key-All key [] h = tt
without_key-All key (k ∷ ks) h = elim (Bool-cases (str_eq k key)) [
  | inl e ↦ rw e (without_key-All key ks h.1)
  | inr e ↦ rw e (h.0, without_key-All key ks h.1)
]

-- The list after `remaining` has been written back.
write_remaining :
    (m : Assoc Bytes) (rule_id : Bytes) (ks : List Bytes)
    → All IsKeyText ks
    → tracked_keys
        (if is_empty ks
          then delete (tracking_key rule_id) m
          else insert (tracking_key rule_id) (format_keys ks) m)
        rule_id
      ≡ ks
write_remaining m rule_id [] h = tracked_keys-delete m rule_id
write_remaining m rule_id (k ∷ ks) h = tracked_keys-insert m rule_id (k ∷ ks) h

-- The list after untracking: what is left of it.
tracked_keys-untrack :
    (m : Assoc Bytes) (key rule_id : Bytes)
    → IsTracked m rule_id
    → tracked_keys (untrack_annotation_application m key rule_id) rule_id
      ≡ without_key key (tracked_keys m rule_id)
unfolding untrack_annotation_application
tracked_keys-untrack m key rule_id ht = go (tracked_keys m rule_id) refl ht
  where
    go :
        (ks : List Bytes)
        → tracked_keys m rule_id ≡ ks
        → All IsKeyText ks
        → tracked_keys (untrack_annotation_application m key rule_id) rule_id ≡ without_key key ks
    go [] e h = rw e (rw e (unfold keep in refl))
    go (k ∷ ks) e h =
        rw (e, map-trim_space (k ∷ ks) h)
          (write_remaining m rule_id (without_key key (k ∷ ks)) (without_key-All key (k ∷ ks) h))

has_key-append :
    (j key : Bytes) (ks : List Bytes)
    → IsKeyText key
    → has_key j (ks ++ key ∷ []) ≡ (has_key j ks || str_eq key j)
unfolding has_key any
has_key-append j key [] hk = rw (trim_space_key key hk.1) (ground arith)
has_key-append j key (k ∷ ks) hk = ground (arith, has_key-append j key ks hk)

has_key-without_key :
    (j key : Bytes) (ks : List Bytes)
    → All IsKeyText ks
    → has_key j (without_key key ks) ≡ (not (str_eq key j) && has_key j ks)
unfolding has_key any keep
has_key-without_key j key [] h = ground arith
has_key-without_key j key (k ∷ ks) h = ground (
  arith,
  has_key-without_key j key ks h.1,
  trim_space_key k h.0.1,
  str_eq_iff k key,
  str_eq_iff key j,
  str_eq_iff k j,
)

-- After tracking a key for a rule, the rule is found to have applied that key, and of every other
-- key what was found before. (The key is one that a validator lets pass, and so are those that the
-- rule has tracked before.)
pub was_applied-track :
    (m : Assoc Bytes) (key j rule_id : Bytes)
    → IsKeyText key
    → IsTracked m rule_id
    → was_annotation_applied_by_rule (track_annotation_application m key rule_id) j rule_id
      ≡ (was_annotation_applied_by_rule m j rule_id || str_eq key j)
unfolding was_annotation_applied_by_rule
was_applied-track m key j rule_id hk ht =
    rw (tracked_keys-track m key rule_id hk ht)
      (elim (Bool-cases (has_key key (tracked_keys m rule_id))) [
        | inl e ↦ rw e (ground (arith, str_eq_iff key j))
        | inr e ↦ rw e (has_key-append j key (tracked_keys m rule_id) hk)
      ])

-- After untracking a key for a rule, the rule is found not to have applied that key, and of every
-- other key what was found before. (All that the rule has tracked are keys that a validator lets
-- pass.)
pub was_applied-untrack :
    (m : Assoc Bytes) (key j rule_id : Bytes)
    → IsTracked m rule_id
    → was_annotation_applied_by_rule (untrack_annotation_application m key rule_id) j rule_id
      ≡ (not (str_eq key j) && was_annotation_applied_by_rule m j rule_id)
unfolding was_annotation_applied_by_rule
was_applied-untrack m key j rule_id ht =
    rw (tracked_keys-untrack m key rule_id ht)
      (has_key-without_key j key (tracked_keys m rule_id) ht)

pub track-IsTracked :
    (m : Assoc Bytes) (key rule_id : Bytes)
    → IsKeyText key
    → IsTracked m rule_id
    → IsTracked (track_annotation_application m key rule_id) rule_id
track-IsTracked m key rule_id hk ht =
    rw (tracked_keys-track m key rule_id hk ht)
      (elim (Bool-cases (has_key key (tracked_keys m rule_id))) [
        | inl e ↦ rw e ht
        | inr e ↦ rw e (All-append IsKeyText (tracked_keys m rule_id) (key ∷ []) ht (hk, tt))
      ])

pub untrack-IsTracked :
    (m : Assoc Bytes) (key rule_id : Bytes)
    → IsTracked m rule_id
    → IsTracked (untrack_annotation_application m key rule_id) rule_id
untrack-IsTracked m key rule_id ht =
    rw (tracked_keys-untrack m key rule_id ht) (without_key-All key (tracked_keys m rule_id) ht)

-- Tracking and untracking write nothing but the tracking annotation of the rule.
pub lookup-track :
    (m : Assoc Bytes) (key j rule_id : Bytes)
    → str_eq (tracking_key rule_id) j ≡ false
    → lookup j (track_annotation_application m key rule_id) ≡ lookup j m
unfolding track_annotation_application
lookup-track m key j rule_id h = ground (
  arith,
  lookup-insert (tracking_key rule_id) j (format_keys (tracked_keys m rule_id ++ key ∷ [])) m,
)

pub lookup-untrack :
    (m : Assoc Bytes) (key j rule_id : Bytes)
    → str_eq (tracking_key rule_id) j ≡ false
    → lookup j (untrack_annotation_application m key rule_id) ≡ lookup j m
unfolding untrack_annotation_application
lookup-untrack m key j rule_id h = ground (
  arith,
  lookup-insert (tracking_key rule_id) j
      (format_keys (without_key key (map trim_space (tracked_keys m rule_id)))) m,
  lookup-delete (tracking_key rule_id) j m,
)

tracking_key-injective : (a b : Bytes) → tracking_key a ≡ tracking_key b → a ≡ b
unfolding tracking_key
tracking_key-injective a b e =
    append_cancel_right a b (codes "-annotations")
      (append_cancel_left (codes "scheduler.k8s.io/rule-") _ _ e)

tracking_key_ne :
    (a b : Bytes) → str_eq a b ≡ false → str_eq (tracking_key a) (tracking_key b) ≡ false
tracking_key_ne a b h = elim (Bool-cases (str_eq (tracking_key a) (tracking_key b))) [
  | inl e ↦ cc (h, (str_eq_iff a b).1 (tracking_key-injective a b (str_eq→eq _ _ e)))
  | inr e ↦ e
]

-- What one rule tracks or untracks leaves the keys of every other rule alone.
tracked_keys-other_rule :
    (m : Assoc Bytes) (key rule_id other : Bytes)
    → str_eq rule_id other ≡ false
    → (tracked_keys (track_annotation_application m key rule_id) other ≡ tracked_keys m other)
      × (tracked_keys (untrack_annotation_application m key rule_id) other ≡ tracked_keys m other)
unfolding tracked_keys
tracked_keys-other_rule m key rule_id other h = (
  ap listed_keys (lookup-track m key (tracking_key other) rule_id (tracking_key_ne _ _ h)),
  ap listed_keys (lookup-untrack m key (tracking_key other) rule_id (tracking_key_ne _ _ h)),
)

-- A write to another key leaves the tracked keys alone.
pub tracked_keys-write :
    (m : Assoc Bytes) (key value rule_id : Bytes)
    → key ≢ tracking_key rule_id
    → (tracked_keys (insert key value m) rule_id ≡ tracked_keys m rule_id)
      × (tracked_keys (delete key m) rule_id ≡ tracked_keys m rule_id)
unfolding tracked_keys
tracked_keys-write m key value rule_id h = (
  ap listed_keys (lookup-insert key (tracking_key rule_id) value m ∙ rw (str_eq-ne _ _ h) refl),
  ap listed_keys (lookup-delete key (tracking_key rule_id) m ∙ rw (str_eq-ne _ _ h) refl),
)
