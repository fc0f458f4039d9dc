-- ===== src/Tracking.antt =====
-- internal/resource/manager.go: the annotation that records which keys a rule has applied.
-- Its value is what `fmt.Sprintf("%v", keys)` prints: the keys in brackets, a space between two.
pub mod Laws
pub mod Text
use mathlib.Core.List.{map}
use dynamic_annotation_contr.Base.{
  ℕ, ◌≡◌, refl, ◌==◌, Bool, not, ◌||◌, Option, none, some, List, [], ◌∷◌, ◌++◌, if◌then◌else◌,
  Bytes, codes, str_eq, split, join, trim, trim_space, is_empty, any, keep, Assoc, lookup, insert,
  delete,
}

-- fmt.Sprintf("scheduler.k8s.io/rule-%s-annotations", ruleID)
unfoldable pub tracking_key : Bytes → Bytes
tracking_key id = codes "scheduler.k8s.io/rule-" ++ (id ++ codes "-annotations")

-- fmt.Sprintf("%v", keys)
unfoldable pub format_keys : List Bytes → Bytes
unfolding join
format_keys keys = b'[' ∷ (join keys b' ' ++ b']' ∷ [])

is_bracket : ℕ → Bool
is_bracket c = c == b'[' || c == b']'

-- strings.Trim(value, "[]"), and strings.Split(…, " ") if that is not empty
unfoldable pub parse_keys : Bytes → List Bytes
unfolding trim is_bracket split
parse_keys value = let text = trim is_bracket value in if is_empty text then [] else split text b' '

abbrev listed_keys : Option Bytes → List Bytes
listed_keys none = []
listed_keys (some value) = parse_keys value

-- the keys that the tracking annotation lists
unfoldable pub tracked_keys : Assoc Bytes → Bytes → List Bytes
tracked_keys annotations rule_id = elim (lookup (tracking_key rule_id) annotations) [
  | none ↦ []
  | some v ↦ parse_keys v
]

-- strings.TrimSpace(appliedKey) == key, for some applied key
pub has_key : Bytes → List Bytes → Bool
has_key key keys = any (λ k. str_eq (trim_space k) key) keys

pub track_annotation_application : Assoc Bytes → Bytes → Bytes → Assoc Bytes
track_annotation_application annotations key rule_id =
    let applied = tracked_keys annotations rule_id in
    if has_key key applied
    then annotations
    else insert (tracking_key rule_id) (format_keys (applied ++ key ∷ [])) annotations

pub untrack_annotation_application : Assoc Bytes → Bytes → Bytes → Assoc Bytes
untrack_annotation_application annotations key rule_id =
    let applied = tracked_keys annotations rule_id in
    let remaining = keep (λ k. not (str_eq k key)) (map trim_space applied) in
    if is_empty applied
    then annotations
    else if is_empty remaining
    then delete (tracking_key rule_id) annotations
    else insert (tracking_key rule_id) (format_keys remaining) annotations

unfoldable pub was_annotation_applied_by_rule : Assoc Bytes → Bytes → Bytes → Bool
was_annotation_applied_by_rule annotations key rule_id =
    has_key key (tracked_keys annotations rule_id)

-- GetAppliedAnnotations; nil annotations are `none`, and a nil result is the empty list.
get_applied_annotations : Option (Assoc Bytes) → Bytes → List Bytes
get_applied_annotations none rule_id = []
get_applied_annotations (some annotations) rule_id =
    keep (λ k. not (is_empty k)) (map trim_space (tracked_keys annotations rule_id))

tracked_once :
    get_applied_annotations
      (some (track_annotation_application [] (codes "scheduler.k8s.io/managed-a") (codes "ns/r")))
      (codes "ns/r")
    ≡ codes "scheduler.k8s.io/managed-a" ∷ []
unfolding get_applied_annotations track_annotation_application tracked_keys has_key tracking_key
    format_keys parse_keys lookup insert keep any trim_space str_eq
tracked_once = refl
