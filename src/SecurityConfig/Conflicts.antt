-- ===== src/SecurityConfig/Conflicts.antt =====
-- What a configuration that is valid guarantees.
use dynamic_annotation_contr.Base.{
  ◌≡◌, true, none, List, [], ◌∷◌, arith, Bytes, any, has_prefix, prefixes_nest,
}
use dynamic_annotation_contr.Validator.{check_denied}
use dynamic_annotation_contr.SecurityConfig.{
  SecurityConfig, check_conflicts, check_all_conflicts, validate_configuration,
}

one_conflict :
    (key allowed : Bytes) (denied : List Bytes)
    → check_conflicts allowed denied ≡ none
    → has_prefix key allowed ≡ true
    → check_denied denied key ≡ none
unfolding check_conflicts check_denied
one_conflict key allowed [] h hp = ground arith
one_conflict key allowed (d ∷ denied) h hp =
    ground (arith, one_conflict key allowed denied, prefixes_nest key allowed d)

all_conflicts :
    (key : Bytes) (denied ps : List Bytes)
    → check_all_conflicts ps denied ≡ none
    → any (λ p. has_prefix key p) ps ≡ true
    → check_denied denied key ≡ none
unfolding check_all_conflicts any
all_conflicts key denied [] hc hp = ground arith
all_conflicts key denied (p ∷ ps) hc hp =
    ground (arith, one_conflict key p denied, all_conflicts key denied ps)

-- If a configuration is valid, a key with an allowed prefix has none of the denied ones: the rule
-- on denied prefixes never rejects it.
allowed_never_denied :
    (config : SecurityConfig) (key : Bytes)
    → validate_configuration config ≡ none
    → any (λ p. has_prefix key p) config.allowed_prefixes ≡ true
    → check_denied config.denied_prefixes key ≡ none
unfolding validate_configuration
allowed_never_denied config key h ha =
    all_conflicts key config.denied_prefixes config.allowed_prefixes (ground arith) ha
