-- ===== src/SecurityConfig.antt =====
-- internal/security/config.go: the security configuration. The data of the ConfigMaps and
-- strconv.Atoi are parameters.
pub mod Loading
pub mod Conflicts
pub mod Lists
use dynamic_annotation_contr.Base.{
  ℕ, ◌≡◌, Bool, true, false, not, ◌&&◌, ◌||◌, Option, none, some, List, [], ◌∷◌, if◌then◌else◌, ltb,
  Bytes, codes, str_eq, has_prefix, split, trim_space, to_lower, is_empty, any, Assoc, lookup, ℤ,
  pos, ltb_ℤ,
}
use dynamic_annotation_contr.Client.{Result, ok, err}
use dynamic_annotation_contr.Validator.{AnnotationValidator, ◌<|>◌, fail_if}

pub record SecurityConfig : Type 0 where
  pub allowed_prefixes : List Bytes
  pub denied_prefixes : List Bytes
  pub required_prefix : Bytes
  pub max_key_length : ℤ
  pub max_value_length : ℤ
  pub audit_enabled : Bool
  pub audit_level : Bytes
  pub create_security_events : Bool

-- `line != "" && !strings.HasPrefix(line, "#")`, for each line without the space around it
entry_lines : List Bytes → List Bytes
entry_lines [] = []
entry_lines (line ∷ lines) =
    let text = trim_space line in
    let rest = entry_lines lines in
    if not (is_empty text) && not (has_prefix text (codes "#")) then text ∷ rest else rest

-- "\n" is the byte 10.
parse_string_list : Bytes → List Bytes
parse_string_list input = if is_empty input then [] else entry_lines (split input 10)

unfoldable parse_bool : Bytes → Bool → Bool
parse_bool input default_value =
    let text = to_lower (trim_space input) in
    if is_empty input
    then default_value
    else if any (λ w. str_eq text w)
        (codes "true" ∷ codes "yes" ∷ codes "1" ∷ codes "on" ∷ codes "enabled" ∷ [])
    then true
    else if any (λ w. str_eq text w)
        (codes "false" ∷ codes "no" ∷ codes "0" ∷ codes "off" ∷ codes "disabled" ∷ [])
    then false
    else default_value

unfoldable parse_string : Bytes → Bytes → Bytes
parse_string input default_value = if is_empty input then default_value else trim_space input

-- `m[k]` of Go: the empty text for a missing key.
abbrev value_at : Bytes → Assoc Bytes → Bytes
value_at key data_ = elim (lookup key data_) [ none ↦ [] | some v ↦ v ]

abbrev parse_length : (Bytes → Option ℤ) → Option Bytes → ℤ → ℤ
parse_length atoi none default_value = default_value
parse_length atoi (some text) default_value = elim (atoi (trim_space text)) [
  | none ↦ default_value
  | some n ↦ n
]

abbrev parse_prefixes : Option Bytes → List Bytes
parse_prefixes none = []
parse_prefixes (some text) = parse_string_list text

pub data LoadError (E : Type 0) : Type 0 where
  security_config_missing audit_config_missing : E → LoadError E

-- What is read from the data of the ConfigMap of the security configuration.
unfoldable config_of : (Bytes → Option ℤ) → Assoc Bytes → SecurityConfig
config_of atoi data_ = record {
  allowed_prefixes = parse_prefixes (lookup (codes "allowed-prefixes") data_);
  denied_prefixes = parse_prefixes (lookup (codes "denied-prefixes") data_);
  required_prefix = trim_space (value_at (codes "required-prefix") data_);
  max_key_length = parse_length atoi (lookup (codes "max-key-length") data_) (pos 253);
  max_value_length = parse_length atoi (lookup (codes "max-value-length") data_) (pos 65536);
  audit_enabled = parse_bool (value_at (codes "audit-enabled") data_) true;
  audit_level = parse_string (value_at (codes "audit-level") data_) (codes "info");
  create_security_events = parse_bool (value_at (codes "create-security-events") data_) true;
}

-- `get` reads the data of the ConfigMap of a name.
load_security_config :
    {E : Type 0}
    → (Bytes → Option ℤ)
    → (Bytes → Result E (Assoc Bytes))
    → Result (LoadError E) SecurityConfig
load_security_config atoi get = elim (get (codes "annotation-scheduler-security-config")) [
  | err e ↦ err (security_config_missing e)
  | ok data_ ↦ elim (get (codes "annotation-scheduler-audit-config")) [
    | err e ↦ err (audit_config_missing e)
    | ok audit ↦ ok (config_of atoi data_)
  ]
]

pub create_validator_from_config :
    {E : Type 0}
    → (Bytes → Option ℤ)
    → (Bytes → Result E (Assoc Bytes))
    → Result (LoadError E) AnnotationValidator
create_validator_from_config atoi get = elim (load_security_config atoi get) [
  | err e ↦ err e
  | ok config ↦ ok (record {
    allowed_prefixes = config.allowed_prefixes;
    denied_prefixes = config.denied_prefixes;
    required_prefix = config.required_prefix;
    max_key_length = config.max_key_length;
    max_value_length = config.max_value_length;
  })
]

-- WatchConfigChanges, which does nothing yet: it returns no error and never calls back.
unfoldable watch_config_changes : {E W : Type 0} → (SecurityConfig → W → W) → W → Option E × W
watch_config_changes callback w = (none, w)

pub data ConfigError : Type 0 where
  conflicting_prefixes required_prefix_denied : Bytes → Bytes → ConfigError
  invalid_key_length invalid_value_length : ℤ → ConfigError
  invalid_audit_level : Bytes → ConfigError

-- the inner loop, for one allowed prefix
check_conflicts : Bytes → List Bytes → Option ConfigError
check_conflicts allowed [] = none
check_conflicts allowed (denied ∷ rest) =
    fail_if (has_prefix allowed denied || has_prefix denied allowed)
      (conflicting_prefixes allowed denied)
    <|> check_conflicts allowed rest

check_all_conflicts : List Bytes → List Bytes → Option ConfigError
check_all_conflicts [] denied = none
check_all_conflicts (allowed ∷ rest) denied =
    check_conflicts allowed denied <|> check_all_conflicts rest denied

unfoldable check_required : Bytes → List Bytes → Option ConfigError
check_required required [] = none
check_required required (denied ∷ rest) =
    fail_if (has_prefix required denied) (required_prefix_denied required denied)
    <|> check_required required rest

validate_configuration : SecurityConfig → Option ConfigError
validate_configuration config =
    check_all_conflicts config.allowed_prefixes config.denied_prefixes
    <|> ((if is_empty config.required_prefix
          then none
          else check_required config.required_prefix config.denied_prefixes)
        <|> (fail_if
              (not (ltb_ℤ (pos 0) config.max_key_length) || ltb_ℤ (pos 253) config.max_key_length)
              (invalid_key_length config.max_key_length)
            <|> (fail_if
                  (not (ltb_ℤ (pos 0) config.max_value_length)
                    || ltb_ℤ (pos 1048576) config.max_value_length)
                  (invalid_value_length config.max_value_length)
                <|> fail_if
                    (not (
                      any (λ l. str_eq config.audit_level l)
                        (codes "debug" ∷ codes "info" ∷ codes "warn" ∷ codes "error" ∷ [])))
                    (invalid_audit_level config.audit_level))))
