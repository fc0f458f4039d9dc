-- ===== src/Examples/Keys.antt =====
-- Applications of the theorems on the security policy and its configuration.
use dynamic_annotation_contr.Base.{◌≡◌, ◌↔◌, refl, none, codes, any, has_prefix}
use dynamic_annotation_contr.Validator.{
  check_allowed, split_key, validate_dns_label, validate_dns_subdomain, validate_prefix,
  validate_annotation_key, validate_annotation_value, check_denied,
}
use dynamic_annotation_contr.Validator.Policy.{IsPermitted, validate_annotation_key-IsPermitted}
use dynamic_annotation_contr.Validator.Values.{IsPermittedValue, validate_annotation_value_iff}
use dynamic_annotation_contr.Examples.{validator, managed_key}

key_accepted : validate_annotation_key validator managed_key ≡ none
unfolding validate_annotation_key check_denied has_prefix check_allowed any validate_dns_subdomain
    validate_prefix split_key validate_dns_label
key_accepted = refl

validate_annotation_key-IsPermitted_example : IsPermitted validator managed_key
validate_annotation_key-IsPermitted_example =
    validate_annotation_key-IsPermitted validator managed_key key_accepted

validate_annotation_value_iff_example :
    (validate_annotation_value validator (codes "v1") ≡ none)
    ↔ IsPermittedValue validator (codes "v1")
validate_annotation_value_iff_example = validate_annotation_value_iff validator (codes "v1")
