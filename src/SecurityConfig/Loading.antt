-- ===== src/SecurityConfig/Loading.antt =====
-- What comes of a configuration that cannot be read.
use dynamic_annotation_contr.Base.{Bytes, Option, Assoc, ℤ, codes, ◌≡◌, arith}
use dynamic_annotation_contr.Client.{Result, err}
use dynamic_annotation_contr.SecurityConfig.{
  security_config_missing, load_security_config, create_validator_from_config,
}

-- Without the ConfigMap of the policy there is no validator.
pub create_validator-unread :
    {E : Type 0} (atoi : Bytes → Option ℤ) (get : Bytes → Result E (Assoc Bytes)) (e : E)
    → get (codes "annotation-scheduler-security-config") ≡ err e
    → create_validator_from_config atoi get ≡ err (security_config_missing e)
unfolding create_validator_from_config load_security_config
create_validator-unread atoi get e h = ground arith
