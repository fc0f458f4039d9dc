-- ===== src/Examples/Startup.antt =====
-- Applications of the theorems on the start of the controller.
use dynamic_annotation_contr.Base.{refl, ◌≡◌, true, false, none, some, [], ◌∷◌, ◌++◌, any, codes}
use dynamic_annotation_contr.Client.{ok, err}
use dynamic_annotation_contr.Validator.{new_annotation_validator}
use dynamic_annotation_contr.Controller.Setup.{
  main_reconciler, setup_with_manager, started, runs_scheduler, recovers_state,
}
use dynamic_annotation_contr.Entry.{
  Flags, Runtime, TlsConfig, default_flags, manager_options, readiness_check,
}
use dynamic_annotation_contr.Entry.Main.{
  Running, prepare, load_validator, validate_startup_configuration, watch, add_if_any,
  create_health_checks,
}
use dynamic_annotation_contr.Entry.Startup.{configured, prepare_lem, policy_not_loaded}
use dynamic_annotation_contr.Examples.{Failure, conflicting}

-- a system in which every call succeeds but the reading of a ConfigMap
abbrev runtime : Runtime Unit Unit Failure
runtime = record {
  get_env = λ name. codes "10.0.0.1";
  has_config = λ w. true;
  join_path = λ path name. path ++ b'/' ∷ name;
  new_watcher = λ certificate key w. (some tt, w);
  new_manager = λ options w. (true, w);
  config_map = λ w name. err conflicting;
  atoi = λ text. none;
  complete = λ w. (true, w);
  add_watcher = λ watcher w. (true, w);
  add_healthz_check = λ w. (true, w);
  add_readyz_check = λ check w. (true, w);
  start = λ w. (true, w);
}

-- with a certificate for the webhooks
abbrev flags : Flags
flags = record default_flags { webhook_cert_path = codes "/certs" }

abbrev running : Running Unit
running = record {
  options = manager_options flags (some tt) none;
  reconciler = (setup_with_manager main_reconciler).0;
  routines = started main_reconciler;
  security_validator = load_validator runtime tt;
  manager_validator = new_annotation_validator;
}

abbrev config : TlsConfig Unit
config = record { next_protos = codes "h2" ∷ []; get_certificate = none }

prepared : prepare runtime flags tt ≡ (ok running, tt)
unfolding prepare validate_startup_configuration watch add_if_any create_health_checks default_flags
prepared = refl

prepare_lem_example :
    (any runs_scheduler running.routines ≡ false)
    × (any recovers_state running.routines ≡ false)
    × (readiness_check running.reconciler ≡ none)
    × (running.manager_validator ≡ new_annotation_validator)
    × ((configured running.options.webhook_tls_opts config).next_protos ≡ codes "http/1.1" ∷ [])
    × ((configured running.options.metrics.tls_opts config).next_protos ≡ codes "http/1.1" ∷ [])
unfolding default_flags
prepare_lem_example = prepare_lem runtime flags tt tt running config prepared

policy_not_loaded_example : load_validator runtime tt ≡ new_annotation_validator
policy_not_loaded_example =
    policy_not_loaded runtime flags tt tt running conflicting (λ before name. refl) prepared
