-- ===== src/Entry/Main.antt =====
-- The function `main` of cmd/main.go, as a chain of steps of which each may end the process. What is
-- left when the manager is started is a record.
use dynamic_annotation_contr.Base.{
  if◌then◌else◌, Bool, Option, none, some, List, is_empty, ◌&&◌, not, Bytes, codes,
}
use dynamic_annotation_contr.Client.{Result, ok, err}
use dynamic_annotation_contr.Validator.{AnnotationValidator, new_annotation_validator}
use dynamic_annotation_contr.SecurityConfig.{create_validator_from_config}
use dynamic_annotation_contr.Controller.Setup.{
  Reconciler, Routine, main_reconciler, setup_with_manager, started,
}
use dynamic_annotation_contr.Entry.{
  Flags, Runtime, ManagerOptions, manager_options, readiness_check, Exit, no_configuration,
  no_kubeconfig, webhook_watcher_failed, metrics_watcher_failed, manager_failed, controller_failed,
  metrics_watcher_not_added, webhook_watcher_not_added, health_checks_failed,
  manager_stopped_with_error,
}

abbrev Program : Type 0 → Type 0 → Type 0
Program W A = W → Result Exit A × W

module _ {W A B : Type 0} where
  infixl 5 ◌>>=◌ ◌>>◌
  abbrev pub ◌>>=◌ : Program W A → (A → Program W B) → Program W B
  ◌>>=◌ m f w = let (result, w') = m w in elim result [ ok a ↦ f a w' | err e ↦ (err e, w') ]

  abbrev pub ◌>>◌ : Program W A → Program W B → Program W B
  m >> n = m >>= λ _. n

abbrev pure : {W A : Type 0} → A → Program W A
pure a w = (ok a, w)

-- A test that ends the process if it fails.
abbrev require : {W : Type 0} → (W → Bool) → Exit → Program W (Unit {0})
require test exit w = (if test w then ok tt else err exit, w)

-- A call that ends the process if it fails.
abbrev pub call : {W : Type 0} → (W → Bool × W) → Exit → Program W (Unit {0})
call operation exit w = let (success, w') = operation w in (if success then ok tt else err exit, w')

-- What stands when the manager is started: its options, the reconciler, the goroutines, the
-- validator of the reconciler and that of the resource manager.
pub record Running (V : Type 0) : Type 0 where
  pub options : ManagerOptions V
  pub reconciler : Reconciler
  pub routines : List Routine
  pub security_validator : AnnotationValidator
  pub manager_validator : AnnotationValidator

module _ {W V E : Type 0} (runtime : Runtime W V E) where
  unfoldable pub validate_startup_configuration : Program W (Unit {0})
  validate_startup_configuration = do
    require
        (λ w. not (
          is_empty (runtime.get_env (codes "KUBERNETES_SERVICE_HOST"))
          && is_empty (runtime.get_env (codes "KUBECONFIG"))))
        no_configuration
    require runtime.has_config no_kubeconfig

  -- a watcher if there is a path
  unfoldable pub watch : Bytes → Bytes → Bytes → Exit → Program W (Option V)
  watch path name key exit w =
      let (watcher, w') =
        runtime.new_watcher (runtime.join_path path name) (runtime.join_path path key) w in
      if is_empty path
      then (ok none, w)
      else elim watcher [ none ↦ (err exit, w') | some v ↦ (ok (some v), w') ]

  unfoldable pub add_if_any : Option V → Exit → Program W (Unit {0})
  add_if_any none exit = pure tt
  add_if_any (some watcher) exit = call (runtime.add_watcher watcher) exit

  -- the configured validator, or the default one if the configuration cannot be loaded
  unfoldable pub load_validator : W → AnnotationValidator
  load_validator w = elim (create_validator_from_config runtime.atoi (runtime.config_map w)) [
    | ok validator ↦ validator
    | err e ↦ new_annotation_validator
  ]

  unfoldable pub create_health_checks : Program W (Unit {0})
  create_health_checks = do
    call runtime.add_healthz_check health_checks_failed
    call (runtime.add_readyz_check readiness_check) health_checks_failed

  -- everything before the manager is started
  unfoldable pub prepare : Flags → Program W (Running V)
  prepare flags = do
    validate_startup_configuration
    webhook ←
        watch flags.webhook_cert_path flags.webhook_cert_name flags.webhook_cert_key
          webhook_watcher_failed
    metrics ←
        watch flags.metrics_cert_path flags.metrics_cert_name flags.metrics_cert_key
          metrics_watcher_failed
    require runtime.has_config no_kubeconfig
    call (runtime.new_manager (manager_options flags webhook metrics)) manager_failed
    validator ← (λ w. (ok (load_validator w), w))
    call runtime.complete controller_failed
    add_if_any metrics metrics_watcher_not_added
    add_if_any webhook webhook_watcher_not_added
    create_health_checks
    pure (record {
      options = manager_options flags webhook metrics;
      reconciler = (setup_with_manager main_reconciler).0;
      routines = started main_reconciler;
      security_validator = validator;
      manager_validator = new_annotation_validator;
    })

  unfoldable main : Flags → Program W (Running V)
  main flags = do
    running ← prepare flags
    call runtime.start manager_stopped_with_error
    pure running
