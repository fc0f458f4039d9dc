-- ===== src/Entry/Startup.antt =====
-- What stands when the manager is started.
use dynamic_annotation_contr.Base.{
  Bytes, ◌≡◌, false, Option, none, some, List, [], ◌∷◌, any, arith, codes, if◌then◌else◌,
}
use dynamic_annotation_contr.Client.{err, ok}
use dynamic_annotation_contr.Validator.{new_annotation_validator}
use dynamic_annotation_contr.SecurityConfig.Loading.{create_validator-unread}
use dynamic_annotation_contr.Controller.Setup.{
  main_reconciler, setup_with_manager, start_performance_optimizations, started, runs_scheduler,
  recovers_state,
}
use dynamic_annotation_contr.Entry.{
  Flags, Runtime, TlsConfig, disable_http2, with_watcher, tls_opts, server_tls_opts,
  metrics_options, manager_options, readiness_check,
}
use dynamic_annotation_contr.Entry.Main.{load_validator, Running, prepare, watch}

-- the options of a server, one after the other
abbrev pub configured : {V : Type 0} → List (TlsConfig V → TlsConfig V) → TlsConfig V → TlsConfig V
configured [] c = c
configured (opt ∷ opts) c = configured opts (opt c)

-- A server speaks HTTP/1.1 alone unless HTTP/2 is enabled, and has the certificates of its watcher
-- if there is one; the rest of its configuration is as it was.
server_tls_opts_lem :
    {V : Type 0} (flags : Flags) (watcher : Option V) (c : TlsConfig V)
    → configured (server_tls_opts flags watcher) c ≡ record {
      next_protos = if flags.enable_http2 then c.next_protos else codes "http/1.1" ∷ [];
      get_certificate = elim watcher [ none ↦ c.get_certificate | some v ↦ some v ];
    }
unfolding server_tls_opts tls_opts disable_http2 with_watcher
server_tls_opts_lem flags none c = ground arith
server_tls_opts_lem flags (some v) c = ground arith

module _ {W V E : Type 0} (runtime : Runtime W V E) where
  -- When the manager is started, no goroutine runs the scheduler and none recovers the state, yet
  -- the readiness check succeeds. The servers speak HTTP/1.1 alone unless HTTP/2 is enabled; the
  -- resource manager has the default policy, whatever the configured one is.
  pub prepare_lem :
      (flags : Flags) (w w' : W) (running : Running V) (c : TlsConfig V)
      → prepare runtime flags w ≡ (ok running, w')
      → (any runs_scheduler running.routines ≡ false)
        × (any recovers_state running.routines ≡ false)
        × (readiness_check running.reconciler ≡ none)
        × (running.manager_validator ≡ new_annotation_validator)
        × ((configured running.options.webhook_tls_opts c).next_protos
            ≡ (if flags.enable_http2 then c.next_protos else codes "http/1.1" ∷ []))
        × ((configured running.options.metrics.tls_opts c).next_protos
            ≡ (if flags.enable_http2 then c.next_protos else codes "http/1.1" ∷ []))
  unfolding prepare watch manager_options metrics_options main_reconciler setup_with_manager started
      start_performance_optimizations readiness_check any
  prepare_lem flags w w' running c h =
      grind (arith, λ (v : Option V). server_tls_opts_lem flags v c)

  -- If no ConfigMap can be read before the manager is started, as with a client whose cache is
  -- filled by the manager, then the policy of the reconciler is the default one too.
  pub policy_not_loaded :
      (flags : Flags) (w w' : W) (running : Running V) (unread : E)
      → ((before : W) (name : Bytes) → runtime.config_map before name ≡ err unread)
      → prepare runtime flags w ≡ (ok running, w')
      → running.security_validator ≡ new_annotation_validator
  unfolding prepare load_validator
  policy_not_loaded flags w w' running unread reads h = grind (
    arith,
    λ (before : W).
        create_validator-unread runtime.atoi (runtime.config_map before) unread (reads before _),
  )
