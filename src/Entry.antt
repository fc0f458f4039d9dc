-- ===== src/Entry.antt =====
-- cmd/main.go: the flags, the options of the servers and of the manager, the checks of the probes,
-- and the start of the controller. The calls of controller-runtime are a record of functions on a
-- state of the world; a step that fails ends the process, which is an `Exit` here.
pub mod Main
pub mod Startup
pub mod Signals
use dynamic_annotation_contr.Base.{
  ℕ, Bool, true, false, Option, none, some, List, [], ◌∷◌, ◌++◌, ◌&&◌, if◌then◌else◌, not, is_empty,
  Bytes, codes, Assoc, ℤ,
}
use dynamic_annotation_contr.Client.{Result, ok, err}
use dynamic_annotation_contr.Validator.{AnnotationValidator, new_annotation_validator}
use dynamic_annotation_contr.SecurityConfig.{create_validator_from_config}
use dynamic_annotation_contr.Controller.Setup.{
  Reconciler, Routine, main_reconciler, setup_with_manager, start_performance_optimizations,
}

pub record Flags : Type 0 where
  pub metrics_addr : Bytes
  pub probe_addr : Bytes
  pub enable_leader_election : Bool
  pub leader_election_namespace : Bytes
  pub secure_metrics : Bool
  pub webhook_cert_path : Bytes
  pub webhook_cert_name : Bytes
  pub webhook_cert_key : Bytes
  pub metrics_cert_path : Bytes
  pub metrics_cert_name : Bytes
  pub metrics_cert_key : Bytes
  pub enable_http2 : Bool

-- the defaults of the flags
unfoldable pub default_flags : Flags
default_flags = record {
  metrics_addr = codes "0";
  probe_addr = codes ":8081";
  enable_leader_election = false;
  leader_election_namespace = [];
  secure_metrics = true;
  webhook_cert_path = [];
  webhook_cert_name = codes "tls.crt";
  webhook_cert_key = codes "tls.key";
  metrics_cert_path = [];
  metrics_cert_name = codes "tls.crt";
  metrics_cert_key = codes "tls.key";
  enable_http2 = false;
}

-- What the options change of a tls.Config; `V` is the type of the certificate watchers.
pub record TlsConfig (V : Type 0) : Type 0 where
  pub next_protos : List Bytes
  pub get_certificate : Option V

disable_http2 : {V : Type 0} → TlsConfig V → TlsConfig V
disable_http2 c = record c { next_protos = codes "http/1.1" ∷ [] }

with_watcher : {V : Type 0} → V → TlsConfig V → TlsConfig V
with_watcher watcher c = record c { get_certificate = some watcher }

pub tls_opts : {V : Type 0} → Flags → List (TlsConfig V → TlsConfig V)
tls_opts flags = if not flags.enable_http2 then disable_http2 ∷ [] else []

-- the options of a server, with its watcher if it has one
server_tls_opts : {V : Type 0} → Flags → Option V → List (TlsConfig V → TlsConfig V)
server_tls_opts flags none = tls_opts flags
server_tls_opts flags (some watcher) = tls_opts flags ++ with_watcher watcher ∷ []

pub record MetricsOptions (V : Type 0) : Type 0 where
  pub bind_address : Bytes
  pub secure_serving : Bool
  pub tls_opts : List (TlsConfig V → TlsConfig V)
  pub has_filter : Bool

pub record ManagerOptions (V : Type 0) : Type 0 where
  pub metrics : MetricsOptions V
  pub webhook_tls_opts : List (TlsConfig V → TlsConfig V)
  pub health_probe_bind_address : Bytes
  pub leader_election : Bool
  pub leader_election_id : Bytes
  pub release_on_cancel : Bool
  pub lease_seconds : ℕ
  pub renew_seconds : ℕ
  pub retry_seconds : ℕ
  pub leader_election_namespace : Bytes

metrics_options : {V : Type 0} → Flags → Option V → MetricsOptions V
metrics_options flags watcher = record {
  bind_address = flags.metrics_addr;
  secure_serving = flags.secure_metrics;
  tls_opts = server_tls_opts flags watcher;
  has_filter = flags.secure_metrics;
}

pub manager_options : {V : Type 0} → Flags → Option V → Option V → ManagerOptions V
manager_options flags webhook metrics = record {
  metrics = metrics_options flags metrics;
  webhook_tls_opts = server_tls_opts flags webhook;
  health_probe_bind_address = flags.probe_addr;
  leader_election = flags.enable_leader_election;
  leader_election_id = codes "033b21d5.sandbox.davcgar.aws";
  release_on_cancel = true;
  lease_seconds = 15;
  renew_seconds = 10;
  retry_seconds = 2;
  leader_election_namespace = flags.leader_election_namespace;
}

-- the errors of the readiness check, of which the first is that no scheduler is there
pub data NotReady : Type 0 where
  no_scheduler no_resource_manager no_security_validator : NotReady

pub readiness_check : Reconciler → Option NotReady
readiness_check r =
    if not r.has_scheduler
    then some no_scheduler
    else if not r.has_resource_manager
    then some no_resource_manager
    else if not r.has_security_validator
    then some no_security_validator
    else none

-- How the process ends.
pub data Exit : Type 0 where
  no_configuration no_kubeconfig : Exit
  webhook_watcher_failed metrics_watcher_failed manager_failed controller_failed : Exit
  metrics_watcher_not_added webhook_watcher_not_added health_checks_failed : Exit
  manager_stopped_with_error stopped : Exit

-- The calls of controller-runtime and of the system; each tells whether it succeeded. A watcher is
-- made of the paths of the certificate and of its key.
pub record Runtime (W V E : Type 0) : Type 0 where
  pub get_env : Bytes → Bytes
  pub has_config : W → Bool
  pub join_path : Bytes → Bytes → Bytes
  pub new_watcher : Bytes → Bytes → W → Option V × W
  pub new_manager : ManagerOptions V → W → Bool × W
  pub config_map : W → Bytes → Result E (Assoc Bytes)
  pub atoi : Bytes → Option ℤ
  pub complete : W → Bool × W
  pub add_watcher : V → W → Bool × W
  pub add_healthz_check : W → Bool × W
  pub add_readyz_check : (Reconciler → Option NotReady) → W → Bool × W
  pub start : W → Bool × W
