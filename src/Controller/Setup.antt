-- ===== src/Controller/Setup.antt =====
-- SetupWithManager and StartPerformanceOptimizations of
-- internal/controller/annotationschedulerule_controller.go: what the reconciler is given and what is
-- started, as a list of the goroutines.
use dynamic_annotation_contr.Base.{Bool, true, false, not, List, [], ◌∷◌, ◌++◌, if◌then◌else◌}

-- the goroutines that the two functions start
pub data Routine : Type 0 where
  run_scheduler log_metrics recover_state clean_cache clean_rate_limiters clean_orphans : Routine

-- Which of the reconciler's pointers are not nil.
pub record Reconciler : Type 0 where
  pub has_error_handler : Bool
  pub has_recovery_manager : Bool
  pub has_resource_manager : Bool
  pub has_metrics : Bool
  pub has_scheduler : Bool
  pub has_security_validator : Bool

unfoldable pub setup_with_manager : Reconciler → Reconciler × List Routine
setup_with_manager r = (
  record {
    has_error_handler = true;
    has_recovery_manager = true;
    has_resource_manager = true;
    has_metrics = true;
    has_scheduler = true;
    has_security_validator = r.has_security_validator;
  },
  if not r.has_scheduler then run_scheduler ∷ log_metrics ∷ recover_state ∷ [] else [],
)

-- NewResourceManager makes a cache and a rate limiter.
unfoldable pub start_performance_optimizations : Reconciler → List Routine
start_performance_optimizations r =
    (if r.has_resource_manager then clean_cache ∷ clean_rate_limiters ∷ [] else [])
    ++ clean_orphans ∷ []

-- the reconciler of cmd/main.go, which makes each part itself
unfoldable pub main_reconciler : Reconciler
main_reconciler = record {
  has_error_handler = true;
  has_recovery_manager = true;
  has_resource_manager = true;
  has_metrics = true;
  has_scheduler = true;
  has_security_validator = true;
}

-- the routines that cmd/main.go starts for a reconciler
unfoldable pub started : Reconciler → List Routine
started given =
    let (r, routines) = setup_with_manager given in routines ++ start_performance_optimizations r

abbrev pub runs_scheduler : Routine → Bool
runs_scheduler run_scheduler = true
runs_scheduler routine = false

abbrev pub recovers_state : Routine → Bool
recovers_state recover_state = true
recovers_state routine = false
