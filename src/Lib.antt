-- ===== src/Lib.antt =====
-- Verification library of the dynamic annotation controller.
--
-- The program is a Kubernetes controller. A rule (an AnnotationScheduleRule) says when which
-- annotations are written to, or removed from, the resources that a label selector picks. The
-- controller gives each rule to a time scheduler; when a rule is due a worker calls the resource
-- manager, which reads the resources, runs the operations of the rule on their annotations under a
-- security policy and a template engine, and writes them back through the API, with retries. A
-- tracking annotation on each resource lists the keys that a rule has applied, so that the rule
-- removes its own keys only.
--
-- The files and the code they model, one definition per function, in the spelling of this language
-- (applyAnnotationOperation is apply_annotation_operation):
--   Base           strings as bytes, Go maps as association lists, integers, tests on numbers
--   Api            api/v1/annotationschedulerule_types.go: rules, schedules, groups, objects
--   Validator      internal/security/validator.go: the policy on keys and values
--   SecurityConfig internal/security/config.go: the configuration of that policy
--   Template       internal/templating/engine.go: variables in values
--   Tracking       internal/resource/manager.go: the tracking annotation
--   Operation      internal/resource/manager.go: one operation of a group, on a map of annotations
--   Client         the Kubernetes client, a parameter
--   Manager        internal/resource/manager.go: queries and writes to resources, retries, groups
--   RateLimiter    internal/resource/ratelimiter.go: rate limits, for all and for each namespace
--   Cache          internal/resource/cache.go: the cache of queries
--   Cleanup        internal/resource/cleanup.go: the removal of orphaned tracking annotations
--   Schedule       internal/scheduler/parser.go: validity, next execution, phase, action
--   Scheduler      internal/scheduler/scheduler.go: the table of tasks, the channel, the workers,
--                  the lock that the loop and Stop take, and the channels that they close
--   Errors         internal/errors/handler.go: error categories, retry loops and delays
--   RuleChecks     internal/controller/annotationschedulerule_controller.go: the validation of a rule
--   Status         the same file: conditions, phases and the record of an execution
--   Controller     the same file: the reconciler, the executor of tasks, and what is started
--   Recovery       internal/errors/recovery.go: what is done with the rules after a restart
--   Audit          internal/security/audit.go: the events of the audit log
--   Ticker         the loop of the routines named StartCleanupRoutine in internal/resource/
--   Entry          cmd/main.go: flags, options, the readiness check, the steps of the start, and the
--                  end of the process after a signal
--   Examples       concrete data, and the theorems applied to it
--
-- State. A function that changes a map, the scheduler, the cache or the cluster takes the state and
-- returns the new one. The API server is a record of functions on a state of the cluster of any
-- type: a theorem holds for every such server, also one that other writers change between two
-- calls. The goroutines of the scheduler are steps of a relation; what a lock protects is one step,
-- so the goroutines that share the cache are a list of calls of it.
-- Each reading of the clock is an argument, or a function of the world in the controller, where the
-- number of attempts decides how often it is read; a time is a number of nanoseconds. The
-- controller keeps the state of the world, the cache, the rate limiter, the scheduler and the
-- metrics in one record, and an operation under retries runs on that record and the variable it
-- assigns to. Counts, which are int32 or int64, are numbers without a bound. An error is a
-- constructor for each message, a panic of the source an error or an outcome of its own.
--
-- Parameters, since they are no part of the repository: floating-point numbers, the cron library,
-- the text of selectors and of namespaced names, strconv.Atoi, the token bucket of
-- golang.org/x/time/rate, the functions of controllerutil on finalizers, the library that takes the
-- lines of the audit log, the calls of controller-runtime in cmd/main.go, the formatting of times,
-- the tests of apimachinery on errors, and sort.Slice, of which no order of equal elements is
-- assumed.
--
-- Bounds. The retry loops of the manager run over the attempts that are left, three; those of the
-- error handler over the retries that are left. The cleanup takes batches of a hundred resources,
-- with the number of resources as fuel, which is enough since each batch takes at least one. Every
-- other loop is structural.
--
-- Not modelled: log lines, but for those of the audit log, and the texts made for them alone; the
-- length of the waits between two attempts, for which the loops take a function, as the delay of a
-- requeue is an argument there; deep copies, since an object is a value; and generated code.
pub mod Base
pub mod Validator
pub mod Ticker
pub mod Tracking
pub mod Template
pub mod Api
pub mod Operation
pub mod Client
pub mod Manager
pub mod Schedule
pub mod Scheduler
pub mod SecurityConfig
pub mod Cleanup
pub mod Cache
pub mod Status
pub mod RuleChecks
pub mod RateLimiter
pub mod Examples
pub mod Errors
pub mod Controller
pub mod Recovery
pub mod Audit
pub mod Entry
