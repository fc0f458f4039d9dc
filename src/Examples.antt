-- ===== src/Examples.antt =====
-- Concrete data, on which the theorems are applied.
mod Operations
mod Writes
mod Keys
mod Schedules
mod Services
mod Rules
mod Control
mod Resources
mod Audits
mod Startup
mod Signals
mod Cycle
mod Delays
use dynamic_annotation_contr.Base.{
  ◌++◌, ℕ, zero, suc, ◌+◌, Bool, true, false, Option, none, some, List, [], ◌∷◌, Bytes, codes, pos,
  if◌then◌else◌, Assoc,
}
use dynamic_annotation_contr.Api.{
  Object, AnnotationOperation, AnnotationGroup, ScheduleConfig, LabelSelector, Rule,
}
use dynamic_annotation_contr.Client.{Client, Result, ok, err}
use dynamic_annotation_contr.Validator.{AnnotationValidator}
use dynamic_annotation_contr.Template.{TemplateContext}
use dynamic_annotation_contr.Operation.{Policies}
use dynamic_annotation_contr.Schedule.{Cron}
use dynamic_annotation_contr.Scheduler.{NamespacedName}
use dynamic_annotation_contr.Cache.{SelectorText}
use dynamic_annotation_contr.RateLimiter.{TokenBucket}
use dynamic_annotation_contr.Manager.Discovery.{QueryTimes}
use dynamic_annotation_contr.Manager.Annotations.{WriteTimes, Auditing}

-- A validator with one denied and one allowed prefix.
abbrev pub validator : AnnotationValidator
validator = record {
  allowed_prefixes = codes "a.b/" ∷ [];
  denied_prefixes = codes "k/" ∷ [];
  required_prefix = codes "a.b/m-";
  max_key_length = pos 253;
  max_value_length = pos 100;
}

abbrev policies : Policies
policies = record { validator = validator; builtin_vars = [] }

abbrev managed_key : Bytes
managed_key = codes "a.b/m-x"

abbrev pub rule_id : Bytes
rule_id = codes "ns/r"

abbrev context : TemplateContext
context = record {
  variables = (codes "v", codes "1") ∷ [];
  resource = none;
  rule_name = codes "r";
  rule_namespace = codes "ns";
  rule_id = rule_id;
  execution_time = record {
    timestamp = codes "t";
    date = codes "d";
    time = codes "c";
    unix = codes "0";
  };
  action = codes "apply";
}

abbrev pub operation : AnnotationOperation
operation = record {
  key = managed_key;
  value = codes "v1";
  template = false;
  action = codes "apply";
  priority = pos 1;
}

-- an operation that the policy rejects
abbrev bad_operation : AnnotationOperation
bad_operation = record {
  key = codes "k/x";
  value = codes "v1";
  template = false;
  action = codes "apply";
  priority = pos 1;
}

abbrev pod : Object
pod = record {
  kind = codes "Pod";
  name = codes "p";
  namespace = codes "ns";
  uid = codes "u";
  resource_version = codes "1";
  labels = [];
  annotations = some ((codes "other", codes "o") ∷ []);
}

-- The cluster: the object, and how many updates will still meet a conflict.
abbrev Cluster : Type 0
Cluster = Object × ℕ

pub data Failure : Type 0 where
  conflicting : Failure

abbrev update_cluster : Object → Cluster → Option Failure × Cluster
update_cluster o (stored, zero) = (none, (o, zero))
update_cluster o (stored, suc n) = (some conflicting, (stored, n))

abbrev api : Client Cluster Failure
api = record {
  update = update_cluster;
  get = λ o w. (ok w.0, w);
  list = λ t l n w. (ok (w.0 ∷ []), w);
  is_conflict = λ e. true;
}

-- an auditor whose log is no part of the cluster
abbrev auditing : Auditing Cluster Failure
auditing = record {
  sink = record { now = λ w. 50; write = λ e w. w };
  update_text = λ e. [];
  rejection_text = λ e. [];
}

-- a cron library that knows one expression, due a second after each instant
abbrev cron_library : Cron Unit
cron_library = record { parse = λ e. some tt; next = λ p t. t + 1000000000 }

abbrev window : ScheduleConfig
window = record {
  type = codes "datetime";
  start_time = some 100;
  end_time = some 200;
  cron_expression = [];
  action = [];
}

abbrev slash_name : NamespacedName
slash_name namespace name = namespace ++ b'/' ∷ name

-- a token bucket that lets everything pass
abbrev bucket : TokenBucket ℕ Unit Failure
bucket = record {
  new_limiter = λ rate burst. burst;
  allow = λ t l. (true, l);
  wait = λ ctx t l. (none, l);
}

abbrev texts : SelectorText
texts = record { canonical = λ s. some []; printed = λ s. [] }

abbrev query_times : QueryTimes
query_times = record { asked = 50; admitted = 50; looked_up = 50; stored = 50 }

abbrev write_times : WriteTimes
write_times = record { asked = 50; admitted = 50; query = query_times }

abbrev any_selector : LabelSelector
any_selector = record { match_labels = []; match_expressions = [] }

abbrev pub rule : Rule
rule = record {
  name = codes "r";
  namespace = codes "ns";
  finalizers = [];
  deletion_timestamp = none;
  spec = record {
    schedule = window;
    selector = any_selector;
    annotations = (managed_key, codes "v1") ∷ [];
    annotation_groups = [];
    target_resources = codes "pods" ∷ [];
    template_variables = [];
    conflict_resolution = [];
  };
  status = record {
    last_execution_time = none;
    next_execution_time = none;
    phase = [];
    conditions = [];
    affected_resources = 0;
    execution_count = 0;
    successful_executions = 0;
    failed_executions = 0;
    last_error = [];
    last_error_time = none;
  };
}

abbrev annotations : Assoc Bytes
annotations = (managed_key, codes "v1") ∷ []

abbrev pods : List Bytes
pods = codes "pods" ∷ []
