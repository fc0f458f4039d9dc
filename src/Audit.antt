-- ===== src/Audit.antt =====
-- internal/security/audit.go: the audit log, and the Kubernetes events for violations. The library
-- that takes the lines of the log, and the numbers that `fmt` prints, are parameters.
use dynamic_annotation_contr.Base.{
  ℕ, Bool, true, false, Option, none, some, List, [], ◌∷◌, ◌++◌, if◌then◌else◌, is_empty, Bytes,
  codes, ◌/◌, ◌^◌, Assoc, insert,
}
use dynamic_annotation_contr.Api.{Time, Object}

pub record ResourceInfo : Type 0 where
  pub kind : Bytes
  pub name : Bytes
  pub namespace : Bytes
  pub uid : Bytes

pub record AuditEvent : Type 0 where
  pub timestamp : Time
  pub action : Bytes
  pub rule_id : Bytes
  pub rule_name : Bytes
  pub rule_namespace : Bytes
  pub resource : ResourceInfo
  pub annotations : Assoc Bytes
  pub success : Bool
  pub error : Bytes
  pub user : Bytes

-- corev1.Event, the fields that the code sets to what differs between events
pub record KubernetesEvent : Type 0 where
  pub name : Bytes
  pub namespace : Bytes
  pub involved : ResourceInfo
  pub message : Bytes
  pub timestamp : Time

abbrev no_resource : ResourceInfo
no_resource = record { kind = []; name = []; namespace = []; uid = [] }

unfoldable pub get_resource_info : Object → ResourceInfo
get_resource_info resource = record {
  kind = resource.kind;
  name = resource.name;
  namespace = resource.namespace;
  uid = resource.uid;
}

-- The text of an error, or the empty one for nil.
abbrev error_text : Option Bytes → Bytes
error_text none = []
error_text (some text) = text

-- The arguments of the methods that say which rule it is.
pub record RuleInfo : Type 0 where
  pub rule_id : Bytes
  pub rule_name : Bytes
  pub rule_namespace : Bytes

-- The event that a method makes; none of them sets the user.
unfoldable pub event_of :
    Bytes → RuleInfo → ResourceInfo → Assoc Bytes → Bool → Option Bytes → Time → AuditEvent
event_of action rule resource annotations success error now = record {
  timestamp = now;
  action = action;
  rule_id = rule.rule_id;
  rule_name = rule.rule_name;
  rule_namespace = rule.rule_namespace;
  resource = resource;
  annotations = annotations;
  success = success;
  error = error_text error;
  user = [];
}

-- The log: `now` is what a reading of the clock in a state of the world gives, `write` what the
-- lines that logEvent writes for an event make of it.
pub record AuditSink (W : Type 0) : Type 0 where
  pub now : W → Time
  pub write : AuditEvent → W → W

-- The keys as a map, each with the same text.
unfoldable pub removed_keys : List Bytes → Assoc Bytes → Assoc Bytes
removed_keys [] m = m
removed_keys (key ∷ keys) m = removed_keys keys (insert key (codes "<removed>") m)

module _ {W : Type 0} (sink : AuditSink W) where
  unfoldable pub log_event : AuditEvent → W → W
  log_event event w = sink.write event w

  unfoldable pub log_annotation_apply :
      RuleInfo → Object → Assoc Bytes → Bool → Option Bytes → W → W
  log_annotation_apply rule resource annotations success error w =
      log_event
        (event_of (codes "apply") rule (get_resource_info resource) annotations success error
          (sink.now w))
        w

  unfoldable pub log_annotation_remove :
      RuleInfo → Object → List Bytes → Bool → Option Bytes → W → W
  log_annotation_remove rule resource keys success error w =
      log_event
        (event_of (codes "remove") rule (get_resource_info resource) (removed_keys keys []) success
          error (sink.now w))
        w

  unfoldable pub log_validation_failure : RuleInfo → Assoc Bytes → Bytes → W → W
  log_validation_failure rule annotations error w =
      log_event
        (event_of (codes "validate") rule no_resource annotations false (some error) (sink.now w)) w

  unfoldable pub log_rule_creation : RuleInfo → Assoc Bytes → W → W
  log_rule_creation rule annotations w =
      log_event
        (event_of (codes "rule_created") rule no_resource annotations true none (sink.now w)) w

  unfoldable pub log_rule_deletion : RuleInfo → Assoc Bytes → W → W
  log_rule_deletion rule annotations w =
      log_event
        (event_of (codes "rule_deleted") rule no_resource annotations true none (sink.now w)) w

-- GetAuditSummary, which answers zeros for now
unfoldable get_audit_summary : Assoc ℕ
get_audit_summary =
    (codes "total_operations", 0)
    ∷ (codes "successful_applies", 0)
    ∷ (codes "successful_removes", 0)
    ∷ (codes "failed_operations", 0)
    ∷ (codes "security_violations", 0)
    ∷ (codes "validation_failures", 0)
    ∷ []

-- `decimal` is what "%d" prints; `create` creates an event in the cluster.
module _ {W E : Type 0} (sink : AuditSink W) (decimal : ℕ → Bytes)
    (create : KubernetesEvent → W → Option E × W) where
  -- the event that is created at `now`; the name has the second of it
  unfoldable kubernetes_event : AuditEvent → Time → KubernetesEvent
  kubernetes_event event now = record {
    name = codes "security-violation-" ++ decimal (now / 10 ^ 9);
    namespace = if is_empty event.rule_namespace then codes "default" else event.rule_namespace;
    involved = event.resource;
    message =
        codes "Security policy violation in annotation rule "
        ++ event.rule_name
        ++ codes ": "
        ++ event.error;
    timestamp = event.timestamp;
  }

  -- an error is logged, and is the result here
  unfoldable create_security_event : AuditEvent → W → Option E × W
  create_security_event event w = create (kubernetes_event event (sink.now w)) w

  unfoldable log_security_violation : RuleInfo → Object → Bytes → Assoc Bytes → W → Option E × W
  log_security_violation rule resource violation annotations w =
      let event =
        event_of (codes "security_violation") rule (get_resource_info resource) annotations false
          (some violation) (sink.now w) in
      create_security_event event (log_event sink event w)
