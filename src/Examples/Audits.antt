-- ===== src/Examples/Audits.antt =====
-- Applications of the theorems on the audit log.
use dynamic_annotation_contr.Base.{
  true, str_eq, refl, ℕ, ◌≡◌, Option, none, List, [], ◌∷◌, ◌++◌, codes,
}
use dynamic_annotation_contr.Api.{Object}
use dynamic_annotation_contr.Client.{Result, Result, Client, ok}
use dynamic_annotation_contr.Audit.{AuditEvent}
use dynamic_annotation_contr.Manager.Annotations.{Auditing, WriteError, report}
use dynamic_annotation_contr.RateLimiter.{operation_apply}
use dynamic_annotation_contr.Manager.Discovery.{
  Services, QueryError, collect_resources, get_matching_resources, get_resources_by_type, is_listed,
  look_up, store, wait_if_limited,
}
use dynamic_annotation_contr.Examples.Resources.{bare, annotations_accepted}
use dynamic_annotation_contr.Manager.Annotations.Writes.{applied, queried}
use dynamic_annotation_contr.Manager.Annotations.Audits.{LogView, Grown, apply_annotations_audited}
use dynamic_annotation_contr.Examples.{
  annotations, pods, Cluster, Failure, update_cluster, pod, validator, any_selector, rule_id,
  write_times, bucket, texts,
}

-- a cluster with the log beside it
abbrev Logged : Type 0
Logged = Cluster × List AuditEvent

abbrev logged_api : Client Logged Failure
logged_api = record {
  update = λ o w. let (failure, w') = update_cluster o w.0 in (failure, (w', w.1));
  get = λ o w. (ok w.0.0, w);
  list = λ t l n w. (ok (w.0.0 ∷ []), w);
  is_conflict = λ e. true;
}

abbrev logging : Auditing Logged Failure
logging = record {
  sink = record { now = λ w. 50; write = λ e w. (w.0, w.1 ++ e ∷ []) };
  update_text = λ e. codes "conflict";
  rejection_text = λ e. [];
}

abbrev log : LogView logged_api logging.sink
log = record { events = λ w. w.1; written = λ e w. refl; updated = λ o w. refl; got = λ o w. refl }

-- each update of the object will meet a conflict
abbrev contended : Logged
contended = ((pod, 9), [])

abbrev asked : Result (QueryError Failure) (List Object) × Services ℕ × Logged
asked =
    queried logged_api texts bucket tt logging validator any_selector annotations pods (codes "ns")
      rule_id write_times bare contended

abbrev written : Option (WriteError Failure) × Services ℕ × Logged
written =
    applied logged_api texts bucket tt logging validator any_selector annotations pods (codes "ns")
      rule_id write_times bare contended

asked_found : asked.0 ≡ ok (pod ∷ [])
unfolding get_matching_resources wait_if_limited look_up store collect_resources
    get_resources_by_type is_listed str_eq
asked_found = refl

not_limited :
    (wait_if_limited bucket tt operation_apply
      (codes "ns")
      write_times.asked
      write_times.admitted
      bare).0
    ≡ none
unfolding wait_if_limited
not_limited = refl

apply_annotations_audited_example :
    (failed : ℕ) × (written.0 ≡ report failed 1)
    × Grown logged_api logging log (pod ∷ []) failed asked.2 written.2
apply_annotations_audited_example =
    apply_annotations_audited logged_api logging log annotations (codes "ns") rule_id texts bucket
      tt validator any_selector pods write_times bare contended pod [] refl not_limited
      annotations_accepted asked_found
