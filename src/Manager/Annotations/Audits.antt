-- ===== src/Manager/Annotations/Audits.antt =====
-- What an apply leaves in the audit log.
use dynamic_annotation_contr.Base.{
  length, is_empty, subst, refl, zero, suc, codes, append_assoc, inr, inl, Option-cases, append-nil,
  sym, suc, Bytes, Assoc, if◌then◌else◌, ℕ, ◌+◌, ◌≡◌, Bool, true, false, Option, none, some, List,
  [], ◌∷◌, ◌++◌, arith,
}
use dynamic_annotation_contr.Api.{Object}
use dynamic_annotation_contr.Client.{Result, ok, Client}
use dynamic_annotation_contr.Audit.{
  AuditSink, AuditEvent, ResourceInfo, get_resource_info, log_event, event_of, log_annotation_apply,
}
use dynamic_annotation_contr.Validator.{AnnotationValidator, validate_annotations}
use dynamic_annotation_contr.Api.{LabelSelector}
use dynamic_annotation_contr.Cache.{SelectorText}
use dynamic_annotation_contr.RateLimiter.{TokenBucket, operation_apply}
use dynamic_annotation_contr.Manager.Discovery.{Services, QueryError, wait_if_limited}
use dynamic_annotation_contr.Manager.Retry.{UpdateError, max_retries}
use dynamic_annotation_contr.Manager.Legacy.{
  keys_of, with_merged, apply_attempts, apply_annotations_to_resource,
}
use dynamic_annotation_contr.Manager.Annotations.Writes.{applied, queried}
use dynamic_annotation_contr.Manager.Annotations.{
  WriteTimes, WriteError, apply_annotations, report, Auditing, rule_info, apply_to_all,
}

-- The events that are in the log in a state of the world: a write of the log appends, and no
-- update and no fetch of an object touches it.
pub record LogView {W E : Type 0} (client : Client W E) (sink : AuditSink W) : Type 0 where
  pub events : W → List AuditEvent
  pub written : (e : AuditEvent) (w : W) → events (sink.write e w) ≡ events w ++ e ∷ []
  pub updated : (o : Object) (w : W) → events (client.update o w).1 ≡ events w
  pub got : (o : Object) (w : W) → events (client.get o w).1 ≡ events w

-- The resources that events are about, in order.
abbrev subjects : List AuditEvent → List ResourceInfo
subjects [] = []
subjects (e ∷ es) = e.resource ∷ subjects es

abbrev infos : List Object → List ResourceInfo
infos [] = []
infos (o ∷ os) = get_resource_info o ∷ infos os

-- how many events tell of a failure
abbrev failed_events : List AuditEvent → ℕ
failed_events [] = 0
failed_events (e ∷ es) = if e.success then failed_events es else failed_events es + 1

module _ {W E : Type 0} (client : Client W E) (auditing : Auditing W E)
    (view : LogView client auditing.sink) where
  -- The log has grown by one event for each of the resources, in order, and this many of them
  -- tell of a failure.
  abbrev pub Grown : List Object → ℕ → W → W → Type 0
  Grown resources failed w w' =
      (new : List AuditEvent) × (view.events w' ≡ view.events w ++ new)
      × (subjects new ≡ infos resources)
      × (failed_events new ≡ failed)

  apply_attempts-events :
      (left : ℕ) (copy resource : Object) (annotations : Assoc Bytes) (rule_id : Bytes) (w : W)
      → view.events (apply_attempts client left copy resource annotations rule_id w).1
        ≡ view.events w
  unfolding apply_attempts
  apply_attempts-events zero copy resource annotations rule_id w = refl
  apply_attempts-events (suc left) copy resource annotations rule_id w = grind (
    arith,
    view.updated copy w,
    view.got resource (client.update copy w).1,
    λ (fresh : Object) (w' : W).
        apply_attempts-events left (with_merged annotations rule_id fresh) resource annotations
          rule_id w',
  )

  apply_to_resource-events :
      (resource : Object) (annotations : Assoc Bytes) (rule_id : Bytes) (w : W)
      → view.events (apply_annotations_to_resource client resource annotations rule_id w).1
        ≡ view.events w
  unfolding apply_annotations_to_resource
  apply_to_resource-events resource annotations rule_id w =
      apply_attempts-events max_retries (with_merged annotations rule_id resource) resource
        annotations rule_id w

  -- One event, and then the growth for the other resources.
  Grown-cons :
      (r : Object) (rs : List Object) (e : AuditEvent) (failed : ℕ) (w w₁ w' : W)
      → view.events w₁ ≡ view.events w ++ e ∷ []
      → e.resource ≡ get_resource_info r
      → Grown rs failed w₁ w'
      → Grown (r ∷ rs) (if e.success then failed else failed + 1) w w'
  Grown-cons r rs e failed w w₁ w' h hr (new, grown, about, count) =
      (e ∷ new, rw (grown, h, append_assoc (view.events w)), rw (hr, about), rw count)

  module _ (annotations : Assoc Bytes) (namespace rule_id : Bytes) where
    -- what the log gets once a resource was tried
    logged-events :
        (r : Object) (success : Bool) (error : Option Bytes) (w : W)
        → let w₁ = (apply_annotations_to_resource client r annotations rule_id w).1 in
          view.events (
            log_annotation_apply auditing.sink
              (rule_info namespace rule_id)
              r
              annotations
              success
              error
              w₁)
          ≡ view.events w
            ++ event_of
                (codes "apply")
                (rule_info namespace rule_id)
                (get_resource_info r)
                annotations
                success
                error
                (auditing.sink.now w₁)
              ∷ []
    unfolding log_annotation_apply log_event
    logged-events r success error w =
        rw (view.written, apply_to_resource-events r annotations rule_id w) refl

    -- the world once the auditor has been told of a resource
    abbrev told : Object → Bool → Option Bytes → W → W
    told r success error w =
        log_annotation_apply auditing.sink (rule_info namespace rule_id) r annotations success error
          (apply_annotations_to_resource client r annotations rule_id w).1

    apply_to_all-success :
        (r : Object) (rs : List Object) (w : W)
        → (apply_annotations_to_resource client r annotations rule_id w).0 ≡ none
        → apply_to_all client auditing (r ∷ rs) annotations namespace rule_id w
          ≡ apply_to_all client auditing rs annotations namespace rule_id (told r true none w)
    unfolding apply_to_all
    apply_to_all-success r rs w h = ground arith

    apply_to_all-failure :
        (r : Object) (rs : List Object) (w : W) (x : UpdateError E)
        → (apply_annotations_to_resource client r annotations rule_id w).0 ≡ some x
        → apply_to_all client auditing (r ∷ rs) annotations namespace rule_id w ≡ (
            let (failed, w') =
              apply_to_all client auditing rs annotations namespace rule_id
                (told r false (some (auditing.update_text x)) w) in
            (failed + 1, w'))
    unfolding apply_to_all
    apply_to_all-failure r rs w x h = ground arith

    apply_to_all-Grown :
        (resources : List Object) (w : W)
        → let (failed, w') =
            apply_to_all client auditing resources annotations namespace rule_id w in
          Grown resources failed w w'
    unfolding apply_to_all event_of
    apply_to_all-Grown [] w = ([], sym (append-nil (view.events w)), refl, refl)
    apply_to_all-Grown (r ∷ rs) w =
        elim (Option-cases (apply_annotations_to_resource client r annotations rule_id w).0) [
          | inl e ↦
              subst (λ (p : ℕ × W). Grown (r ∷ rs) p.0 w p.1) (sym (apply_to_all-success r rs w e))
                (Grown-cons r rs _ _ w _ _ (logged-events r true none w) refl
                  (apply_to_all-Grown rs (told r true none w)))
          | inr (x, e) ↦
              subst (λ (p : ℕ × W). Grown (r ∷ rs) p.0 w p.1)
                (sym (apply_to_all-failure r rs w x e))
                (Grown-cons r rs _ _ w _ _ (logged-events r false (some (auditing.update_text x)) w)
                  refl (apply_to_all-Grown rs (told r false (some (auditing.update_text x)) w)))
        ]

    module _ (texts : SelectorText) {L C F : Type 0} (bucket : TokenBucket L C F) (ctx : C)
        (validator : AnnotationValidator) (selector : LabelSelector) (types : List Bytes)
        (times : WriteTimes) (s : Services L) (w : W) where
      abbrev found : Result (QueryError F) (List Object) × Services L × W
      found =
          queried client texts bucket ctx auditing validator selector annotations types namespace
            rule_id times s w

      abbrev result : Option (WriteError F) × Services L × W
      result =
          applied client texts bucket ctx auditing validator selector annotations types namespace
            rule_id times s w

      -- An apply that has found resources leaves one event in the audit log for each of them, in
      -- order, and the failures that its error counts are as many as the events that tell of one.
      pub apply_annotations_audited :
          (r : Object) (rs : List Object)
          → is_empty (keys_of annotations) ≡ false
          → (wait_if_limited bucket ctx operation_apply namespace times.asked times.admitted s).0
            ≡ none
          → validate_annotations validator annotations ≡ none
          → found.0 ≡ ok (r ∷ rs)
          → (failed : ℕ) × (result.0 ≡ report failed (length (r ∷ rs)))
            × Grown (r ∷ rs) failed found.2 result.2
      unfolding apply_annotations
      apply_annotations_audited r rs ha hl hv hq = (
        written.0,
        ground arith,
        subst (Grown (r ∷ rs) written.0 found.2) {x = written.1} {y = result.2} (ground arith)
            (apply_to_all-Grown (r ∷ rs) found.2),
      )
        where
          written : ℕ × W
          written = apply_to_all client auditing (r ∷ rs) annotations namespace rule_id found.2
