-- ===== src/RequestController/Finish.antt =====
-- internal/controller/certificaterequest_controller.go: the deferred function of Reconcile.
pub mod Laws
pub mod Failure
pub mod Parent
use horizon_issuer.Common.{
  String, Bool, true, false, Option, none, some, List, [], ◌∷◌, ◌&&◌, get_or, length, nat_eq,
  if◌then◌else◌,
}
use horizon_issuer.Common.Text.{◌==◌, is_empty}
use horizon_issuer.Common.Dict.{Dict, lookup, insert}
use horizon_issuer.Errors.{Error, text}
use horizon_issuer.Api.{
  CertificateRequest, Certificate, RequestCondition, ready, invalid_request, is_true, is_false,
  entries, get_annotation,
}
use horizon_issuer.Effects.{
  for_request, update_request_status, update_certificate, M, pure, ask, gets, observe, ◌>>=◌, ◌>>◌,
  modify, Return, no_requeue,
}
use horizon_issuer.Effects.Env.{Env}
use horizon_issuer.Horizon.Annotations.{certificate_id, last_certificate_id}
use horizon_issuer.Horizon.Requests.{Memory, set_condition}
use horizon_issuer.IssuerUtil.{certificate_from_request}
use horizon_issuer.RequestController.Deletion.{record_event, save_request}

abbrev pub found_is : Option String → String → Bool
found_is none v = false
found_is (some w) v = w == v

unfoldable pub covers : Dict → Dict → Bool
covers m [] = true
covers m ((k, v) ∷ n) = found_is (lookup k m) v && covers m n

-- `reflect.DeepEqual` on two maps; a nil map is equal to a nil map alone.
unfoldable pub deep_equal : Option Dict → Option Dict → Bool
deep_equal none none = true
deep_equal none (some _) = false
deep_equal (some _) none = false
deep_equal (some m) (some n) = nat_eq (length m) (length n) && covers n m

module _ (env : Env) where
  -- `setReadyCondition(cmmeta.ConditionFalse, reason, message)`
  unfoldable pub set_not_ready : (reason message : String) → M Memory (Unit {0})
  set_not_ready reason message =
      set_condition env
        (record { kind = ready; status = is_false; reason = reason; message = message })

  -- What the deferred function does about an error.
  unfoldable pub record_failure : Error → M Memory (Unit {0})
  record_failure e = do
    cs ← gets (λ w. w.request.conditions)
    if env.lib.request_has_condition cs invalid_request is_true "Failed"
        then set_not_ready "Failed" "Invalid request"
        else set_not_ready "Pending" (text e)
    now ← observe env.time_now
    modify (λ w. record w { request = record (w.request) { failure_time = some now } })
    cr ← gets (λ w. w.request)
    record_event (for_request cr) "Warning" "Error" (text e)

  -- The write: `Update` where the annotations changed, `Status().Update` where not.
  unfoldable pub write_request : Option Dict → M Memory (Option Error)
  write_request annotations_before = do
    cr ← gets (λ w. w.request)
    if deep_equal annotations_before cr.metadata.annotations
        then (do
          answer ← ask (update_request_status cr) (λ h. env.cluster.update_request_status h cr)
          modify (λ w. record w { request = answer.0 })
          pure answer.1)
        else save_request env

  -- The parent Certificate with the id; an error of its get is only logged.
  abbrev pub with_last_id : String → Certificate → Certificate
  with_last_id id certificate = record certificate {
    metadata = record (certificate.metadata) {
      annotations = some (insert last_certificate_id id (entries certificate.metadata.annotations));
    };
  }

  unfoldable pub update_parent : M Memory (Option Error)
  update_parent = do
    cr ← gets (λ w. w.request)
    let id = get_or (get_annotation certificate_id cr.metadata.annotations) ""
    if is_empty id then pure none else (do
      answer ← certificate_from_request env cr
      let parent = with_last_id id answer.0
      ask (update_certificate parent) (λ h. env.cluster.update_certificate h parent))

  -- The named results after the writes: only an error of the first one is returned.
  unfoldable pub aggregate : Return → (update_err parent_err : Option Error) → Return
  aggregate r none parent_err = r
  aggregate r (some e) parent_err = record {
    result = no_requeue;
    err = env.lib.new_aggregate (r.err ∷ (some e ∷ (parent_err ∷ [])));
  }

  unfoldable pub store : Option Dict → Return → M Memory Return
  store annotations_before r = do
    update_err ← write_request annotations_before
    parent_err ← update_parent
    pure (aggregate r update_err parent_err)

  unfoldable pub record_outcome : Option Error → M Memory (Unit {0})
  record_outcome none = pure tt
  record_outcome (some e) = record_failure e

  -- The deferred function, on the copied object's annotations and the named results.
  unfoldable pub finish : Option Dict → Return → M Memory Return
  finish annotations_before r = do record_outcome r.err; store annotations_before r
