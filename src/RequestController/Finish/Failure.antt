-- ===== src/RequestController/Finish/Failure.antt =====
-- internal/controller/certificaterequest_controller.go: the deferred function after an error.
use horizon_issuer.Common.{
  Bool, true, Option, none, some, ◌∷◌, ◌≡◌, ◌∙◌, arith, ap, if◌then◌else◌, Bool-cases, inl, inr,
}
use horizon_issuer.Common.Dict.{Dict, IsMap}
use horizon_issuer.Errors.{Error, text}
use horizon_issuer.Api.{
  CertificateRequest, RequestCondition, ready, invalid_request, is_true, is_false, entries,
  get_annotation,
}
use horizon_issuer.Effects.{
  event, for_request, ◌>>=◌, >>=-returned, pure, Outcome, History, update_request_status, State,
  Return, returned,
}
use horizon_issuer.Effects.Env.{Env}
use horizon_issuer.Horizon.Annotations.{certificate_id}
use horizon_issuer.Horizon.Requests.{Memory, set_condition}
use horizon_issuer.RequestController.Finish.{
  deep_equal, set_not_ready, record_failure, write_request, update_parent, aggregate, store,
  record_outcome, finish,
}
use horizon_issuer.RequestController.Finish.Laws.{deep_equal_refl}
use horizon_issuer.RequestController.Deletion.{record_event}

-- The API server's answer to a status update leaves the annotations as they were sent.
abbrev pub KeepsAnnotations : Env → Type 0
KeepsAnnotations env =
    (h : History) (cr : CertificateRequest)
    → (env.cluster.update_request_status h cr).0.metadata.annotations ≡ cr.metadata.annotations

-- The Ready condition that an error leaves, by whether Horizon refused the request.
abbrev pub failure_condition : Bool → Error → RequestCondition
failure_condition refused e = record {
  kind = ready;
  status = is_false;
  reason = if refused then "Failed" else "Pending";
  message = if refused then "Invalid request" else text e;
}

module _ (env : Env) (e : Error) (s : State Memory) where
  abbrev pub is_refused : Bool
  is_refused =
      env.lib.request_has_condition s.memory.request.conditions invalid_request is_true "Failed"

  -- The request that is stored after an error.
  abbrev pub failed_request : CertificateRequest
  failed_request = record (s.memory.request) {
    conditions =
        env.lib.set_request_condition s.memory.request.conditions (failure_condition is_refused e);
    failure_time = some (env.time_now s.history);
  }

  -- The state after the failure is recorded.
  abbrev pub failed_state : State Memory
  failed_state = record {
    memory = record (s.memory) { request = failed_request };
    history = event (for_request failed_request) "Warning" "Error" (text e) ∷ s.history;
  }

  pub record_failure_lem : record_failure env e s ≡ (returned tt, failed_state)
  unfolding record_failure set_not_ready set_condition record_event
  record_failure_lem = elim (Bool-cases is_refused) [ inl h ↦ ground arith | inr h ↦ ground arith ]

module _ (env : Env) (s : State Memory) where
  -- The answer of the API server to a status update with the request in memory.
  abbrev status_answer : CertificateRequest × Option Error
  status_answer = env.cluster.update_request_status s.history s.memory.request

  abbrev pub status_stored : State Memory
  status_stored = record {
    memory = record (s.memory) { request = status_answer.0 };
    history = update_request_status s.memory.request ∷ s.history;
  }

  pub write_request-unchanged :
      (before : Option Dict)
      → deep_equal before s.memory.request.metadata.annotations ≡ true
      → write_request env before s ≡ (returned status_answer.1, status_stored)
  unfolding write_request
  write_request-unchanged before same = rw (same, ◌>>=◌)

  pub update_parent-no_id :
      get_annotation certificate_id s.memory.request.metadata.annotations ≡ none
      → update_parent env s ≡ (returned none, s)
  unfolding update_parent
  update_parent-no_id no_id = rw no_id

-- After an error that left the annotations alone, of a request with no certificate id, the last
-- call stores the failed request's status.
pub finish-error :
    (env : Env) (e : Error) (s : State Memory)
    → KeepsAnnotations env
    → IsMap (entries s.memory.request.metadata.annotations)
    → get_annotation certificate_id s.memory.request.metadata.annotations ≡ none
    → (r : Return) → r.err ≡ some e
    → (finish env s.memory.request.metadata.annotations r s).1.history
      ≡ update_request_status (failed_request env e s) ∷ (failed_state env e s).history
unfolding finish store record_outcome
finish-error env e s keeps is_map no_id r h =
    let before = s.memory.request.metadata.annotations in
    let t = failed_state env e s in
    let same = deep_equal_refl before is_map in
    let no_id' = ap (get_annotation certificate_id) (keeps t.history t.memory.request) ∙ no_id in
    ap (λ (o : Outcome Return × State Memory). o.1.history)
      (>>=-returned (record_outcome env r.err) (λ _. store env before r)
          (rw h (record_failure_lem env e s))
        ∙ >>=-returned (write_request env before)
            (λ u. update_parent env >>= λ p. pure (aggregate env r u p))
            (write_request-unchanged env t before same)
        ∙ >>=-returned (update_parent env) (λ p. pure (aggregate env r (status_answer env t).1 p))
            (update_parent-no_id env (status_stored env t) no_id'))
