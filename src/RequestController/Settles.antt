-- ===== src/RequestController/Settles.antt =====
-- internal/controller/certificaterequest_controller.go: a renewal that Horizon refuses.
use horizon_issuer.Common.{String, true, false, none, some, ◌∷◌, ◌≡◌, ◌∙◌, refl, ap, arith, is_some}
use horizon_issuer.Common.Dict.{IsMap}
use horizon_issuer.Errors.{Error, err, wrapped}
use horizon_issuer.Api.{
  CertificateRequest, Certificate, CertificateCondition, IssuerSpec, RequestCondition,
  invalid_request, ready, is_true, is_false, entries, get_annotation,
}
use horizon_issuer.Sdk.{Client, renew}
use horizon_issuer.Effects.{
  History, get_certificate, request_submit, update_request_status, State, Outcome, returned, Return,
  fail, with_defer, with_defer-returned, ◌>>=◌,
}
use horizon_issuer.Effects.Env.{Env}
use horizon_issuer.Horizon.Annotations.{request_id, certificate_id, last_certificate_id}
use horizon_issuer.Horizon.ApiError.{format_api_error}
use horizon_issuer.Horizon.Requests.{Memory, submit_renew_request}
use horizon_issuer.IssuerUtil.{certificate_name, certificate_from_request}
use horizon_issuer.RequestController.{is_settled, reconcile_unsettled}
use horizon_issuer.RequestController.Process.{is_renewal, check_dns, submit_first, process}
use horizon_issuer.RequestController.Finish.{finish}
use horizon_issuer.RequestController.Finish.Laws.{RequestConditionLaws}
use horizon_issuer.RequestController.Finish.Failure.{
  KeepsAnnotations, failure_condition, failed_request, failed_state, finish-error,
}

-- A new request whose Certificate is up for renewal, and Horizon's refusal of the submission.
pub record RenewalRefused (env : Env) (ns : String) (spec : IssuerSpec) (s : State Memory)
    : Type 0 where
  pub client : Client
  pub certificate : Certificate
  pub condition : CertificateCondition
  pub last_id : String
  pub error : Error
  pub open_request : is_settled env ns s.memory.request.conditions ≡ false
  pub not_denied : env.lib.request_is_denied s.memory.request.conditions ≡ false
  pub not_approved : env.lib.request_is_approved s.memory.request.conditions ≡ false
  pub unchecked : spec.dns_checker ≡ none
  pub new_request :
      is_some (get_annotation request_id s.memory.request.metadata.annotations) ≡ false
  pub no_id : get_annotation certificate_id s.memory.request.metadata.annotations ≡ none
  pub is_map : IsMap (entries s.memory.request.metadata.annotations)
  pub connected : s.memory.client ≡ some client
  pub parent :
      env.cluster.get_certificate s.history (certificate_name s.memory.request)
      ≡ (certificate, none)
  pub issuing : env.lib.get_certificate_condition certificate.conditions "Issuing" ≡ some condition
  pub renewal : is_renewal condition.reason ≡ true
  pub annotated : env.lib.has_annotation certificate.metadata.annotations last_certificate_id ≡ true
  pub last : get_annotation last_certificate_id certificate.metadata.annotations ≡ some last_id
  pub refused :
      env.horizon.request_submit
        (get_certificate (certificate_name s.memory.request) ∷ s.history)
        client
        (renew last_id s.memory.request.request)
      ≡ err error

-- The last call stores a request that every later reconciliation takes for settled.
pub record StoresSettled (env : Env) (ns : String) (t : State Memory) : Type 0 where
  pub stored : CertificateRequest
  pub before : History
  pub last : t.history ≡ update_request_status stored ∷ before
  pub settled : is_settled env ns stored.conditions ≡ true
  pub failed : env.lib.request_has_condition stored.conditions ready is_false "Failed" ≡ true

module _ (env : Env) (ns : String) (spec : IssuerSpec) (s : State Memory)
    (c : RenewalRefused env ns spec s) where
  abbrev refusal : RequestCondition
  refusal = record {
    kind = invalid_request;
    status = is_true;
    reason = "Failed";
    message = format_api_error (some c.error);
  }

  abbrev refused_state : State Memory
  refused_state = record {
    memory = record (s.memory) {
      request = record (s.memory.request) {
        conditions = env.lib.set_request_condition s.memory.request.conditions refusal;
      };
    };
    history =
        request_submit c.client (renew c.last_id s.memory.request.request)
        ∷ (get_certificate (certificate_name s.memory.request) ∷ s.history);
  }

  abbrev refusal_error : Error
  refusal_error = wrapped (format_api_error (some c.error)) c.error

  process-refused : process env spec s ≡ (returned (fail refusal_error), refused_state)
  unfolding process check_dns submit_first certificate_from_request submit_renew_request
  process-refused = ground (
    arith, c.not_denied, c.not_approved, c.unchecked, c.new_request, c.connected, c.parent,
    c.issuing, c.renewal, c.annotated, c.last, c.refused,
  )

  unsettled-defer :
      reconcile_unsettled env ns spec s
      ≡ with_defer (finish env s.memory.request.metadata.annotations) (process env spec) s
  unfolding reconcile_unsettled
  unsettled-defer = rw (c.open_request, ◌>>=◌)

  unsettled-refused :
      KeepsAnnotations env
      → (reconcile_unsettled env ns spec s).1.history
        ≡ update_request_status (failed_request env refusal_error refused_state)
          ∷ (failed_state env refusal_error refused_state).history
  unsettled-refused keeps =
      ap (λ (t : State Memory). t.history)
        (ap (λ (o : Outcome Return × State Memory). o.1) unsettled-defer
          ∙ with_defer-returned (finish env s.memory.request.metadata.annotations)
              (process env spec) process-refused)
      ∙ finish-error env refusal_error refused_state keeps c.is_map c.no_id (fail refusal_error)
          refl

  stored-failed :
      RequestConditionLaws env.lib
      → env.lib.request_has_condition
          (failed_request env refusal_error refused_state).conditions
          ready
          is_false
          "Failed"
        ≡ true
  stored-failed laws =
      let noted = laws.has-set s.memory.request.conditions refusal in
      rw noted (laws.has-set _ (failure_condition true refusal_error))

-- A renewal that Horizon refuses is stored with Ready false for the reason Failed, so that later
-- reconciliations take the request for settled. The request is new and open and needs no DNS check;
-- the API server keeps annotations in a status update.
pub reconcile-refused :
    (env : Env) (ns : String) (spec : IssuerSpec) (s : State Memory)
    → RequestConditionLaws env.lib
    → KeepsAnnotations env
    → RenewalRefused env ns spec s
    → StoresSettled env ns (reconcile_unsettled env ns spec s).1
unfolding is_settled
reconcile-refused env ns spec s laws keeps c =
    let failed = stored-failed env ns spec s c laws in
    record {
      stored = failed_request env (refusal_error env ns spec s c) (refused_state env ns spec s c);
      before =
          (failed_state env (refusal_error env ns spec s c)
            (refused_state env ns spec s c)).history;
      last = unsettled-refused env ns spec s c keeps;
      settled = ground (arith, failed);
      failed = failed;
    }
