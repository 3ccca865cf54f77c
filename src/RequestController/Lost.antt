-- ===== src/RequestController/Lost.antt =====
-- internal/controller/certificaterequest_controller.go: a completed request whose trust chain cannot
-- be fetched.
use horizon_issuer.Common.{
  String, true, false, none, some, ◌∷◌, ◌≡◌, ◌∙◌, ap, refl, arith, is_some, get_or,
}
use horizon_issuer.Common.Dict.{IsMap}
use horizon_issuer.Errors.{Error, ok, err, errorf}
use horizon_issuer.Api.{
  CertificateRequest, IssuerSpec, RequestCondition, invalid_request, is_true, is_false, ready,
  entries, get_annotation,
}
use horizon_issuer.Api
use horizon_issuer.Sdk.{Client, RequestOnGet, completed}
use horizon_issuer.Effects.{
  History, request_get, tc_pem, update_request_status, State, Outcome, returned, Return, fail,
  with_defer, with_defer-returned, ◌>>=◌,
}
use horizon_issuer.Effects.Env.{Env}
use horizon_issuer.Horizon.Annotations.{request_id, certificate_id}
use horizon_issuer.Horizon.Requests.{Memory, set_condition}
use horizon_issuer.Horizon.Polling.{approval, update_request, dispatch, handle_completed_request}
use horizon_issuer.RequestController.{is_settled, reconcile_unsettled}
use horizon_issuer.RequestController.Process.{process, check_dns}
use horizon_issuer.RequestController.Finish.{finish}
use horizon_issuer.RequestController.Finish.Laws.{RequestConditionLaws}
use horizon_issuer.RequestController.Finish.Failure.{
  KeepsAnnotations, failed_request, failed_state, finish-error,
}

abbrev pub id_of : State Memory → String
id_of s = get_or (get_annotation request_id s.memory.request.metadata.annotations) ""

-- Horizon has completed a request that was submitted, and then fails to give the trust chain.
pub record ChainFails (env : Env) (ns : String) (spec : IssuerSpec) (s : State Memory)
    : Type 0 where
  pub client : Client
  pub answer : RequestOnGet
  pub error : Error
  pub open_request : is_settled env ns s.memory.request.conditions ≡ false
  pub not_denied : env.lib.request_is_denied s.memory.request.conditions ≡ false
  pub not_approved : env.lib.request_is_approved s.memory.request.conditions ≡ false
  pub unchecked : spec.dns_checker ≡ none
  pub submitted : is_some (get_annotation request_id s.memory.request.metadata.annotations) ≡ true
  pub no_id : get_annotation certificate_id s.memory.request.metadata.annotations ≡ none
  pub is_map : IsMap (entries s.memory.request.metadata.annotations)
  pub connected : s.memory.client ≡ some client
  pub fetched : env.horizon.request_get s.history client (id_of s) ≡ ok (some answer)
  pub issued : answer.status ≡ completed
  pub no_chain :
      env.horizon.tc_pem
        (request_get client (id_of s) ∷ s.history)
        client
        answer.certificate.certificate
      ≡ err error

-- The last call stores a request as approved, with the certificate that it had before.
pub record StoresApproved (env : Env) (s t : State Memory) : Type 0 where
  pub stored : CertificateRequest
  pub before : History
  pub last : t.history ≡ update_request_status stored ∷ before
  pub approved : env.lib.request_is_approved stored.conditions ≡ true
  pub certificate : stored.certificate ≡ s.memory.request.certificate

module _ (env : Env) (ns : String) (spec : IssuerSpec) (s : State Memory)
    (c : ChainFails env ns spec s) where
  abbrev approved_state : State Memory
  approved_state = record {
    memory = record (s.memory) {
      request = record (s.memory.request) {
        conditions = env.lib.set_request_condition s.memory.request.conditions approval;
      };
    };
    history =
        tc_pem c.client c.answer.certificate.certificate
        ∷ (request_get c.client (id_of s) ∷ s.history);
  }

  chain_error : Error
  chain_error = errorf "unable to build a trust chain for certificate" c.error

  process-chain : process env spec s ≡ (returned (fail chain_error), approved_state)
  unfolding chain_error process check_dns update_request dispatch handle_completed_request
      set_condition
  process-chain = ground (
    arith, c.open_request, c.not_denied, c.not_approved, c.unchecked, c.submitted, c.connected,
    c.fetched, c.issued, c.no_chain,
  )

  unsettled-chain :
      reconcile_unsettled env ns spec s
      ≡ with_defer (finish env s.memory.request.metadata.annotations) (process env spec) s
  unfolding reconcile_unsettled
  unsettled-chain = rw (c.open_request, ◌>>=◌)

  unsettled-history :
      KeepsAnnotations env
      → (reconcile_unsettled env ns spec s).1.history
        ≡ update_request_status (failed_request env chain_error approved_state)
          ∷ (failed_state env chain_error approved_state).history
  unsettled-history keeps =
      ap (λ (t : State Memory). t.history)
        (ap (λ (o : Outcome Return × State Memory). o.1) unsettled-chain
          ∙ with_defer-returned (finish env s.memory.request.metadata.annotations)
              (process env spec) process-chain)
      ∙ finish-error env chain_error approved_state keeps c.is_map c.no_id (fail chain_error) refl

-- Where Horizon has completed a request and its trust chain cannot be fetched, the reconciliation
-- stores the request as approved and with the certificate that it had before. The request is open,
-- has no certificate id, and needs no DNS check; the API server keeps annotations in a status update.
pub reconcile-lost :
    (env : Env) (ns : String) (spec : IssuerSpec) (s : State Memory)
    → RequestConditionLaws env.lib
    → KeepsAnnotations env
    → ChainFails env ns spec s
    → StoresApproved env s (reconcile_unsettled env ns spec s).1
reconcile-lost env ns spec s laws keeps c = record {
  stored = failed_request env (chain_error env ns spec s c) (approved_state env ns spec s c);
  before =
      (failed_state env (chain_error env ns spec s c) (approved_state env ns spec s c)).history;
  last = unsettled-history env ns spec s c keeps;
  approved =
      laws.approved-has _
      ∙ laws.has-set_other _ _ Api.approved is_true "" (λ e. cc)
      ∙ laws.has_any-set s.memory.request.conditions approval;
  certificate = refl;
}
