-- ===== src/Horizon/Polling.antt =====
-- internal/issuer/horizon/issuer.go: UpdateRequest and the handlers that it dispatches to.
pub mod Issued
use horizon_issuer.Common.{
  ℕ, ◌/◌, String, get_or, true, false, Option, none, some, List, [], ◌∷◌, if◌then◌else◌, not,
}
use horizon_issuer.Common.Text.{◌<>◌, is_empty}
use horizon_issuer.Errors.{Error, plain, errorf, ok, err}
use horizon_issuer.Api
use horizon_issuer.Api.{RequestCondition, ready, is_true, entries, get_annotation}
use horizon_issuer.Sdk
use horizon_issuer.Sdk.{RequestStatus, completed, pending, canceled, unknown, RequestOnGet}
use horizon_issuer.Effects.{
  request_get, tc_pem, M, pure, ask, gets, deref, ◌>>=◌, ◌>>◌, modify, when, Return, CtrlResult,
  done, fail,
}
use horizon_issuer.Effects.Env.{Env}
use horizon_issuer.Horizon.Annotations.{
  request_id, certificate_id, owner_annotation, team_annotation, contact_email_annotation,
  issuer_namespace,
}
use horizon_issuer.Horizon.TrustChain.{build_pem_trustchain}
use horizon_issuer.Horizon.Requests.{Memory, annotate, annotate_all, set_condition}

-- The condition that stands for Horizon's approval.
abbrev pub approval : RequestCondition
approval = record {
  kind = Api.approved;
  status = is_true;
  reason = issuer_namespace;
  message = "Request approved on Horizon";
}

-- The condition of a request whose certificate is there.
abbrev pub signed : RequestCondition
signed = record { kind = ready; status = is_true; reason = "Issued"; message = "Signed" }

-- The text that `models.REQUESTSTATUS_…` stands for.
unfoldable pub status_text : RequestStatus → String
status_text completed = "completed"
status_text pending = "pending"
status_text Sdk.approved = "approved"
status_text Sdk.denied = "denied"
status_text canceled = "canceled"
status_text (unknown s) = s

-- `time.Minute / 4`, in nanoseconds
abbrev pub poll_interval : ℕ
poll_interval = 60000000000 / 4

unfoldable pub handle_pending_request : M Memory Return
handle_pending_request =
    pure (record { result = record { requeue = true; requeue_after = poll_interval }; err = none })

module _ (env : Env) where
  unfoldable pub handle_denied_request : M Memory Return
  handle_denied_request = do
    set_condition env (record {
      kind = Api.denied;
      status = is_true;
      reason = issuer_namespace;
      message = "Request denied on Horizon";
    })
    pure done

  -- The first half of the deferred function: the CA.
  unfoldable pub store_ca : String → M Memory (Unit {0})
  store_ca ca =
      when (not (is_empty ca)) (modify (λ w. record w { request = record (w.request) { ca = ca } }))

  -- The second half: the certificate, what Horizon says of it, and the Ready condition.
  unfoldable pub store_certificate : RequestOnGet → String → M Memory (Unit {0})
  store_certificate answer certificate = do
    annotate certificate_id answer.certificate.id
    annotate owner_annotation answer.certificate.owner
    annotate team_annotation answer.certificate.team
    annotate contact_email_annotation answer.certificate.contact_email
    annotate_all answer.certificate.labels
    modify (λ w. record w { request = record (w.request) { certificate = certificate } })
    set_condition env signed

  -- The deferred function of handleCompletedRequest.
  unfoldable pub store_issued : RequestOnGet → String × String → M Memory Return
  store_issued answer (certificate, ca) = do
    store_ca ca
    when (not (is_empty certificate)) (store_certificate answer certificate)
    pure done

  unfoldable pub handle_completed_request : RequestOnGet → M Memory Return
  handle_completed_request answer = do
    set_condition env approval
    c ← gets (λ w. w.client)
    client ← deref c
    let pem = answer.certificate.certificate
    resp ← ask (tc_pem client pem) (λ h. env.horizon.tc_pem h client pem)
    elim resp [
      | err e ↦ pure (fail (errorf "unable to build a trust chain for certificate" e))
      | ok certs ↦ store_issued answer (build_pem_trustchain certs)
    ]

  -- The switch on the status.
  unfoldable pub dispatch : RequestStatus → RequestOnGet → M Memory Return
  dispatch completed answer = handle_completed_request answer
  dispatch pending answer = handle_pending_request
  dispatch Sdk.approved answer = handle_pending_request
  dispatch Sdk.denied answer = handle_denied_request
  dispatch canceled answer = handle_denied_request
  dispatch (unknown s) answer =
      pure (fail (plain ("invalid request status " <> status_text (unknown s))))

  unfoldable pub update_request : M Memory Return
  update_request = do
    id ← gets (λ w. get_or (get_annotation request_id w.request.metadata.annotations) "")
    c ← gets (λ w. w.client)
    client ← deref c
    answer ← ask (request_get client id) (λ h. env.horizon.request_get h client id)
    elim answer [
      | err e ↦ pure (fail (errorf "unable to fetch request from Horizon" e))
      | ok response ↦ do request ← deref response; dispatch request.status request
    ]
