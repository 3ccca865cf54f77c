-- ===== src/RequestController/Lifecycle/Panics.antt =====
-- internal/controller/certificaterequest_controller.go: when a reconciliation panics
-- (GetCertificateCondition gives nil for a Certificate that is not being issued, and `.Reason` is
-- read from it).
use horizon_issuer.Common.{
  String, Bool, true, false, not, ◌&&◌, ◌∷◌, none, ◌≡◌, ◌∙◌, ap, arith, is_some, inl, inr,
  Option-cases,
}
use horizon_issuer.Api.{CertificateRequest, IssuerSpec, NamespacedName, get_annotation}
use horizon_issuer.Effects.{History, State, get_certificate}
use horizon_issuer.Effects.Env.{Env}
use horizon_issuer.Horizon.Annotations.{request_id}
use horizon_issuer.Horizon.Requests.{Memory, set_condition, submit_renew_request}
use horizon_issuer.Horizon.ClientConfig.{trim_url}
use horizon_issuer.IssuerUtil.{certificate_name, certificate_from_request}
use horizon_issuer.RequestController.{is_settled, reconcile_unsettled, reconcile}
use horizon_issuer.RequestController.Finish.{set_not_ready}
use horizon_issuer.RequestController.Lifecycle.{Holds}
use horizon_issuer.RequestController.Lifecycle.Served.{spec_of, served-HasObject}
use horizon_issuer.RequestController.Lifecycle.Awaits.{Reaches, prepared, reconcile-prepared}
use horizon_issuer.RequestController.Lifecycle.Keeps.{stored}
use horizon_issuer.RequestController.Process.{mark_denied, check_dns, submit_first, process}
use horizon_issuer.RequestController.Returns.{is_returned, Answered}
use horizon_issuer.RequestController.Returns.Process.{
  is_usable, update_request-usable, submit-usable, enroll-usable,
}
use horizon_issuer.RequestController.Returns.Reconcile.{HasObject, finish-returns}

-- Whether the Certificate of the request is got after these calls, and is not being issued.
abbrev pub is_idle : Env → History → CertificateRequest → Bool
is_idle env h cr =
    let (certificate, failure) = env.cluster.get_certificate h (certificate_name cr) in
    not (is_some failure)
    && not (is_some (env.lib.get_certificate_condition certificate.conditions "Issuing"))

-- Whether it neither was submitted nor is denied or approved.
abbrev pub is_new : Env → CertificateRequest → Bool
is_new env cr =
    not (env.lib.request_is_denied cr.conditions)
    && (not (env.lib.request_is_approved cr.conditions)
        && not (is_some (get_annotation request_id cr.metadata.annotations)))

module _ (env : Env) (answered : Answered env) where
  submit_first-idle :
      (spec : IssuerSpec) (s : State Memory)
      → HasObject env s
      → is_usable s ≡ true
      → is_returned (submit_first env spec s).0 ≡ not (is_idle env s.history s.memory.request)
  unfolding submit_first certificate_from_request submit_renew_request
  submit_first-idle spec s k h =
      let called : State Memory = record s {
        history = get_certificate (certificate_name s.memory.request) ∷ s.history;
      } in
      let got = env.cluster.get_certificate s.history (certificate_name s.memory.request) in
      let condition = env.lib.get_certificate_condition got.0.conditions "Issuing" in
      elim (Option-cases got.1) [
        | inl taken ↦ elim (Option-cases condition) [
          | inl idle ↦ ground (arith, taken, idle)
          | inr (c, issuing) ↦ grind (
            arith,
            taken,
            issuing,
            enroll-usable env answered spec called k h,
            submit-usable env answered,
          )
        ]
        | inr (e, failed) ↦ ground (arith, failed)
      ]

  process-idle :
      (spec : IssuerSpec) (s : State Memory)
      → spec.dns_checker ≡ none
      → HasObject env s
      → is_usable s ≡ true
      → is_returned (process env spec s).0
        ≡ not (is_new env s.memory.request && is_idle env s.history s.memory.request)
  unfolding process mark_denied set_not_ready set_condition check_dns
  process-idle spec s unchecked k h =
      grind (arith, update_request-usable env answered, submit_first-idle)

unsettled-idle :
    (env : Env) (ns : String) (spec : IssuerSpec) (s : State Memory)
    → is_settled env ns s.memory.request.conditions ≡ false
    → is_returned (reconcile_unsettled env ns spec s).0 ≡ is_returned (process env spec s).0
unfolding reconcile_unsettled
unsettled-idle env ns spec s h = grind (arith, finish-returns env)

-- A reconciliation of an open request panics exactly where the request is neither denied nor
-- approved and has no request id, and its Certificate, got after the request, the issuer and the
-- secret, is got without an error and has no Issuing condition; otherwise it returns. The request is
-- not to be deleted and has annotations, its issuer, of either kind, is ready and needs no DNS
-- check, the API server takes every update and nobody else writes the request, and Horizon answers
-- with the enrolment variant and its templates have an owner, a team and a contact email.
pub reconcile-is_returned :
    (env : Env) (answered : Answered env) (ns : String) (name : NamespacedName)
    (init : CertificateRequest) (holds : Holds env name init) (cr : CertificateRequest)
    (c : Reaches env ns cr) (s : State Memory)
    → stored env init s ≡ cr
    → is_returned (reconcile env ns name s).0
      ≡ not (is_new env cr && is_idle env (prepared env ns name init holds cr c s).history cr)
unfolding trim_url
reconcile-is_returned env answered ns name init holds cr c s h =
    let t = prepared env ns name init holds cr c s in
    let spec = trim_url env.lib (spec_of c.found) in
    ap (λ q. is_returned q.0) (reconcile-prepared env ns name init holds cr c s h)
    ∙ (unsettled-idle env ns spec t c.open_request
        ∙ process-idle env answered spec t c.unchecked
            (served-HasObject env cr.issuer_ref cr.metadata.namespace c.found c.served)
            (ground (arith, c.annotated)))
