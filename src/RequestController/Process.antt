-- ===== src/RequestController/Process.antt =====
-- internal/controller/certificaterequest_controller.go: the part of Reconcile below its `defer`.
pub mod Dns
pub mod Renewal
pub mod Unlabelled
use horizon_issuer.Common.{
  String, Bool, true, false, Option, none, some, List, [], ◌∷◌, ◌&&◌, ◌||◌, get_or, is_some,
  if◌then◌else◌,
}
use horizon_issuer.Common.Text.{◌<>◌, ◌==◌}
use horizon_issuer.Errors.{Error, plain, wrapped, text, Result, ok, err}
use horizon_issuer.Api.{
  CertificateRequest, Certificate, IssuerSpec, IssuerDnsChecker, get_annotation,
}
use horizon_issuer.Effects.{
  lookup_host, M, pure, ask, gets, observe, deref, ◌>>=◌, ◌>>◌, modify, Return, done, fail,
}
use horizon_issuer.Effects.Env.{Env}
use horizon_issuer.Horizon.Annotations.{request_id, last_certificate_id}
use horizon_issuer.Horizon.Requests.{Memory, submit_enroll_request, submit_renew_request}
use horizon_issuer.Horizon.Polling.{update_request}
use horizon_issuer.IssuerUtil.{certificate_from_request}
use horizon_issuer.RequestController.Finish.{set_not_ready}
use horizon_issuer.RequestController.Metadata.{Metadata, certificate_metadata}

-- `fmt.Errorf("%w", err)`
abbrev pub rewrap : Error → Error
rewrap e = wrapped (text e) e

-- The reasons of the parent's Issuing condition for which a certificate is renewed.
abbrev pub is_renewal : String → Bool
is_renewal reason = reason == "ManuallyTriggered" || (reason == "Renewing" || reason == "Expired")

module _ (env : Env) where
  -- The branch of a denied request.
  unfoldable pub mark_denied : M Memory Return
  mark_denied = do
    now ← observe env.clock_now
    modify (λ w. record w {
      request = record (w.request) { failure_time = some (get_or w.request.failure_time now) };
    })
    set_not_ready env "Denied" "The CertificateRequest was denied by an approval controller"
    pure done

  -- The loop over the names; the first that does not resolve ends it.
  unfoldable pub check_names : String → List String → M Memory (Option Error)
  check_names server [] = pure none
  check_names server (name ∷ names) = do
    failure ← ask (lookup_host server name) (λ h. env.lookup_host h server name)
    elim failure [
      | some _ ↦ pure (
          some (
            plain (
              "certificate failed the DNS validation: could not resolve "
              <> (name <> (" on " <> server)))))
      | none ↦ check_names server names
    ]

  unfoldable pub check_dns : Option IssuerDnsChecker → M Memory (Option Error)
  check_dns none = pure none
  check_dns (some checker) = do
    request ← gets (λ w. w.request.request)
    elim (env.lib.decode_csr request) [
      | err e ↦ pure (some (rewrap e))
      | ok csr ↦ check_names checker.server (csr.common_name ∷ csr.dns_names)
    ]

  -- A new certificate; where the metadata cannot be had, it is enrolled without any.
  unfoldable pub enroll : IssuerSpec → M Memory Return
  enroll spec = do
    cr ← gets (λ w. w.request)
    (metadata, failure) ← certificate_metadata env cr
    elim failure [ none ↦ pure tt | some e ↦ set_not_ready env "Pending" (text e) ]
    submit_enroll_request env spec metadata.labels metadata.owner metadata.team
        metadata.contact_email

  -- A request with no request id yet. A parent without an Issuing condition is a nil dereference.
  unfoldable pub submit_first : IssuerSpec → M Memory Return
  submit_first spec = do
    cr ← gets (λ w. w.request)
    (certificate, failure) ← certificate_from_request env cr
    elim failure [
      | some e ↦ pure (fail (rewrap e))
      | none ↦ do
        condition ← deref (env.lib.get_certificate_condition certificate.conditions "Issuing")
        if env.lib.has_annotation certificate.metadata.annotations last_certificate_id
              && is_renewal condition.reason
            then submit_renew_request env
                (get_or (get_annotation last_certificate_id certificate.metadata.annotations) "")
            else enroll spec
    ]

  unfoldable pub process : IssuerSpec → M Memory Return
  process spec = do
    cr ← gets (λ w. w.request)
    if env.lib.request_is_denied cr.conditions then mark_denied else (do
      failure ← check_dns spec.dns_checker
      elim failure [
        | some e ↦ pure (fail e)
        | none ↦
            if env.lib.request_is_approved cr.conditions
            then pure done
            else if is_some (get_annotation request_id cr.metadata.annotations)
            then update_request env
            else submit_first spec
      ])
