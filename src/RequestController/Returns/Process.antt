-- ===== src/RequestController/Returns/Process.antt =====
-- internal/controller/certificaterequest_controller.go: panics below the `defer`.
use horizon_issuer.Common.{
  String, Bool, true, ◌&&◌, none, some, Option, List, [], ◌∷◌, ◌≡◌, ◌≢◌, refl, arith, is_some,
}
use horizon_issuer.Common.Dict.{Dict}
use horizon_issuer.Common.Text.{◌<>◌}
use horizon_issuer.Errors.{ok}
use horizon_issuer.Api.{CertificateRequest, IssuerSpec, IssuerDnsChecker}
use horizon_issuer.Sdk.{Client, RequestOnGet, LabelElement, Submission, TemplateResponse}
use horizon_issuer.Effects.{State, lookup_host}
use horizon_issuer.Effects.Env.{Env, not_an_object}
use horizon_issuer.Horizon.Annotations.{label_annotation}
use horizon_issuer.Horizon.Requests.{
  Memory, annotate, annotate_all, set_value, enroll_request, set_condition, submit, submitted,
  handle_failed_request, submit_enroll_request, submit_renew_request,
}
use horizon_issuer.Horizon.Polling.{
  update_request, store_ca, store_issued, store_certificate, handle_completed_request,
  handle_denied_request, handle_pending_request, dispatch,
}
use horizon_issuer.IssuerUtil.{certificate_from_request}
use horizon_issuer.RequestController.Lookup.{issuer_from_request, ingress_from_certificate}
use horizon_issuer.RequestController.Metadata.{certificate_metadata}
use horizon_issuer.RequestController.Process.{
  mark_denied, check_names, check_dns, enroll, submit_first, process,
}
use horizon_issuer.RequestController.Finish.{set_not_ready}
use horizon_issuer.RequestController.Returns.{is_returned, Answered, IssuingCertificates}
use horizon_issuer.RequestController.Lifecycle.Annotations.{
  certificate_metadata-memory, check_dns-memory,
}

-- The client is set and the annotations are not nil.
abbrev pub is_usable : State Memory → Bool
is_usable s = is_some s.memory.client && is_some s.memory.request.metadata.annotations

annotate-usable :
    (k v : String) (s : State Memory)
    → is_usable s ≡ true
    → is_returned (annotate k v s).0 && is_usable (annotate k v s).1 ≡ true
unfolding annotate
annotate-usable k v s h = ground arith

annotate_all-usable :
    (m : Dict) (s : State Memory)
    → is_usable s ≡ true
    → is_returned (annotate_all m s).0 && is_usable (annotate_all m s).1 ≡ true
unfolding annotate_all
annotate_all-usable [] s h = ground arith
annotate_all-usable ((k, v) ∷ m) s h = ground (
  arith,
  annotate-usable (label_annotation <> ("." <> k)) v s h,
  annotate_all-usable m (annotate (label_annotation <> ("." <> k)) v s).1,
)

module _ (env : Env) where
  store_certificate-usable :
      (answer : RequestOnGet) (pem : String) (s : State Memory)
      → is_usable s ≡ true
      → is_returned (store_certificate env answer pem s).0 ≡ true
  unfolding store_certificate set_condition
  store_certificate-usable answer pem s h = grind (arith, annotate-usable, annotate_all-usable)

  store_issued-usable :
      (answer : RequestOnGet) (chain : String × String) (s : State Memory)
      → is_usable s ≡ true
      → is_returned (store_issued env answer chain s).0 ≡ true
  unfolding store_issued store_ca
  store_issued-usable answer (certificate, ca) s h =
      ground (arith, store_certificate-usable answer certificate (store_ca env ca s).1)

  handle_completed_request-usable :
      (answer : RequestOnGet) (s : State Memory)
      → is_usable s ≡ true
      → is_returned (handle_completed_request env answer s).0 ≡ true
  unfolding handle_completed_request set_condition
  handle_completed_request-usable answer s h = grind (arith, store_issued-usable)

  check_names-usable :
      (server : String) (names : List String) (s : State Memory)
      → is_returned (check_names env server names s).0 ≡ true
  unfolding check_names
  check_names-usable server [] s = refl
  check_names-usable server (name ∷ names) s = ground (
    arith,
    check_names-usable server names (record s { history = lookup_host server name ∷ s.history }),
  )

  check_dns-usable :
      (checker : Option IssuerDnsChecker) (s : State Memory)
      → is_returned (check_dns env checker s).0 ≡ true
  unfolding check_dns
  check_dns-usable none s = refl
  check_dns-usable (some checker) s = grind (arith, check_names-usable)

  pub issuer_from_request-usable :
      (cr : CertificateRequest) (s : State Memory)
      → env.lib.new_object cr.issuer_ref.kind ≢ ok not_an_object
      → is_returned (issuer_from_request env cr s).0 ≡ true
  unfolding issuer_from_request
  issuer_from_request-usable cr s h = grind arith

  pub certificate_metadata-usable :
      (cr : CertificateRequest) (s : State Memory)
      → env.lib.new_object cr.issuer_ref.kind ≢ ok not_an_object
      → is_returned (certificate_metadata env cr s).0 ≡ true
  unfolding certificate_metadata certificate_from_request ingress_from_certificate
  certificate_metadata-usable cr s h = grind (arith, issuer_from_request-usable)

  module _ (answered : Answered env) where
    pub update_request-usable :
        (s : State Memory) → is_usable s ≡ true → is_returned (update_request env s).0 ≡ true
    unfolding update_request dispatch handle_pending_request handle_denied_request set_condition
    update_request-usable s h = grind (arith, answered.request, handle_completed_request-usable)

    pub submit-usable :
        (client : Client) (body : Submission) (message : String) (s : State Memory)
        → is_usable s ≡ true
        → is_returned (submit env client body message s).0 ≡ true
    unfolding submit submitted handle_failed_request set_condition
    submit-usable client body message s h = grind (arith, answered.submission, annotate-usable)

    enroll_request-usable :
        (t : TemplateResponse) (labels : List LabelElement) (owner team email : Option String)
        (s : State Memory)
        → is_returned (enroll_request env t labels owner team email s).0 ≡ true
    unfolding enroll_request set_value
    enroll_request-usable t labels owner team email s =
        grind (arith, answered.email, answered.owner, answered.team)

    enroll_request-memory :
        (t : TemplateResponse) (labels : List LabelElement) (owner team email : Option String)
        (s : State Memory)
        → (enroll_request env t labels owner team email s).1.memory ≡ s.memory
    unfolding enroll_request set_value
    enroll_request-memory t labels owner team email s = ground arith

    submit_enroll_request-usable :
        (spec : IssuerSpec) (labels : List LabelElement) (owner team email : Option String)
        (s : State Memory)
        → is_usable s ≡ true
        → is_returned (submit_enroll_request env spec labels owner team email s).0 ≡ true
    unfolding submit_enroll_request handle_failed_request set_condition
    submit_enroll_request-usable spec labels owner team email s h =
        grind
          (arith, answered.template, enroll_request-usable, enroll_request-memory, submit-usable)

    pub enroll-usable :
        (spec : IssuerSpec) (s : State Memory)
        → env.lib.new_object s.memory.request.issuer_ref.kind ≢ ok not_an_object
        → is_usable s ≡ true
        → is_returned (enroll env spec s).0 ≡ true
    unfolding enroll set_not_ready set_condition
    enroll-usable spec s k h = grind (
      arith, certificate_metadata-usable, certificate_metadata-memory, submit_enroll_request-usable,
    )

    module _ (issuing : IssuingCertificates env) where
      submit_first-usable :
          (spec : IssuerSpec) (s : State Memory)
          → env.lib.new_object s.memory.request.issuer_ref.kind ≢ ok not_an_object
          → is_usable s ≡ true
          → is_returned (submit_first env spec s).0 ≡ true
      unfolding submit_first certificate_from_request submit_renew_request
      submit_first-usable spec s k h = grind (arith, issuing, enroll-usable, submit-usable)

      pub process-usable :
          (spec : IssuerSpec) (s : State Memory)
          → env.lib.new_object s.memory.request.issuer_ref.kind ≢ ok not_an_object
          → is_usable s ≡ true
          → is_returned (process env spec s).0 ≡ true
      unfolding process mark_denied set_not_ready set_condition
      process-usable spec s k h =
          grind
            (arith, check_dns-usable, check_dns-memory, update_request-usable, submit_first-usable)
