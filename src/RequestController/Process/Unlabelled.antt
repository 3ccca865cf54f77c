-- ===== src/RequestController/Process/Unlabelled.antt =====
-- internal/controller/certificaterequest_controller.go: an enrolment whose metadata cannot be had.
use horizon_issuer.Common.{String, none, some, [], ◌∷◌, ◌≡◌, arith}
use horizon_issuer.Errors.{Error, ok, text}
use horizon_issuer.Api.{ready, is_false, CertificateRequest, IssuerSpec}
use horizon_issuer.Sdk.{Submission, Client, enroll, EnrollRequest, TemplateResponse}
use horizon_issuer.Effects.{request_template, request_submit, State, returned}
use horizon_issuer.Effects.Env.{Env}
use horizon_issuer.Horizon.Requests.{
  Memory, template_request, annotate, set_value, set_condition, enroll_request, submit, submitted,
  handle_failed_request, submit_enroll_request,
}
use horizon_issuer.RequestController.Finish.{set_not_ready}
use horizon_issuer.RequestController.Lifecycle.Annotations.{certificate_metadata-memory}
use horizon_issuer.RequestController.Metadata.{Metadata, no_metadata, certificate_metadata}
use horizon_issuer.RequestController.Process
use horizon_issuer.RequestController.Lookup.{issuer_from_request, ingress_from_certificate}
use horizon_issuer.IssuerUtil.{get_spec_and_status, certificate_from_request}

-- The enrolment that Horizon's template makes by itself.
abbrev pub plain_enrolment : Env → TemplateResponse → String → EnrollRequest
plain_enrolment env t csr = record {
  workflow = t.workflow;
  module_name = t.module_name;
  profile = t.profile;
  subject = env.lib.subject_from_response t.subject;
  sans = env.lib.sans_from_response t.sans;
  extensions = env.lib.extensions_from_response t.extensions;
  labels = [];
  contact_email = env.lib.contact_email_from_response t.contact_email;
  owner = env.lib.owner_from_response t.owner;
  team = env.lib.team_from_response t.team;
  metadata = env.lib.metadata_from_response t.metadata;
  csr = csr;
}

module _ (env : Env) where
  -- With an error, nothing else is returned.
  certificate_metadata-fails :
      (cr : CertificateRequest) (s : State Memory) (values : Metadata) (e : Error)
      → (certificate_metadata env cr s).0 ≡ returned (values, some e)
      → values ≡ no_metadata
  unfolding certificate_metadata certificate_from_request issuer_from_request
      ingress_from_certificate get_spec_and_status
  certificate_metadata-fails cr s values e h = ground arith

  submit-history :
      (client : Client) (body : Submission) (message : String) (s : State Memory)
      → (submit env client body message s).1.history ≡ request_submit client body ∷ s.history
  unfolding submit submitted handle_failed_request annotate set_condition
  submit-history client body message s = ground arith

  submit_enroll_request-plain :
      (spec : IssuerSpec) (s : State Memory) (client : Client) (template : TemplateResponse)
      → s.memory.client ≡ some client
      → env.horizon.request_template s.history client
          (template_request spec s.memory.request.request)
        ≡ ok (some template)
      → (submit_enroll_request env spec [] none none none s).1.history
        ≡ request_submit client (enroll (plain_enrolment env template s.memory.request.request))
          ∷ (request_template client (template_request spec s.memory.request.request) ∷ s.history)
  unfolding submit_enroll_request enroll_request set_value
  submit_enroll_request-plain spec s client template connected got =
      let asked = record s {
        history =
            request_template client (template_request spec s.memory.request.request) ∷ s.history;
      } in
      ground (
        arith,
        connected,
        got,
        submit-history client (enroll (plain_enrolment env template s.memory.request.request))
            "Submitted enrollment request to Horizon" asked,
      )

-- Where the metadata of a new certificate cannot be had, say since its Ingress cannot be fetched, the
-- certificate is enrolled all the same: what is submitted is Horizon's own template for the profile,
-- with no label, owner, team or contact email of the Certificate or of the issuer's templates, the
-- override template included.
pub enroll-unlabelled :
    (env : Env) (spec : IssuerSpec) (s : State Memory) (client : Client)
    (template : TemplateResponse) (values : Metadata) (e : Error)
    → s.memory.client ≡ some client
    → (certificate_metadata env s.memory.request s).0 ≡ returned (values, some e)
    → env.horizon.request_template
        (certificate_metadata env s.memory.request s).1.history
        client
        (template_request spec s.memory.request.request)
      ≡ ok (some template)
    → (Process.enroll env spec s).1.history
      ≡ request_submit client (enroll (plain_enrolment env template s.memory.request.request))
        ∷ (request_template client (template_request spec s.memory.request.request)
            ∷ (certificate_metadata env s.memory.request s).1.history)
unfolding Process.enroll set_not_ready set_condition
enroll-unlabelled env spec s client template values e connected failed got =
    let t = (certificate_metadata env s.memory.request s).1 in
    let not_ready : State Memory = record t {
      memory = record (t.memory) {
        request = record (t.memory.request) {
          conditions =
              env.lib.set_request_condition t.memory.request.conditions
                (record { kind = ready; status = is_false; reason = "Pending"; message = text e });
        };
      };
    } in
    ground (
      arith,
      failed,
      got,
      connected,
      certificate_metadata-fails env s.memory.request s values e failed,
      certificate_metadata-memory env s.memory.request s,
      submit_enroll_request-plain env spec not_ready client template,
    )
