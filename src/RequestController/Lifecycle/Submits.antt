-- ===== src/RequestController/Lifecycle/Submits.antt =====
-- internal/controller/certificaterequest_controller.go: the reconciliation that submits a request
-- which Horizon takes.
use horizon_issuer.Common.{
  ℕ, suc, refl, get_or, String, true, false, Option, none, some, List, ◌∷◌, ◌≡◌, ◌≢◌, arith,
}
use horizon_issuer.Common.Dict.{Dict, lookup, insert}
use horizon_issuer.Errors.{ok}
use horizon_issuer.Api.{
  get_annotation, CertificateRequest, Certificate, CertificateCondition, IssuerSpec,
}
use horizon_issuer.Sdk.{
  renew, Client, Submission, TemplateRequest, TemplateResponse, TemplateField, LabelElement,
}
use horizon_issuer.Effects.{
  request_submit, get_certificate, History, State, Outcome, returned, Return, done,
}
use horizon_issuer.Effects.Env.{Env, not_an_object}
use horizon_issuer.Horizon.Annotations.{last_certificate_id, request_id}
use horizon_issuer.Horizon.Requests.{
  Memory, annotate, set_condition, set_value, submit, submitted, enroll_request,
  submit_enroll_request, submit_renew_request,
}
use horizon_issuer.IssuerUtil.{certificate_name, certificate_from_request}
use horizon_issuer.RequestController.Process.{process, check_dns, enroll, submit_first}
use horizon_issuer.RequestController.Finish.{set_not_ready}
use horizon_issuer.Effects.Count.{is_order}
use horizon_issuer.RequestController.Orders.{orders, certificate_metadata-orders}
use horizon_issuer.RequestController.Returns.Process.{certificate_metadata-usable}
use horizon_issuer.RequestController.Lifecycle.Annotations.{certificate_metadata-memory}

-- The parent Certificate is there and being issued, and Horizon takes what is submitted.
pub record Accepts (env : Env) (client : Client) (cr : CertificateRequest) : Type 0 where
  pub id : String
  pub certificate : Certificate
  pub condition : CertificateCondition
  pub template : TemplateResponse
  pub email : TemplateField
  pub owner : TemplateField
  pub team : TemplateField
  pub parent :
      (h : History) → env.cluster.get_certificate h (certificate_name cr) ≡ (certificate, none)
  pub issuing : env.lib.get_certificate_condition certificate.conditions "Issuing" ≡ some condition
  pub templated :
      (h : History) (question : TemplateRequest)
      → env.horizon.request_template h client question ≡ ok (some template)
  pub has_email : env.lib.contact_email_from_response template.contact_email ≡ some email
  pub has_owner : env.lib.owner_from_response template.owner ≡ some owner
  pub has_team : env.lib.team_from_response template.team ≡ some team
  pub taken :
      (h : History) (body : Submission) → env.horizon.request_submit h client body ≡ ok (some id)

module _ (env : Env) where
  -- It returns no error, one certificate was ordered, and the request in memory has the id, and is
  -- otherwise as before, but for its conditions.
  abbrev pub Submitted :
      String → Dict → ℕ → CertificateRequest → Outcome Return × State Memory → Type 0
  Submitted id m n cr r =
      (r.0 ≡ returned done)
      × ((r.1.memory.request ≡ record cr {
        metadata = record (cr.metadata) { annotations = some (insert request_id id m) };
        conditions = r.1.memory.request.conditions;
      })
          × (orders r.1 ≡ suc n))

  module _ (client : Client) (cr : CertificateRequest) (c : Accepts env client cr) (m : Dict) where
    submit-Submitted :
        (body : Submission) (message : String) (s : State Memory)
        → is_order (request_submit client body) ≡ true
        → s.memory.request.metadata.annotations ≡ some m
        → Submitted c.id m (orders s) s.memory.request (submit env client body message s)
    unfolding submit submitted annotate set_condition
    submit-Submitted body message s ordered h = ground (arith, c.taken s.history body)

    renew-Submitted :
        (id : String) (s : State Memory)
        → s.memory.client ≡ some client
        → s.memory.request.metadata.annotations ≡ some m
        → Submitted c.id m (orders s) s.memory.request (submit_renew_request env id s)
    unfolding submit_renew_request
    renew-Submitted id s k h = ground (
      arith,
      submit-Submitted (renew id s.memory.request.request) "Submitted renewal request to Horizon" s
          refl h,
    )

    submit_enroll_request-Submitted :
        (spec : IssuerSpec) (labels : List LabelElement) (owner team email : Option String)
        (s : State Memory)
        → s.memory.client ≡ some client
        → s.memory.request.metadata.annotations ≡ some m
        → Submitted c.id m
            (orders s)
            s.memory.request
            (submit_enroll_request env spec labels owner team email s)
    unfolding submit_enroll_request enroll_request set_value
    submit_enroll_request-Submitted spec labels owner team email s k h =
        grind (arith, submit-Submitted, c.templated, c.has_email, c.has_owner, c.has_team)

    enroll-Submitted :
        (spec : IssuerSpec) (s : State Memory)
        → s.memory.client ≡ some client
        → s.memory.request.metadata.annotations ≡ some m
        → env.lib.new_object s.memory.request.issuer_ref.kind ≢ ok not_an_object
        → Submitted c.id m (orders s) s.memory.request (enroll env spec s)
    unfolding enroll set_not_ready set_condition
    enroll-Submitted spec s k h kind = grind (
      arith,
      certificate_metadata-usable env s.memory.request s kind,
      certificate_metadata-memory env s.memory.request s,
      certificate_metadata-orders env s.memory.request s,
      submit_enroll_request-Submitted,
    )

    submit_first-Submitted :
        (spec : IssuerSpec) (s : State Memory)
        → s.memory.client ≡ some client
        → s.memory.request.metadata.annotations ≡ some m
        → env.lib.new_object s.memory.request.issuer_ref.kind ≢ ok not_an_object
        → env.cluster.get_certificate s.history (certificate_name s.memory.request)
          ≡ (c.certificate, none)
        → Submitted c.id m (orders s) s.memory.request (submit_first env spec s)
    unfolding submit_first certificate_from_request
    submit_first-Submitted spec s k h kind same =
        let fetched = record s {
          history = get_certificate (certificate_name s.memory.request) ∷ s.history;
        } in
        let last =
          get_or (get_annotation last_certificate_id c.certificate.metadata.annotations) "" in
        ground (
          arith,
          same,
          c.issuing,
          enroll-Submitted spec fetched k h kind,
          renew-Submitted last fetched k h,
        )

    pub process-Submitted :
        (spec : IssuerSpec) (s : State Memory)
        → s.memory.client ≡ some client
        → s.memory.request.metadata.annotations ≡ some m
        → env.lib.new_object s.memory.request.issuer_ref.kind ≢ ok not_an_object
        → env.cluster.get_certificate s.history (certificate_name s.memory.request)
          ≡ (c.certificate, none)
        → spec.dns_checker ≡ none
        → env.lib.request_is_denied s.memory.request.conditions ≡ false
        → env.lib.request_is_approved s.memory.request.conditions ≡ false
        → lookup request_id m ≡ none
        → Submitted c.id m (orders s) s.memory.request (process env spec s)
    unfolding process check_dns
    process-Submitted spec s k h kind same unchecked undenied unapproved new = ground (
      arith,
      h,
      unchecked,
      undenied,
      unapproved,
      new,
      submit_first-Submitted spec s k h kind same,
    )
