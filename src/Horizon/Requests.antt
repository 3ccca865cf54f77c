-- ===== src/Horizon/Requests.antt =====
-- internal/issuer/horizon/issuer.go: the methods of HorizonIssuer, on the request in memory.
use horizon_issuer.Common.{String, Option, none, some, List, [], ◌∷◌}
use horizon_issuer.Common.Text.{◌<>◌}
use horizon_issuer.Common.Dict.{Dict, insert}
use horizon_issuer.Errors.{Error, wrapped, ok, err}
use horizon_issuer.Api.{
  CertificateRequest, RequestCondition, ready, invalid_request, is_true, is_false, IssuerSpec,
}
use horizon_issuer.Sdk.{
  Client, LabelElement, TemplateField, TemplateRequest, TemplateResponse, EnrollRequest, Submission,
  enroll, renew, revoke,
}
use horizon_issuer.Effects.{
  request_template, request_submit, M, pure, ask, gets, deref, ◌>>=◌, ◌>>◌, modify, Return, done,
  fail,
}
use horizon_issuer.Effects.Env.{Env}
use horizon_issuer.Horizon.Annotations.{request_id, label_annotation}
use horizon_issuer.Horizon.ApiError.{format_api_error}

-- What the reconciler of requests holds in memory: the request, and `r.Issuer.Client`, which is
-- not set before the first client is built.
pub record Memory : Type 0 where
  pub request : CertificateRequest
  pub client : Option Client

-- `certificateRequest.Annotations[k] = v`, which panics on a nil map.
unfoldable pub annotate : String → String → M Memory (Unit {0})
annotate k v = do
  m ← gets (λ w. w.request.metadata.annotations)
  annotations ← deref m
  modify (λ w. record w {
    request = record (w.request) {
      metadata = record (w.request.metadata) { annotations = some (insert k v annotations) };
    };
  })

unfoldable pub annotate_all : Dict → M Memory (Unit {0})
unfolding annotate
annotate_all [] = pure tt
annotate_all ((k, v) ∷ labels) = do annotate (label_annotation <> ("." <> k)) v; annotate_all labels

-- A field that `SetValue` is called on: a nil pointer panics.
unfoldable pub set_value : Option String → Option TemplateField → M Memory (Option TemplateField)
set_value none field = pure field
set_value (some v) field = do f ← deref field; pure (some (record f { value = some v }))

abbrev pub template_request : IssuerSpec → String → TemplateRequest
template_request spec csr = record { profile = spec.profile; csr = csr }

module _ (env : Env) where
  -- `cmutil.SetCertificateRequestCondition(certificateRequest, …)`
  unfoldable pub set_condition : RequestCondition → M Memory (Unit {0})
  set_condition c = modify (λ w. record w {
    request = record (w.request) {
      conditions = env.lib.set_request_condition w.request.conditions c;
    };
  })

  unfoldable pub handle_failed_request : Error → M Memory Return
  unfolding set_condition
  handle_failed_request e = do
    let msg = format_api_error (some e)
    set_condition
        (record { kind = invalid_request; status = is_true; reason = "Failed"; message = msg })
    pure (fail (wrapped msg e))

  -- The submission that the template's answer and the arguments make.
  unfoldable pub enroll_request :
      TemplateResponse
      → List LabelElement
      → (owner team contact_email : Option String) → M Memory EnrollRequest
  unfolding set_value
  enroll_request t labels owner team contact_email = do
    csr ← gets (λ w. w.request.request)
    owner_field ← set_value owner (env.lib.owner_from_response t.owner)
    team_field ← set_value team (env.lib.team_from_response t.team)
    email_field ← set_value contact_email (env.lib.contact_email_from_response t.contact_email)
    pure (record {
      workflow = t.workflow;
      module_name = t.module_name;
      profile = t.profile;
      subject = env.lib.subject_from_response t.subject;
      sans = env.lib.sans_from_response t.sans;
      extensions = env.lib.extensions_from_response t.extensions;
      labels = labels;
      contact_email = email_field;
      owner = owner_field;
      team = team_field;
      metadata = env.lib.metadata_from_response t.metadata;
      csr = csr;
    })

  -- What follows an accepted submission.
  unfoldable pub submitted : Option String → String → M Memory Return
  unfolding annotate set_condition
  submitted answer message = do
    id ← deref answer
    annotate request_id id
    set_condition
        (record { kind = ready; status = is_false; reason = "Pending"; message = message })
    pure done

  -- `r.Client.RequestAPI.RequestSubmit(…).Execute()` and its two outcomes.
  unfoldable pub submit : Client → Submission → String → M Memory Return
  unfolding submitted handle_failed_request
  submit client body message = do
    answer ← ask (request_submit client body) (λ h. env.horizon.request_submit h client body)
    elim answer [ err e ↦ handle_failed_request e | ok id ↦ submitted id message ]

  unfoldable pub submit_enroll_request :
      IssuerSpec → List LabelElement → (owner team contact_email : Option String) → M Memory Return
  unfolding enroll_request submit handle_failed_request
  submit_enroll_request spec labels owner team contact_email = do
    c ← gets (λ w. w.client)
    client ← deref c
    csr ← gets (λ w. w.request.request)
    let question = template_request spec csr
    answer ←
        ask (request_template client question) (λ h. env.horizon.request_template h client question)
    elim answer [
      | err e ↦ handle_failed_request e
      | ok response ↦ do
        template ← deref response
        req ← enroll_request template labels owner team contact_email
        submit client (enroll req) "Submitted enrollment request to Horizon"
    ]

  unfoldable pub submit_renew_request : (last_certificate_id : String) → M Memory Return
  unfolding submit
  submit_renew_request last_id = do
    c ← gets (λ w. w.client)
    client ← deref c
    csr ← gets (λ w. w.request.request)
    submit client (renew last_id csr) "Submitted renewal request to Horizon"

  unfoldable pub revoke_certificate : M Memory (Option Error)
  revoke_certificate = do
    c ← gets (λ w. w.client)
    client ← deref c
    pem ← gets (λ w. w.request.certificate)
    answer ←
        ask (request_submit client (revoke pem))
          (λ h. env.horizon.request_submit h client (revoke pem))
    pure (elim answer [ err e ↦ some e | ok _ ↦ none ])
