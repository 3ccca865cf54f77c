-- ===== src/Tests/Renewals.antt =====
-- The parent Certificate, and enrolments without metadata, on concrete requests.
use horizon_issuer.Common.{some, none, [], ◌∷◌, ◌≡◌, refl}
use horizon_issuer.Errors.{plain}
use horizon_issuer.Api.{IssuerSpec, CertificateRequest, Certificate}
use horizon_issuer.Sdk.{renew, enroll}
use horizon_issuer.Effects.{
  State, returned, fail, update_certificate, get_certificate, request_submit, request_template,
}
use horizon_issuer.Effects.Env.{Env}
use horizon_issuer.Horizon.Requests.{set_condition, Memory, template_request}
use horizon_issuer.IssuerUtil.{certificate_from_request}
use horizon_issuer.RequestController.Lookup.{issuer_from_request, ingress_from_certificate}
use horizon_issuer.RequestController.Deletion.{record_event, save_request}
use horizon_issuer.RequestController.Finish.{
  covers, record_failure, set_not_ready, update_parent, finish, write_request, record_outcome,
  deep_equal,
}
use horizon_issuer.RequestController.Finish.Parent.{finish-written}
use horizon_issuer.RequestController.Metadata.{no_metadata, certificate_metadata}
use horizon_issuer.RequestController.Process
use horizon_issuer.RequestController.Process.Renewal.{submit_first-update_parent}
use horizon_issuer.RequestController.Process.Unlabelled.{plain_enrolment, enroll-unlabelled}
use horizon_issuer.Tests.Values.{
  request, parent, open_horizon, env, cluster, ann, plain_spec, template, meta,
}

abbrev start : CertificateRequest → State Memory
start cr = record { memory = record { request = cr; client = some ann }; history = [] }

abbrev issued_request : CertificateRequest
issued_request = request (some (("horizon.evertrust.io/certificate-id", "c0") ∷ [])) []

abbrev renewing : Env
renewing = env open_horizon issued_request (parent "Renewing")

submit_first-update_parent_example :
    ((update_parent renewing (start issued_request)).1.history
      ≡ update_certificate (parent "Renewing")
        ∷ (get_certificate (record { namespace = "web"; name = "" }) ∷ []))
    × ((Process.submit_first renewing plain_spec (start issued_request)).1.history
        ≡ request_submit ann (renew "c0" "csr")
          ∷ (get_certificate (record { namespace = "web"; name = "" }) ∷ []))
submit_first-update_parent_example =
    submit_first-update_parent renewing (start issued_request) "c0" (λ m k. refl) refl refl
      (parent "Renewing") refl plain_spec (start issued_request) ann (parent "Renewing")
      (record { kind = "Issuing"; reason = "Renewing" }) refl refl refl refl refl

-- An API server that refuses the update of the parent.
abbrev refusing : Env
refusing = record renewing {
  cluster = record (cluster issued_request (parent "Renewing")) {
    update_certificate = λ _ _. some (plain "conflict");
  };
}

finish-written_example :
    (finish refusing (some []) (fail (plain "lost")) (start issued_request)).0
    ≡ returned (fail (plain "lost"))
unfolding write_request deep_equal record_outcome record_failure set_not_ready set_condition
    record_event covers save_request
finish-written_example =
    finish-written refusing (some []) (fail (plain "lost")) (start issued_request) refl

-- A Certificate of an Ingress that cannot be fetched, and an issuer that enforces an owner.
abbrev owned_parent : Certificate
owned_parent = record (parent "") {
  metadata = record (meta none) {
    owner_references =
        record { api_version = "networking.k8s.io/v1"; kind = "Ingress"; name = "shop" } ∷ [];
  };
}

abbrev enforcing_spec : IssuerSpec
enforcing_spec = record plain_spec {
  override_template =
      some (record { labels = []; owner = some "security"; team = none; contact_email = none });
}

abbrev new_request : CertificateRequest
new_request = request (some []) []

abbrev without_ingress : Env
without_ingress = env open_horizon new_request owned_parent

enroll-unlabelled_example :
    (Process.enroll without_ingress enforcing_spec (start new_request)).1.history
    ≡ request_submit ann (enroll (plain_enrolment without_ingress template "csr"))
      ∷ (request_template ann (template_request enforcing_spec "csr")
          ∷ (certificate_metadata without_ingress new_request (start new_request)).1.history)
unfolding certificate_metadata issuer_from_request certificate_from_request ingress_from_certificate
enroll-unlabelled_example =
    enroll-unlabelled without_ingress enforcing_spec (start new_request) ann template no_metadata
      (plain "no ingress") refl refl refl
