-- ===== src/RequestController/Returns.antt =====
-- internal/controller/certificaterequest_controller.go: the pointers that the reconciler
-- dereferences.
pub mod Process
pub mod Reconcile
use horizon_issuer.Common.{String, Bool, true, false, ◌&&◌, none, ◌≡◌, ◌≢◌, is_some}
use horizon_issuer.Errors.{ok}
use horizon_issuer.Api.{CertificateRequest, NamespacedName}
use horizon_issuer.Sdk.{Client, Json, TemplateRequest, Submission}
use horizon_issuer.Effects.{History, State, Outcome, returned, panicked}
use horizon_issuer.Effects.Env.{Env, not_an_object}
use horizon_issuer.Horizon.Requests.{Memory}

abbrev pub is_returned : {A : Type 0} → Outcome A → Bool
is_returned (returned _) = true
is_returned panicked = false

-- Horizon answers with the enrolment variant, and its templates have the fields that are filled in.
pub record Answered (env : Env) : Type 0 where
  pub template :
      (h : History) (client : Client) (question : TemplateRequest)
      → env.horizon.request_template h client question ≢ ok none
  pub submission :
      (h : History) (client : Client) (body : Submission)
      → env.horizon.request_submit h client body ≢ ok none
  pub request :
      (h : History) (client : Client) (id : String) → env.horizon.request_get h client id ≢ ok none
  pub email : (j : Json) → env.lib.contact_email_from_response j ≢ none
  pub owner : (j : Json) → env.lib.owner_from_response j ≢ none
  pub team : (j : Json) → env.lib.team_from_response j ≢ none

-- A Certificate that is got has an Issuing condition.
abbrev pub IssuingCertificates : Env → Type 0
IssuingCertificates env =
    (h : History) (name : NamespacedName)
    → (env.cluster.get_certificate h name).1 ≡ none
    → env.lib.get_certificate_condition (env.cluster.get_certificate h name).0.conditions "Issuing"
      ≢ none

-- The kind of its issuer is one of an object, and its annotations are not nil.
abbrev pub IsSound : Env → CertificateRequest → Type 0
IsSound env cr =
    (env.lib.new_object cr.issuer_ref.kind ≢ ok not_an_object)
    × (is_some cr.metadata.annotations ≡ true)
