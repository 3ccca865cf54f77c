-- ===== src/Effects/Env.antt =====
-- Everything outside the repository that the reconcilers call: the API server, Horizon, DNS, the
-- clocks, and the functions of cert-manager, controller-runtime, the SDK and Go's crypto packages.
use horizon_issuer.Common.{ℕ, String, Bool, Option, List}
use horizon_issuer.Common.Dict.{Dict}
use horizon_issuer.Errors.{Error, Result}
use horizon_issuer.Api.{
  NamespacedName, Secret, Certificate, Ingress, ClientObject, Issuer, ClusterIssuer, Condition,
  CertificateRequest, CertificateCondition, RequestCondition, RequestConditionKind, ConditionStatus,
}
use horizon_issuer.Sdk.{
  Json, Client, TemplateRequest, TemplateResponse, TemplateField, Submission, RequestOnGet,
  CfCertificate,
}
use horizon_issuer.Effects.{History}

-- The API server, as the answer to a call after the calls so far. A get of a Certificate or of an
-- Ingress gives the object too when it fails; an update of a request gives what the object in
-- memory holds after it.
pub record Cluster : Type 0 where
  pub get_request : History → NamespacedName → Result CertificateRequest
  pub get_issuer : History → NamespacedName → Result Issuer
  pub get_cluster_issuer : History → NamespacedName → Result ClusterIssuer
  pub get_secret : History → NamespacedName → Result Secret
  pub get_certificate : History → NamespacedName → Certificate × Option Error
  pub get_ingress : History → NamespacedName → Ingress × Option Error
  pub update_request : History → CertificateRequest → CertificateRequest × Option Error
  pub update_request_status : History → CertificateRequest → CertificateRequest × Option Error
  pub update_certificate : History → Certificate → Option Error
  pub update_issuer_status : History → ClientObject → Option Error

-- Horizon; the inner `Option` is the pointer to the enrolment variant of the answer, which is nil
-- where Horizon answers with another variant.
pub record Horizon : Type 0 where
  pub request_template : History → Client → TemplateRequest → Result (Option TemplateResponse)
  pub request_submit : History → Client → Submission → Result (Option String)
  pub request_get : History → Client → String → Result (Option RequestOnGet)
  pub tc_pem : History → Client → String → Result (List CfCertificate)
  pub principal_self : History → Client → Option Error

-- What `runtime.Scheme.New` gives for a kind of this API group: one of the two kinds of issuer, or
-- something that is registered and is no `client.Object`, such as a list of issuers.
pub data SchemeObject : Type 0 where
  an_issuer a_cluster_issuer not_an_object : SchemeObject

-- What `pki.DecodeX509CertificateRequestBytes` gives, as far as it is read.
pub record Csr : Type 0 where
  pub common_name : String
  pub dns_names : List String

-- The library functions, which neither call out nor change what they are not given.
pub record Libraries : Type 0 where
  -- cert-manager, pkg/api/util; an empty reason stands for any
  pub set_request_condition : List RequestCondition → RequestCondition → List RequestCondition
  pub request_has_condition :
      List RequestCondition → RequestConditionKind → ConditionStatus → String → Bool
  pub request_is_approved : List RequestCondition → Bool
  pub request_is_denied : List RequestCondition → Bool
  pub get_certificate_condition : List CertificateCondition → String → Option CertificateCondition
  pub decode_csr : String → Result Csr
  -- apimachinery
  pub set_status_condition : List Condition → Condition → List Condition
  pub find_status_condition : List Condition → String → Option Condition
  pub has_annotation : Option Dict → String → Bool
  pub new_aggregate : List (Option Error) → Option Error
  pub name_text : NamespacedName → String
  pub new_object : String → Result SchemeObject
  -- controller-runtime
  pub ignore_not_found : Error → Option Error
  pub contains_finalizer : List String → String → Bool
  pub add_finalizer : List String → String → List String
  pub remove_finalizer : List String → String → List String
  -- Go's crypto and net/url
  pub append_certs_from_pem : String → Bool
  pub parse_url : String → Option Error
  pub x509_key_pair : String → String → Option Error
  -- the SDK's conversions of a template response
  pub subject_from_response : Json → Json
  pub sans_from_response : Json → Json
  pub extensions_from_response : Json → Json
  pub metadata_from_response : Json → Json
  pub contact_email_from_response : Json → Option TemplateField
  pub owner_from_response : Json → Option TemplateField
  pub team_from_response : Json → Option TemplateField

pub record Env : Type 0 where
  pub cluster : Cluster
  pub horizon : Horizon
  pub lib : Libraries
  -- `net.Resolver.LookupHost` on a server
  pub lookup_host : History → String → String → Option Error
  -- `r.Clock.Now()` and `time.Now()`
  pub clock_now : History → ℕ
  pub time_now : History → ℕ
