-- ===== src/Api.antt =====
-- api/v1beta1, and the Kubernetes and cert-manager objects as far as the program reads or writes
-- them. A `*string` is an `Option`; an annotation map is `none` where Go has a nil map. Times are
-- numbers. The transition time of a condition is left out, as nothing reads it.
use horizon_issuer.Common.{ℕ, String, Bool, Option, none, some, List, []}
use horizon_issuer.Common.Dict.{Dict, lookup}

pub record NamespacedName : Type 0 where
  pub namespace : String
  pub name : String

pub record OwnerReference : Type 0 where
  pub api_version : String
  pub kind : String
  pub name : String

-- `metav1.ObjectMeta`
pub record ObjectMeta : Type 0 where
  pub namespace : String
  pub name : String
  pub generation : ℕ
  pub annotations : Option Dict
  pub finalizers : List String
  pub deletion_timestamp : Option ℕ
  pub owner_references : List OwnerReference

-- `metav1.ConditionStatus`, `cmmeta.ConditionStatus`
pub data ConditionStatus : Type 0 where
  is_true is_false is_unknown : ConditionStatus

-- `metav1.Condition`
pub record Condition : Type 0 where
  pub kind : String
  pub status : ConditionStatus
  pub observed_generation : ℕ
  pub reason : String
  pub message : String

-- `IssuerTemplate`
pub record IssuerTemplate : Type 0 where
  pub labels : Dict
  pub owner : Option String
  pub team : Option String
  pub contact_email : Option String

-- `IssuerDnsChecker`
pub record IssuerDnsChecker : Type 0 where
  pub server : String

-- `IssuerSpec`
pub record IssuerSpec : Type 0 where
  pub url : String
  pub proxy : Option String
  pub profile : String
  pub auth_secret_name : String
  pub ca_bundle : Option String
  pub skip_tls_verify : Bool
  pub revoke_certificates : Bool
  pub default_template : Option IssuerTemplate
  pub override_template : Option IssuerTemplate
  pub dns_checker : Option IssuerDnsChecker

-- `IssuerStatus`
pub record IssuerStatus : Type 0 where
  pub conditions : List Condition

pub record Issuer : Type 0 where
  pub metadata : ObjectMeta
  pub spec : IssuerSpec
  pub status : IssuerStatus

pub record ClusterIssuer : Type 0 where
  pub metadata : ObjectMeta
  pub spec : IssuerSpec
  pub status : IssuerStatus

-- A `client.Object`, as the type switches on it tell them apart.
pub data ClientObject : Type 0 where
  issuer : Issuer → ClientObject
  cluster_issuer : ClusterIssuer → ClientObject
  other : ClientObject

-- `GroupVersion.Group`
abbrev pub group : String
group = "horizon.evertrust.io"

-- `IssuerConditionReady`
abbrev pub issuer_condition_ready : String
issuer_condition_ready = "Ready"

-- The condition types of a cert-manager CertificateRequest.
pub data RequestConditionKind : Type 0 where
  ready invalid_request approved denied : RequestConditionKind

pub record RequestCondition : Type 0 where
  pub kind : RequestConditionKind
  pub status : ConditionStatus
  pub reason : String
  pub message : String

pub record IssuerRef : Type 0 where
  pub name : String
  pub kind : String
  pub group : String

-- A cert-manager CertificateRequest: `Spec.IssuerRef`, `Spec.Request` and `Status`.
pub record CertificateRequest : Type 0 where
  pub metadata : ObjectMeta
  pub issuer_ref : IssuerRef
  pub request : String
  pub conditions : List RequestCondition
  pub certificate : String
  pub ca : String
  pub failure_time : Option ℕ

pub record CertificateCondition : Type 0 where
  pub kind : String
  pub reason : String

-- A cert-manager Certificate.
pub record Certificate : Type 0 where
  pub metadata : ObjectMeta
  pub conditions : List CertificateCondition

-- A networking.k8s.io Ingress: only its annotations are read.
pub record Ingress : Type 0 where
  pub annotations : Option Dict

-- `secret.Type`
pub data SecretType : Type 0 where
  tls opaque : SecretType
  unsupported : String → SecretType

pub record Secret : Type 0 where
  pub name : String
  pub secret_type : SecretType
  pub contents : Dict

-- A `range` over a map that may be nil, and a read from one.
abbrev pub entries : Option Dict → Dict
entries none = []
entries (some m) = m

abbrev pub get_annotation : String → Option Dict → Option String
get_annotation k m = lookup k (entries m)
