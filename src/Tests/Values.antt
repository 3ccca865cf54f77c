-- ===== src/Tests/Values.antt =====
-- Concrete values for the tests: libraries that behave as documented on them, and objects.
use horizon_issuer.Common.{
  String, Bool, true, false, Option, none, some, List, [], ◌∷◌, ◌&&◌, ◌||◌, not, is_some, ◌or_else◌,
  if◌then◌else◌,
}
use horizon_issuer.Common.Text.{◌<>◌, ◌==◌, is_empty}
use horizon_issuer.Common.Dict.{Dict}
use horizon_issuer.Errors.{Error, plain, Result, ok, err}
use horizon_issuer.Api.{
  ObjectMeta, ConditionStatus, is_true, is_false, is_unknown, Condition, IssuerSpec, Issuer,
  RequestConditionKind, ready, invalid_request, approved, denied, RequestCondition,
  CertificateRequest, CertificateCondition, Certificate, Secret, opaque, get_annotation,
  issuer_condition_ready, group,
}
use horizon_issuer.Sdk.{
  Client, password_auth, TemplateResponse, IssuedCertificate, CfCertificate, completed,
}
use horizon_issuer.Effects.Env.{
  Cluster, Horizon, SchemeObject, an_issuer, a_cluster_issuer, not_an_object, Libraries, Env,
}

abbrev pub same_kind : RequestConditionKind → RequestConditionKind → Bool
same_kind ready ready = true
same_kind invalid_request invalid_request = true
same_kind approved approved = true
same_kind denied denied = true
same_kind _ _ = false

abbrev pub same_status : ConditionStatus → ConditionStatus → Bool
same_status is_true is_true = true
same_status is_false is_false = true
same_status is_unknown is_unknown = true
same_status _ _ = false

-- The first condition of a type counts.
abbrev pub has_condition :
    List RequestCondition → RequestConditionKind → ConditionStatus → String → Bool
has_condition [] k s reason = false
has_condition (c ∷ cs) k s reason =
    if same_kind c.kind k
    then same_status c.status s && (is_empty reason || c.reason == reason)
    else has_condition cs k s reason

abbrev pub find_condition : List Condition → String → Option Condition
find_condition [] k = none
find_condition (c ∷ cs) k = if c.kind == k then some c else find_condition cs k

abbrev find_certificate_condition : List CertificateCondition → String → Option CertificateCondition
find_certificate_condition [] k = none
find_certificate_condition (c ∷ cs) k =
    if c.kind == k then some c else find_certificate_condition cs k

abbrev contains : List String → String → Bool
contains [] f = false
contains (g ∷ gs) f = g == f || contains gs f

abbrev remove : List String → String → List String
remove [] f = []
remove (g ∷ gs) f = if g == f then remove gs f else g ∷ remove gs f

abbrev first_error : List (Option Error) → Option Error
first_error [] = none
first_error (e ∷ es) = e or_else first_error es

abbrev object_of : String → Result SchemeObject
object_of kind =
    if "Issuer" == kind
    then ok an_issuer
    else if "IssuerList" == kind
    then ok not_an_object
    else if "ClusterIssuer" == kind
    then ok a_cluster_issuer
    else if "ClusterIssuerList" == kind
    then ok not_an_object
    else if "ListOptions" == kind
    then ok not_an_object
    else err (plain "no kind is registered")

abbrev pub lib : Libraries
lib = record {
  set_request_condition = λ cs c. c ∷ cs;
  request_has_condition = has_condition;
  request_is_approved = λ cs. has_condition cs approved is_true "";
  request_is_denied = λ cs. has_condition cs denied is_true "";
  get_certificate_condition = find_certificate_condition;
  decode_csr = λ csr. ok (record { common_name = csr; dns_names = [] });
  set_status_condition = λ cs c. c ∷ cs;
  find_status_condition = find_condition;
  has_annotation = λ m k. is_some (get_annotation k m);
  new_aggregate = first_error;
  name_text = λ n. n.namespace <> ("/" <> n.name);
  new_object = object_of;
  ignore_not_found = some;
  contains_finalizer = contains;
  add_finalizer = λ fs f. f ∷ fs;
  remove_finalizer = remove;
  append_certs_from_pem = λ pem. not (is_empty pem);
  parse_url = λ _. none;
  x509_key_pair = λ _ _. none;
  subject_from_response = λ j. j;
  sans_from_response = λ j. j;
  extensions_from_response = λ j. j;
  metadata_from_response = λ j. j;
  contact_email_from_response = λ j. some (record { value = none; rest = j });
  owner_from_response = λ j. some (record { value = none; rest = j });
  team_from_response = λ j. some (record { value = none; rest = j });
}

abbrev pub meta : Option Dict → ObjectMeta
meta annotations = record {
  namespace = "web";
  name = "shop";
  generation = 1;
  annotations = annotations;
  finalizers = [];
  deletion_timestamp = none;
  owner_references = [];
}

abbrev pub plain_spec : IssuerSpec
plain_spec = record {
  url = "https://horizon/";
  proxy = none;
  profile = "web";
  auth_secret_name = "login";
  ca_bundle = none;
  skip_tls_verify = false;
  revoke_certificates = false;
  default_template = none;
  override_template = none;
  dns_checker = none;
}

abbrev pub ready_condition : Condition
ready_condition = record {
  kind = issuer_condition_ready;
  status = is_true;
  observed_generation = 1;
  reason = "Success";
  message = "Health check succeeded";
}

abbrev pub ready_issuer : Issuer
ready_issuer = record {
  metadata = meta none;
  spec = plain_spec;
  status = record { conditions = ready_condition ∷ [] };
}

abbrev pub login : Secret
login = record {
  name = "login";
  secret_type = opaque;
  contents = ("username", "ann") ∷ (("password", "secret") ∷ []);
}

-- The client that the two above make.
abbrev pub ann : Client
ann = record {
  url = "https://horizon";
  insecure_skip_verify = false;
  root_cas = none;
  proxy = none;
  auth = password_auth "ann" "secret";
}

abbrev pub request : Option Dict → List RequestCondition → CertificateRequest
request annotations conditions = record {
  metadata = meta annotations;
  issuer_ref = record { name = "horizon"; kind = "Issuer"; group = group };
  request = "csr";
  conditions = conditions;
  certificate = "";
  ca = "";
  failure_time = none;
}

-- A Certificate up for the reason, with its last certificate's id.
abbrev pub parent : String → Certificate
parent reason = record {
  metadata = meta (some (("horizon.evertrust.io/last-certificate-id", "c0") ∷ []));
  conditions = record { kind = "Issuing"; reason = reason } ∷ [];
}

abbrev pub cluster : CertificateRequest → Certificate → Cluster
cluster cr certificate = record {
  get_request = λ _ _. ok cr;
  get_issuer = λ _ _. ok ready_issuer;
  get_cluster_issuer = λ _ _. err (plain "no cluster issuer");
  get_secret = λ _ _. ok login;
  get_certificate = λ _ _. (certificate, none);
  get_ingress = λ _ _. (record { annotations = none }, some (plain "no ingress"));
  update_request = λ _ sent. (sent, none);
  update_request_status = λ _ sent. (sent, none);
  update_certificate = λ _ _. none;
  update_issuer_status = λ _ _. none;
}

abbrev pub template : TemplateResponse
template = record {
  workflow = "enroll";
  module_name = "webra";
  profile = "web";
  subject = "{}";
  sans = "[]";
  extensions = "[]";
  labels = "[]";
  contact_email = "{}";
  owner = "{}";
  team = "{}";
  metadata = "[]";
}

abbrev pub issued : IssuedCertificate
issued = record {
  certificate = "leaf";
  id = "c1";
  owner = "ann";
  team = "web";
  contact_email = "ann@web";
  labels = ("env", "prod") ∷ [];
}

abbrev pub leaf : CfCertificate
leaf = record { pem = "leaf"; self_signed = false }

abbrev pub root : CfCertificate
root = record { pem = "root"; self_signed = true }

-- A Horizon that takes everything, and one that takes nothing new and has no chains.
abbrev pub open_horizon : Horizon
open_horizon = record {
  request_template = λ _ _ _. ok (some template);
  request_submit = λ _ _ _. ok (some "r1");
  request_get = λ _ _ _. ok (some (record { status = completed; certificate = issued }));
  tc_pem = λ _ _ _. ok (leaf ∷ (root ∷ []));
  principal_self = λ _ _. none;
}

abbrev pub closed_horizon : Horizon
closed_horizon = record {
  request_template = λ _ _ _. err (plain "refused");
  request_submit = λ _ _ _. err (plain "refused");
  request_get = λ _ _ _. ok (some (record { status = completed; certificate = issued }));
  tc_pem = λ _ _ _. err (plain "no chain");
  principal_self = λ _ _. some (plain "down");
}

abbrev pub env : Horizon → CertificateRequest → Certificate → Env
env horizon cr certificate = record {
  cluster = cluster cr certificate;
  horizon = horizon;
  lib = lib;
  lookup_host = λ _ _ name. if name == "csr" then some (plain "no such host") else none;
  clock_now = λ _. 1000;
  time_now = λ _. 1000;
}
