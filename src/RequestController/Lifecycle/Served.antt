-- ===== src/RequestController/Lifecycle/Served.antt =====
-- internal/controller/certificaterequest_controller.go: the issuer of a request, of either kind, as the
-- API server gives it.
use horizon_issuer.Common.{String, ◌∷◌, ◌≡◌, ◌≢◌, refl}
use horizon_issuer.Errors.{ok}
use horizon_issuer.Api.{
  NamespacedName, CertificateRequest, IssuerSpec, IssuerStatus, IssuerRef, Issuer, ClusterIssuer,
}
use horizon_issuer.Effects.{get_issuer, get_cluster_issuer, Call, History}
use horizon_issuer.Effects.Env.{Env, an_issuer, a_cluster_issuer, not_an_object}
use horizon_issuer.RequestController.Lifecycle.{stored_after}
use horizon_issuer.Effects.Count.{count, is_order}

-- The issuer of a request, of either kind.
pub data FoundIssuer : Type 0 where
  in_namespace : Issuer → FoundIssuer
  in_cluster : ClusterIssuer → FoundIssuer

abbrev pub spec_of : FoundIssuer → IssuerSpec
spec_of (in_namespace i) = i.spec
spec_of (in_cluster i) = i.spec

abbrev pub status_of : FoundIssuer → IssuerStatus
status_of (in_namespace i) = i.status
status_of (in_cluster i) = i.status

-- It is what the API server answers for the reference, which is of its kind.
abbrev pub IsServed : Env → IssuerRef → (namespace : String) → FoundIssuer → Type 0
IsServed env ref namespace (in_namespace i) =
    (env.lib.new_object ref.kind ≡ ok an_issuer)
    × ((h : History)
        → env.cluster.get_issuer h (record { namespace = namespace; name = ref.name }) ≡ ok i)
IsServed env ref namespace (in_cluster i) =
    (env.lib.new_object ref.kind ≡ ok a_cluster_issuer)
    × ((h : History)
        → env.cluster.get_cluster_issuer h (record { namespace = ""; name = ref.name }) ≡ ok i)

-- The call that gets it.
abbrev pub get_of : IssuerRef → (namespace : String) → FoundIssuer → Call
get_of ref namespace (in_namespace _) =
    get_issuer (record { namespace = namespace; name = ref.name })
get_of ref namespace (in_cluster _) =
    get_cluster_issuer (record { namespace = ""; name = ref.name })

-- The namespace of its secret: the request's, or the one for the secrets of cluster issuers.
abbrev pub secret_namespace_of : (ns namespace : String) → FoundIssuer → String
secret_namespace_of ns namespace (in_namespace _) = namespace
secret_namespace_of ns namespace (in_cluster _) = ns

abbrev pub secret_of : (ns namespace : String) → FoundIssuer → NamespacedName
secret_of ns namespace found = record {
  name = (spec_of found).auth_secret_name;
  namespace = secret_namespace_of ns namespace found;
}

-- A kind of issuer is one of an object.
pub served-HasObject :
    (env : Env) (ref : IssuerRef) (namespace : String) (found : FoundIssuer)
    → IsServed env ref namespace found
    → env.lib.new_object ref.kind ≢ ok not_an_object
served-HasObject env ref namespace (in_namespace i) (kind, fetched) = λ e. cc
served-HasObject env ref namespace (in_cluster i) (kind, fetched) = λ e. cc

pub stored-get_of :
    (init : CertificateRequest) (ref : IssuerRef) (namespace : String) (found : FoundIssuer)
    (h : History)
    → stored_after init (get_of ref namespace found ∷ h) ≡ stored_after init h
stored-get_of init ref namespace (in_namespace i) h = refl
stored-get_of init ref namespace (in_cluster i) h = refl

pub orders-get_of :
    (ref : IssuerRef) (namespace : String) (found : FoundIssuer) (h : History)
    → count is_order (get_of ref namespace found ∷ h) ≡ count is_order h
orders-get_of ref namespace (in_namespace i) h = refl
orders-get_of ref namespace (in_cluster i) h = refl
