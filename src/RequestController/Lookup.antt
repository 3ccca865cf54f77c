-- ===== src/RequestController/Lookup.antt =====
-- internal/controller/certificaterequest_controller.go: issuerFromRequest, ingressFromCertificate.
pub mod Kinds
use horizon_issuer.Common.{String, Option, none, some, List, [], ◌∷◌, ◌&&◌, if◌then◌else◌}
use horizon_issuer.Common.Text.{◌==◌}
use horizon_issuer.Errors.{Error, errorf, Result, ok, err}
use horizon_issuer.Api.{
  NamespacedName, OwnerReference, CertificateRequest, Certificate, Ingress, ClientObject, issuer,
  cluster_issuer,
}
use horizon_issuer.Effects.{get_issuer, get_cluster_issuer, get_ingress, M, pure, panic, ask, ◌>>=◌}
use horizon_issuer.Effects.Env.{Env, an_issuer, a_cluster_issuer, not_an_object}
use horizon_issuer.Horizon.Requests.{Memory}

abbrev pub issuer_name : CertificateRequest → NamespacedName
issuer_name cr = record { namespace = cr.metadata.namespace; name = cr.issuer_ref.name }

abbrev pub cluster_issuer_name : CertificateRequest → NamespacedName
cluster_issuer_name cr = record { namespace = ""; name = cr.issuer_ref.name }

-- The name of the last owner that is an Ingress.
ingress_owner : List OwnerReference → Option String → Option String
ingress_owner [] found = found
ingress_owner (ref ∷ refs) found = ingress_owner refs (
    if ref.api_version == "networking.k8s.io/v1" && ref.kind == "Ingress"
    then some ref.name
    else found)

module _ (env : Env) where
  -- A kind that is no `client.Object` makes the type assertion panic.
  unfoldable pub issuer_from_request : CertificateRequest → M Memory (Result ClientObject)
  issuer_from_request cr = elim (env.lib.new_object cr.issuer_ref.kind) [
    | err e ↦ pure (err (errorf "error interpreting issuerRef" e))
    | ok not_an_object ↦ panic
    | ok an_issuer ↦ do
      answer ← ask (get_issuer (issuer_name cr)) (λ h. env.cluster.get_issuer h (issuer_name cr))
      pure (elim answer [ ok i ↦ ok (issuer i) | err e ↦ err (errorf "error getting issuer" e) ])
    | ok a_cluster_issuer ↦ do
      answer ←
          ask (get_cluster_issuer (cluster_issuer_name cr))
            (λ h. env.cluster.get_cluster_issuer h (cluster_issuer_name cr))
      pure (elim answer [
        | ok i ↦ ok (cluster_issuer i)
        | err e ↦ err (errorf "error getting issuer" e)
      ])
  ]

  -- No Ingress among the owners is no error.
  unfoldable pub ingress_from_certificate : Certificate → M Memory (Option Ingress × Option Error)
  unfolding ingress_owner
  ingress_from_certificate certificate =
      elim (ingress_owner certificate.metadata.owner_references none) [
        | none ↦ pure (none, none)
        | some name ↦ do
          let full : NamespacedName = record {
            namespace = certificate.metadata.namespace;
            name = name;
          }
          answer ← ask (get_ingress full) (λ h. env.cluster.get_ingress h full)
          pure (some answer.0, answer.1)
      ]
