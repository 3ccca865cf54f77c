-- ===== src/IssuerUtil.antt =====
-- internal/issuer/util/util.go: what both reconcilers use of an issuer and of a request.
pub mod Laws
use horizon_issuer.Common.{String, get_or, Bool, false, Option, none, some, ℕ, true}
use horizon_issuer.Errors.{Error, plain, Result, ok, err}
use horizon_issuer.Api.{
  IssuerSpec, IssuerStatus, ClientObject, issuer, cluster_issuer, other, CertificateRequest,
  Certificate, Condition, ConditionStatus, is_true, is_false, is_unknown, issuer_condition_ready,
  NamespacedName, get_annotation,
}
use horizon_issuer.Effects.{M, get_certificate, ask}
use horizon_issuer.Effects.Env.{Libraries, Env}

-- The default case, of another object, is an error.
unfoldable pub get_spec_and_status : ClientObject → Result (IssuerSpec × IssuerStatus)
get_spec_and_status (issuer i) = ok (i.spec, i.status)
get_spec_and_status (cluster_issuer i) = ok (i.spec, i.status)
get_spec_and_status other = err (plain "not an issuer type")

-- The name of the Certificate that a request was made for.
abbrev pub certificate_name : CertificateRequest → NamespacedName
certificate_name cr = record {
  namespace = cr.metadata.namespace;
  name = get_or (get_annotation "cert-manager.io/certificate-name" cr.metadata.annotations) "";
}

abbrev pub is_true_status : ConditionStatus → Bool
is_true_status is_true = true
is_true_status is_false = false
is_true_status is_unknown = false

-- The object and the error, as the API server leaves them.
unfoldable pub certificate_from_request :
    {S : Type 0} → Env → CertificateRequest → M S (Certificate × Option Error)
certificate_from_request env cr =
    ask (get_certificate (certificate_name cr))
      (λ h. env.cluster.get_certificate h (certificate_name cr))

module _ (lib : Libraries) where
  -- The generation is that of the issuer.
  unfoldable pub set_ready_condition :
      ℕ → IssuerStatus → ConditionStatus → (reason message : String) → IssuerStatus
  set_ready_condition generation status s reason message = record status {
    conditions = lib.set_status_condition status.conditions (record {
      kind = issuer_condition_ready;
      status = s;
      observed_generation = generation;
      reason = reason;
      message = message;
    });
  }

  unfoldable pub get_ready_condition : Option IssuerStatus → Option Condition
  get_ready_condition none = none
  get_ready_condition (some status) =
      lib.find_status_condition status.conditions issuer_condition_ready

  unfoldable pub is_ready : Option IssuerStatus → Bool
  unfolding get_ready_condition
  is_ready status = elim (get_ready_condition status) [
    | none ↦ false
    | some c ↦ is_true_status c.status
  ]
