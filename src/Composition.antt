-- ===== src/Composition.antt =====
-- internal/controller: the two reconcilers on one API server. What the reconciler of issuers last
-- wrote is what the reconciler of requests then gets.
use horizon_issuer.Common.{String, some, ◌≡◌, ◌∷◌, arith, inl, inr, Bool-cases, sym, ap, ◌∙◌}
use horizon_issuer.Errors.{Result, ok, err, plain}
use horizon_issuer.Api.{
  NamespacedName, CertificateRequest, Issuer, ClusterIssuer, ClientObject, issuer, cluster_issuer,
  other,
}
use horizon_issuer.Effects.{History, State}
use horizon_issuer.Effects.Count.{count}
use horizon_issuer.Effects.Env.{Env, Cluster}
use horizon_issuer.Horizon.Requests.{Memory}
use horizon_issuer.IssuerController
use horizon_issuer.IssuerController.{IssuerReconciler, IssuerMemory}
use horizon_issuer.IssuerController.Laws.{
  IsFetched, IsHealthy, status_of, get_call, reconcile-ready_iff,
}
use horizon_issuer.IssuerUtil.{is_ready}
use horizon_issuer.IssuerUtil.Laws.{StatusConditionLaws}
use horizon_issuer.RequestController.{reconcile}
use horizon_issuer.RequestController.Lookup.{issuer_name, cluster_issuer_name}
use horizon_issuer.RequestController.Unready.{is_visible, NotReady, reconcile-waits}

-- A get of an object as an Issuer, and as a ClusterIssuer.
abbrev pub as_issuer : ClientObject → Result Issuer
as_issuer (issuer i) = ok i
as_issuer _ = err (plain "no such issuer")

abbrev pub as_cluster_issuer : ClientObject → Result ClusterIssuer
as_cluster_issuer (cluster_issuer i) = ok i
as_cluster_issuer _ = err (plain "no such cluster issuer")

-- The API server gives the object as the issuer of the request.
pub record Serves (cluster : Cluster) (cr : CertificateRequest) (o : ClientObject) : Type 0 where
  pub gives_issuer : (h : History) → cluster.get_issuer h (issuer_name cr) ≡ as_issuer o
  pub gives_cluster_issuer :
      (h : History) → cluster.get_cluster_issuer h (cluster_issuer_name cr) ≡ as_cluster_issuer o

from_issuer : (o : ClientObject) (i : Issuer) → as_issuer o ≡ ok i → o ≡ issuer i
from_issuer (issuer j) i e = ground arith
from_issuer (cluster_issuer j) i e = ground arith
from_issuer other i e = ground arith

from_cluster_issuer :
    (o : ClientObject) (i : ClusterIssuer) → as_cluster_issuer o ≡ ok i → o ≡ cluster_issuer i
from_cluster_issuer (cluster_issuer j) i e = ground arith
from_cluster_issuer (issuer j) i e = ground arith
from_cluster_issuer other i e = ground arith

module _ (env : Env) (r : IssuerReconciler) (req : NamespacedName)
    (laws : StatusConditionLaws env.lib) (o : ClientObject) (s : State IssuerMemory)
    (fetched : IsFetched env r req o s.history)
    (unhealthy : ¬ IsHealthy env r req o (get_call env r req o ∷ s.history)) where
  abbrev left : ClientObject
  left = (IssuerController.reconcile env r req s).1.memory

  not_ready :
      (later : Cluster) (cr : CertificateRequest)
      → Serves later cr left
      → NotReady (record env { cluster = later }) cr
  not_ready later cr serves = record {
    unready_issuer = λ h i got. elim (Bool-cases (is_ready env.lib (some i.status))) [
      | inl is ↦ absurd (
          unhealthy (
            (reconcile-ready_iff env r req laws o s fetched).0 (
              ap (λ x. is_ready env.lib (status_of x))
                (from_issuer left i (sym (serves.gives_issuer h) ∙ got))
              ∙ is)))
      | inr not ↦ not
    ];
    unready_cluster_issuer = λ h i got. elim (Bool-cases (is_ready env.lib (some i.status))) [
      | inl is ↦ absurd (
          unhealthy (
            (reconcile-ready_iff env r req laws o s fetched).0 (
              ap (λ x. is_ready env.lib (status_of x))
                (from_cluster_issuer left i (sym (serves.gives_cluster_issuer h) ∙ got))
              ∙ is)))
      | inr not ↦ not
    ];
  }

-- While an issuer is not healthy, its requests wait: after the reconciliation of an Issuer or
-- ClusterIssuer that the get finds and that is not healthy, a reconciliation of a request to which the
-- API server gives that object as its issuer, as it was then left, writes nothing, records no event and
-- makes no call of Horizon. The status conditions obey apimachinery's laws.
pub unhealthy-waits :
    (env : Env) (r : IssuerReconciler) (req : NamespacedName) (laws : StatusConditionLaws env.lib)
    (o : ClientObject) (s : State IssuerMemory)
    → IsFetched env r req o s.history
    → ¬ IsHealthy env r req o (get_call env r req o ∷ s.history)
    → (later : Cluster) (ns : String) (name : NamespacedName) (cr : CertificateRequest)
      (t : State Memory)
    → later.get_request t.history name ≡ ok cr
    → Serves later cr (IssuerController.reconcile env r req s).1.memory
    → count is_visible (reconcile (record env { cluster = later }) ns name t).1.history
      ≡ count is_visible t.history
unhealthy-waits env r req laws o s fetched unhealthy later ns name cr t found serves =
    reconcile-waits (record env { cluster = later }) ns name cr t found
      (not_ready env r req laws o s fetched unhealthy later cr serves)
