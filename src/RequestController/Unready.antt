-- ===== src/RequestController/Unready.antt =====
-- internal/controller/certificaterequest_controller.go: a request whose issuer is not ready.
use horizon_issuer.Common.{String, Bool, false, ◌||◌, some, ◌∷◌, ◌≡◌, arith}
use horizon_issuer.Errors.{ok}
use horizon_issuer.Api.{NamespacedName, CertificateRequest, Issuer, ClusterIssuer}
use horizon_issuer.Effects.{Call, History, State, get_request}
use horizon_issuer.Effects.Count.{count, is_write, is_horizon}
use horizon_issuer.Effects.Env.{Env}
use horizon_issuer.Horizon.Requests.{Memory}
use horizon_issuer.IssuerUtil.{get_spec_and_status, is_ready}
use horizon_issuer.RequestController.Lookup.{issuer_name, cluster_issuer_name, issuer_from_request}
use horizon_issuer.RequestController.{reconcile_owned, reconcile}

-- What is seen outside: a write to the API server, an event, or a call of Horizon.
abbrev pub is_visible : Call → Bool
is_visible c = is_write c || is_horizon c

-- The issuer of the request is not ready, whenever it is got.
pub record NotReady (env : Env) (cr : CertificateRequest) : Type 0 where
  pub unready_issuer :
      (h : History) (i : Issuer)
      → env.cluster.get_issuer h (issuer_name cr) ≡ ok i
      → is_ready env.lib (some i.status) ≡ false
  pub unready_cluster_issuer :
      (h : History) (i : ClusterIssuer)
      → env.cluster.get_cluster_issuer h (cluster_issuer_name cr) ≡ ok i
      → is_ready env.lib (some i.status) ≡ false

module _ (env : Env) (ns : String) (cr : CertificateRequest) (waits : NotReady env cr) where
  reconcile_owned-waits :
      (s : State Memory)
      → count is_visible (reconcile_owned env ns cr s).1.history ≡ count is_visible s.history
  unfolding reconcile_owned issuer_from_request get_spec_and_status
  reconcile_owned-waits s = grind (arith, waits.unready_issuer, waits.unready_cluster_issuer)

-- A reconciliation of a request whose issuer is not ready writes nothing to the API server, records
-- no event and makes no call of Horizon, whatever the request and whatever its kind of issuer.
pub reconcile-waits :
    (env : Env) (ns : String) (name : NamespacedName) (cr : CertificateRequest) (s : State Memory)
    → env.cluster.get_request s.history name ≡ ok cr
    → NotReady env cr
    → count is_visible (reconcile env ns name s).1.history ≡ count is_visible s.history
unfolding reconcile
reconcile-waits env ns name cr s found waits = ground (
  arith,
  found,
  reconcile_owned-waits env ns cr waits (record {
    memory = record (s.memory) { request = cr };
    history = get_request name ∷ s.history;
  }),
)
