-- ===== src/RequestController/Fresh.antt =====
-- internal/controller/certificaterequest_controller.go: for which requests a certificate is ordered.
use horizon_issuer.Common.{String, Bool, true, not, ◌||◌, is_some, ◌≡◌, arith}
use horizon_issuer.Common.Text.{◌==◌}
use horizon_issuer.Errors.{ok}
use horizon_issuer.Api.{CertificateRequest, IssuerSpec, NamespacedName, get_annotation, group}
use horizon_issuer.Effects.{State}
use horizon_issuer.Effects.Env.{Env}
use horizon_issuer.Horizon.Annotations.{request_id}
use horizon_issuer.Horizon.Requests.{Memory, set_condition}
use horizon_issuer.RequestController.Lookup.{issuer_from_request}
use horizon_issuer.RequestController.Process.{mark_denied, process}
use horizon_issuer.RequestController.Finish.{set_not_ready}
use horizon_issuer.RequestController.Deletion.{record_event}
use horizon_issuer.RequestController.{
  is_settled, add_finalizer, reconcile_unsettled, reconcile_with_client, reconcile_with_secret,
  reconcile_owned, reconcile,
}
use horizon_issuer.RequestController.Orders.{
  orders, check_dns-orders, update_request-orders, finish-orders, handle_deletion-orders,
}

module _ (env : Env) where
  -- Denied, approved, or submitted before.
  abbrev pub is_decided : CertificateRequest → Bool
  is_decided cr =
      env.lib.request_is_denied cr.conditions
      || (env.lib.request_is_approved cr.conditions
          || is_some (get_annotation request_id cr.metadata.annotations))

  process-decided :
      (spec : IssuerSpec) (s : State Memory)
      → is_decided s.memory.request ≡ true
      → orders (process env spec s).1 ≡ orders s
  unfolding process mark_denied set_not_ready set_condition
  process-decided spec s h = grind (arith, check_dns-orders, update_request-orders)

  module _ (ns : String) where
    -- Of another group, Ready, Failed or Denied already, or decided.
    abbrev pub is_stale : CertificateRequest → Bool
    is_stale cr =
        not (cr.issuer_ref.group == group) || (is_settled env ns cr.conditions || is_decided cr)

    reconcile_unsettled-stale :
        (spec : IssuerSpec) (s : State Memory)
        → (is_settled env ns s.memory.request.conditions || is_decided s.memory.request) ≡ true
        → orders (reconcile_unsettled env ns spec s).1 ≡ orders s
    unfolding reconcile_unsettled
    reconcile_unsettled-stale spec s h = grind (arith, process-decided, finish-orders)

    reconcile_with_client-stale :
        (spec : IssuerSpec) (s : State Memory)
        → (is_settled env ns s.memory.request.conditions || is_decided s.memory.request) ≡ true
        → orders (reconcile_with_client env ns spec s).1 ≡ orders s
    unfolding reconcile_with_client add_finalizer
    reconcile_with_client-stale spec s h =
        grind (arith, reconcile_unsettled-stale, handle_deletion-orders)

    reconcile_with_secret-stale :
        (spec : IssuerSpec) (namespace : String) (s : State Memory)
        → (is_settled env ns s.memory.request.conditions || is_decided s.memory.request) ≡ true
        → orders (reconcile_with_secret env ns spec namespace s).1 ≡ orders s
    unfolding reconcile_with_secret
    reconcile_with_secret-stale spec namespace s h = grind (arith, reconcile_with_client-stale)

    reconcile_owned-stale :
        (cr : CertificateRequest) (s : State Memory)
        → (is_settled env ns s.memory.request.conditions || is_decided s.memory.request) ≡ true
        → orders (reconcile_owned env ns cr s).1 ≡ orders s
    unfolding reconcile_owned issuer_from_request set_not_ready set_condition record_event
    reconcile_owned-stale cr s h = grind (arith, reconcile_with_secret-stale)

-- A reconciliation orders no certificate from Horizon for a request of another group, for one that
-- is Ready, Failed or Denied, and for one that was denied, was approved, or has a request id.
pub reconcile-stale :
    (env : Env) (ns : String) (name : NamespacedName) (cr : CertificateRequest) (s : State Memory)
    → env.cluster.get_request s.history name ≡ ok cr
    → is_stale env ns cr ≡ true
    → orders (reconcile env ns name s).1 ≡ orders s
unfolding reconcile
reconcile-stale env ns name cr s got stale = grind (arith, reconcile_owned-stale)
