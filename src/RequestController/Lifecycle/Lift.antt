-- ===== src/RequestController/Lifecycle/Lift.antt =====
-- internal/controller/certificaterequest_controller.go: a test on the state after a reconciliation.
-- It holds where nothing was done to the request and where `process` and the deferred function ran.
use horizon_issuer.Common.{ℕ, String, Bool, true, Option, List, ◌≡◌, arith}
use horizon_issuer.Common.Dict.{Dict}
use horizon_issuer.Api.{CertificateRequest, IssuerSpec, NamespacedName, RequestCondition}
use horizon_issuer.Effects.{State}
use horizon_issuer.Effects.Env.{Env}
use horizon_issuer.Horizon.Requests.{Memory, set_condition, revoke_certificate}
use horizon_issuer.RequestController.Lookup.{issuer_from_request}
use horizon_issuer.RequestController.Finish.{set_not_ready}
use horizon_issuer.RequestController.Deletion.{
  record_event, save_request, record_revocation, drop_finalizer, handle_deletion,
}
use horizon_issuer.RequestController.{
  reconcile_unsettled, add_finalizer, reconcile_with_client, reconcile_with_secret, reconcile_owned,
  reconcile,
}
use horizon_issuer.RequestController.Orders.{orders}
use horizon_issuer.RequestController.Lifecycle.{Holds}
use horizon_issuer.RequestController.Lifecycle.Keeps.{stored}

module _ (env : Env) (ns : String) (name : NamespacedName) (init : CertificateRequest)
    (holds : Holds env name init) (annotations : Option Dict) (conditions : List RequestCondition)
    (certificate : String) (n : ℕ) where
  -- What is stored of the request, and the number of orders.
  abbrev pub Quiet : State Memory → Type 0
  Quiet s =
      (stored env init s).metadata.annotations ≡ annotations
      × ((stored env init s).conditions ≡ conditions
          × ((orders s ≡ n) × ((stored env init s).certificate ≡ certificate)))

  -- The memory has these as well.
  abbrev pub Synced : State Memory → Type 0
  Synced s =
      s.memory.request.metadata.annotations ≡ annotations
      × (s.memory.request.conditions ≡ conditions)

  record_revocation-Quiet :
      (s : State Memory)
      → s.memory.request.metadata.annotations ≡ annotations
      → Quiet s
      → ((record_revocation env s).1.memory ≡ s.memory) × Quiet (record_revocation env s).1
  unfolding record_revocation issuer_from_request record_event
  record_revocation-Quiet s h q = ground arith

  handle_deletion-Quiet :
      (s : State Memory)
      → s.memory.request.metadata.annotations ≡ annotations
      → Quiet s
      → Quiet (handle_deletion env s).1
  unfolding handle_deletion revoke_certificate drop_finalizer save_request
  handle_deletion-Quiet s h q = grind (arith, record_revocation-Quiet)

  module _ (test : State Memory → Bool) (quiet : (s : State Memory) → Quiet s → test s ≡ true)
      (unsettled : (spec : IssuerSpec) (s : State Memory)
        → Quiet s
        → Synced s
        → test (reconcile_unsettled env ns spec s).1 ≡ true) where
    add_finalizer-Quiet :
        (s : State Memory)
        → Quiet s
        → Synced s
        → Quiet (add_finalizer env ns s).1 × Synced (add_finalizer env ns s).1
    unfolding add_finalizer
    add_finalizer-Quiet s q h = ground arith

    reconcile_with_client-test :
        (spec : IssuerSpec) (s : State Memory)
        → Quiet s
        → Synced s
        → test (reconcile_with_client env ns spec s).1 ≡ true
    unfolding reconcile_with_client add_finalizer
    reconcile_with_client-test spec s q h =
        let t = (add_finalizer env ns s).1 in
        let (q', h') = add_finalizer-Quiet s q h in
        grind (
          arith,
          unsettled spec s q h,
          unsettled spec t q' h',
          quiet (handle_deletion env s).1 (handle_deletion-Quiet s h.0 q),
        )

    reconcile_with_secret-test :
        (spec : IssuerSpec) (namespace : String) (s : State Memory)
        → Quiet s
        → Synced s
        → test (reconcile_with_secret env ns spec namespace s).1 ≡ true
    unfolding reconcile_with_secret
    reconcile_with_secret-test spec namespace s q h =
        grind (arith, quiet, reconcile_with_client-test)

    reconcile_owned-test :
        (cr : CertificateRequest) (s : State Memory)
        → Quiet s
        → Synced s
        → test (reconcile_owned env ns cr s).1 ≡ true
    unfolding reconcile_owned issuer_from_request set_not_ready set_condition record_event
    reconcile_owned-test cr s q h = grind (arith, quiet, reconcile_with_secret-test)

    pub reconcile-test : (s : State Memory) → Quiet s → test (reconcile env ns name s).1 ≡ true
    unfolding reconcile
    reconcile-test s q = grind (arith, holds s.history, quiet, reconcile_owned-test)
