-- ===== src/RequestController/Lifecycle/Stored.antt =====
-- internal/controller/certificaterequest_controller.go: what the deferred function leaves on the API
-- server.
use horizon_issuer.Common.{Option, none, some, ◌≡◌, arith, inl, inr, Option-cases, if◌then◌else◌}
use horizon_issuer.Common.Dict.{Dict}
use horizon_issuer.Api.{CertificateRequest}
use horizon_issuer.Effects.{State, Return}
use horizon_issuer.Effects.Env.{Env}
use horizon_issuer.Horizon.Requests.{Memory}
use horizon_issuer.IssuerUtil.{certificate_from_request}
use horizon_issuer.RequestController.Deletion.{save_request}
use horizon_issuer.RequestController.Finish.{
  deep_equal, write_request, update_parent, record_outcome, store, finish,
}
use horizon_issuer.RequestController.Finish.Failure.{failed_state, record_failure_lem}
use horizon_issuer.RequestController.Lifecycle.{with_status}
use horizon_issuer.RequestController.Lifecycle.Keeps.{stored}

module _ (env : Env) (init : CertificateRequest) where
  write_request-stored :
      (before : Option Dict) (s : State Memory)
      → stored env init (write_request env before s).1 ≡ (
          if deep_equal before s.memory.request.metadata.annotations
          then with_status (stored env init s) s.memory.request
          else with_status s.memory.request (stored env init s))
  unfolding write_request save_request
  write_request-stored before s = ground arith

  update_parent-stored :
      (s : State Memory) → stored env init (update_parent env s).1 ≡ stored env init s
  unfolding update_parent certificate_from_request
  update_parent-stored s = ground arith

  -- The request in memory after the error, if there is one, was recorded.
  abbrev recorded : Return → State Memory → State Memory
  recorded r s = elim r.err [ none ↦ s | some e ↦ failed_state env e s ]

  pub finish-stored :
      (before : Option Dict) (r : Return) (s : State Memory)
      → stored env init (finish env before r s).1 ≡ (
          if deep_equal before s.memory.request.metadata.annotations
          then with_status (stored env init s) (recorded r s).memory.request
          else with_status (recorded r s).memory.request (stored env init s))
  unfolding finish record_outcome store
  finish-stored before r s = elim (Option-cases r.err) [
    | inl e ↦ rw e (grind (arith, write_request-stored, update_parent-stored))
    | inr (x, e) ↦ rw e (
        ground (
          arith,
          record_failure_lem env x s,
          write_request-stored before (failed_state env x s),
          update_parent-stored (write_request env before (failed_state env x s)).1,
        ))
  ]
