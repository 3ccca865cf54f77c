-- ===== src/RequestController/Lifecycle/Phases/Ordered.antt =====
-- internal/controller/certificaterequest_controller.go: what stands below the `defer`, on a
-- request without an id: the orders and the annotations.
use horizon_issuer.Common.{suc, String, none, Option, List, ◌≡◌, ◌⊎◌, arith}
use horizon_issuer.Api.{IssuerSpec, get_annotation}
use horizon_issuer.Sdk.{LabelElement}
use horizon_issuer.Effects.{State, Outcome, Return}
use horizon_issuer.Effects.Env.{Env}
use horizon_issuer.Horizon.Annotations.{request_id}
use horizon_issuer.Horizon.Requests.{
  Memory, submit, submitted, handle_failed_request, set_condition, submit_enroll_request,
  submit_renew_request,
}
use horizon_issuer.IssuerUtil.{certificate_from_request}
use horizon_issuer.RequestController.Process.{mark_denied, enroll, submit_first, process}
use horizon_issuer.RequestController.Finish.{set_not_ready}
use horizon_issuer.RequestController.Orders.{orders, certificate_metadata-orders, check_dns-orders}
use horizon_issuer.RequestController.Lifecycle.Annotations.{
  certificate_metadata-memory, check_dns-memory,
}

module _ (env : Env) where
  -- One certificate was ordered, or none and the annotations stay.
  abbrev pub Ordered : State Memory → Outcome Return × State Memory → Type 0
  Ordered s r =
      (orders r.1 ≡ suc (orders s))
      ⊎ ((orders r.1 ≡ orders s)
          × (r.1.memory.request.metadata.annotations ≡ s.memory.request.metadata.annotations))

  submit_renew_request-Ordered :
      (id : String) (s : State Memory) → Ordered s (submit_renew_request env id s)
  unfolding submit_renew_request submit submitted handle_failed_request
  submit_renew_request-Ordered id s = grind arith

  submit_enroll_request-Ordered :
      (spec : IssuerSpec) (labels : List LabelElement) (owner team email : Option String)
      (s : State Memory)
      → Ordered s (submit_enroll_request env spec labels owner team email s)
  unfolding submit_enroll_request
  submit_enroll_request-Ordered spec labels owner team email s = grind arith

  enroll-Ordered : (spec : IssuerSpec) (s : State Memory) → Ordered s (enroll env spec s)
  unfolding enroll set_not_ready set_condition
  enroll-Ordered spec s = grind (
    arith, certificate_metadata-memory, certificate_metadata-orders, submit_enroll_request-Ordered,
  )

  submit_first-Ordered :
      (spec : IssuerSpec) (s : State Memory) → Ordered s (submit_first env spec s)
  unfolding submit_first certificate_from_request
  submit_first-Ordered spec s = grind (arith, enroll-Ordered, submit_renew_request-Ordered)

  pub process-Ordered :
      (spec : IssuerSpec) (s : State Memory)
      → get_annotation request_id s.memory.request.metadata.annotations ≡ none
      → Ordered s (process env spec s)
  unfolding process mark_denied set_not_ready set_condition
  process-Ordered spec s h = grind (arith, check_dns-memory, check_dns-orders, submit_first-Ordered)
