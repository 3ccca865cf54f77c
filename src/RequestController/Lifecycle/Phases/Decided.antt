-- ===== src/RequestController/Lifecycle/Phases/Decided.antt =====
-- internal/controller/certificaterequest_controller.go: what stands below the `defer`, on a
-- request without an id: whether it counts as approved or denied.
use horizon_issuer.Common.{String, Bool, none, Option, List, ◌≡◌, ◌≢◌, arith}
use horizon_issuer.Api.{
  IssuerSpec, RequestCondition, ready, invalid_request, approved, denied, is_true, get_annotation,
}
use horizon_issuer.Sdk.{LabelElement}
use horizon_issuer.Effects.{State}
use horizon_issuer.Effects.Env.{Env}
use horizon_issuer.Horizon.Annotations.{request_id}
use horizon_issuer.Horizon.Requests.{
  Memory, submit, submitted, handle_failed_request, set_condition, submit_enroll_request,
  submit_renew_request,
}
use horizon_issuer.IssuerUtil.{certificate_from_request}
use horizon_issuer.RequestController.Process.{mark_denied, enroll, submit_first, process}
use horizon_issuer.RequestController.Finish.{set_not_ready}
use horizon_issuer.RequestController.Finish.Laws.{RequestConditionLaws}
use horizon_issuer.RequestController.Lifecycle.Annotations.{
  certificate_metadata-memory, check_dns-memory,
}

module _ (env : Env) (laws : RequestConditionLaws env.lib) where
  -- Both answers, as cert-manager gives them.
  abbrev pub decided : List RequestCondition → Bool × Bool
  decided cs = (env.lib.request_is_denied cs, env.lib.request_is_approved cs)

  -- A condition of another type does not decide.
  pub decided-set :
      (cs : List RequestCondition) (c : RequestCondition)
      → denied ≢ c.kind
      → approved ≢ c.kind
      → decided (env.lib.set_request_condition cs c) ≡ decided cs
  decided-set cs c d a = ground (
    arith,
    laws.denied-has (env.lib.set_request_condition cs c),
    laws.denied-has cs,
    laws.approved-has (env.lib.set_request_condition cs c),
    laws.approved-has cs,
    laws.has-set_other cs c denied is_true "" d,
    laws.has-set_other cs c approved is_true "" a,
  )

  pub decided-set_ready :
      (cs : List RequestCondition) (c : RequestCondition)
      → c.kind ≡ ready
      → decided (env.lib.set_request_condition cs c) ≡ decided cs
  decided-set_ready cs c h = decided-set cs c (λ e. cc) (λ e. cc)

  decided-set_invalid :
      (cs : List RequestCondition) (c : RequestCondition)
      → c.kind ≡ invalid_request
      → decided (env.lib.set_request_condition cs c) ≡ decided cs
  decided-set_invalid cs c h = decided-set cs c (λ e. cc) (λ e. cc)

  -- The answers about the request in memory.
  abbrev pub decides : State Memory → Bool × Bool
  decides s = decided s.memory.request.conditions

  submit_renew_request-decided :
      (id : String) (s : State Memory) → decides (submit_renew_request env id s).1 ≡ decides s
  unfolding submit_renew_request submit submitted handle_failed_request
  submit_renew_request-decided id s = grind (arith, decided-set_ready, decided-set_invalid)

  submit_enroll_request-decided :
      (spec : IssuerSpec) (labels : List LabelElement) (owner team email : Option String)
      (s : State Memory)
      → decides (submit_enroll_request env spec labels owner team email s).1 ≡ decides s
  unfolding submit_enroll_request
  submit_enroll_request-decided spec labels owner team email s =
      grind (arith, decided-set_ready, decided-set_invalid)

  enroll-decided :
      (spec : IssuerSpec) (s : State Memory) → decides (enroll env spec s).1 ≡ decides s
  unfolding enroll set_not_ready set_condition
  enroll-decided spec s =
      grind (arith, certificate_metadata-memory, decided-set_ready, submit_enroll_request-decided)

  submit_first-decided :
      (spec : IssuerSpec) (s : State Memory) → decides (submit_first env spec s).1 ≡ decides s
  unfolding submit_first certificate_from_request
  submit_first-decided spec s = grind (arith, enroll-decided, submit_renew_request-decided)

  pub process-decided :
      (spec : IssuerSpec) (s : State Memory)
      → get_annotation request_id s.memory.request.metadata.annotations ≡ none
      → decides (process env spec s).1 ≡ decides s
  unfolding process mark_denied set_not_ready set_condition
  process-decided spec s h =
      grind (arith, check_dns-memory, decided-set_ready, submit_first-decided)
