-- ===== src/RequestController/Lifecycle/Phases/Finish.antt =====
-- internal/controller/certificaterequest_controller.go: what the phase of a request is read off,
-- after the deferred function.
use horizon_issuer.Common.{true, false, Option, ◌≡◌, refl, arith, inl, inr, Option-cases}
use horizon_issuer.Common.Dict.{Dict}
use horizon_issuer.Api.{CertificateRequest}
use horizon_issuer.Effects.{State, Return}
use horizon_issuer.Effects.Env.{Env}
use horizon_issuer.Horizon.Requests.{Memory}
use horizon_issuer.RequestController.Finish.{deep_equal, finish}
use horizon_issuer.RequestController.Finish.Laws.{RequestConditionLaws}
use horizon_issuer.RequestController.Finish.Failure.{failure_condition, is_refused}
use horizon_issuer.RequestController.Lifecycle.Keeps.{stored}
use horizon_issuer.RequestController.Lifecycle.Stored.{finish-stored}
use horizon_issuer.RequestController.Lifecycle.Phases.Decided.{decided, decides, decided-set_ready}

module _ (env : Env) (init : CertificateRequest) (laws : RequestConditionLaws env.lib) where
  -- Where the annotations did not change, the deferred function leaves what decides the request.
  pub finish-decided :
      (before : Option Dict) (r : Return) (s : State Memory)
      → deep_equal before s.memory.request.metadata.annotations ≡ true
      → decided env laws (stored env init (finish env before r s).1).conditions ≡ decides env laws s
  finish-decided before r s same = elim (Option-cases r.err) [
    | inl e ↦ ground (arith, finish-stored env init before r s)
    | inr (x, e) ↦ ground (
      arith,
      finish-stored env init before r s,
      decided-set_ready env laws s.memory.request.conditions
          (failure_condition (is_refused env x s) x) refl,
    )
  ]

  pub finish-same_annotations :
      (before : Option Dict) (r : Return) (s : State Memory)
      → deep_equal before s.memory.request.metadata.annotations ≡ true
      → (stored env init (finish env before r s).1).metadata.annotations
        ≡ (stored env init s).metadata.annotations
  finish-same_annotations before r s same = ground (arith, finish-stored env init before r s)

  pub finish-same_conditions :
      (before : Option Dict) (r : Return) (s : State Memory)
      → deep_equal before s.memory.request.metadata.annotations ≡ false
      → (stored env init (finish env before r s).1).conditions ≡ (stored env init s).conditions
  finish-same_conditions before r s changed = ground (arith, finish-stored env init before r s)

  pub finish-new_annotations :
      (before : Option Dict) (r : Return) (s : State Memory)
      → deep_equal before s.memory.request.metadata.annotations ≡ false
      → (stored env init (finish env before r s).1).metadata.annotations
        ≡ s.memory.request.metadata.annotations
  finish-new_annotations before r s changed = elim (Option-cases r.err) [
    | inl e ↦ ground (arith, finish-stored env init before r s)
    | inr (x, e) ↦ ground (arith, finish-stored env init before r s)
  ]
