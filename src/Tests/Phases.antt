-- ===== src/Tests/Phases.antt =====
-- The phases of a request, on an API server that stores it.
use horizon_issuer.Common.{true, ◌≡◌, some, refl}
use horizon_issuer.Api.{get_annotation}
use horizon_issuer.Horizon.Annotations.{request_id}
use horizon_issuer.RequestController.{is_settled}
use horizon_issuer.RequestController.Lifecycle.{stored_after, rounds}
use horizon_issuer.RequestController.Lifecycle.Phases.{fresh, waiting, Run, machine, phase_of}
use horizon_issuer.RequestController.Lifecycle.Phases.Refines.{rounds-Run}
use horizon_issuer.RequestController.Lifecycle.SameId.{rounds-same_id}
use horizon_issuer.RequestController.Lifecycle.Full.{is_signed_or_open}
use horizon_issuer.RequestController.Lifecycle.Signed.{rounds-signed}
use horizon_issuer.Tests.Lifecycle.{live, start, name, submitted_request, new_request}
use horizon_issuer.Tests.Library.{lib-RequestConditionLaws}

phases :
    (phase_of (live new_request) "ns" new_request ≡ fresh)
    × (phase_of (live submitted_request) "ns" submitted_request ≡ waiting)
unfolding is_settled
phases = (refl, refl)

rounds-Run_example : Run (machine (live new_request) "ns" new_request (start new_request)) (
    machine
      (live new_request)
      "ns"
      new_request
      (rounds (live new_request) "ns" name 3 (start new_request)))
rounds-Run_example =
    rounds-Run (live new_request) "ns" name new_request (λ h. refl) lib-RequestConditionLaws
      (λ h client body. cc) 3 (start new_request) refl

rounds-same_id_example :
    get_annotation request_id
      (stored_after submitted_request
        (rounds
          (live submitted_request)
          "ns"
          name
          2
          (start submitted_request)).history).metadata.annotations
    ≡ some "r1"
rounds-same_id_example =
    rounds-same_id (live submitted_request) "ns" name submitted_request (λ h. refl) "r1" 2
      (start submitted_request) refl

rounds-signed_example :
    is_signed_or_open
      (live new_request)
      (stored_after new_request (rounds (live new_request) "ns" name 3 (start new_request)).history)
    ≡ true
rounds-signed_example =
    rounds-signed (live new_request) "ns" name new_request (λ h. refl) lib-RequestConditionLaws 3
      (start new_request) refl
