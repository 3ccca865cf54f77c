-- ===== src/Tests/Finalizer.antt =====
-- A request with the finalizer that is being deleted, and a Horizon that refuses to revoke.
use horizon_issuer.Common.{true, some, [], ◌∷◌, ◌≡◌, refl, arith}
use horizon_issuer.Common.Text.{eq_refl}
use horizon_issuer.Errors.{plain, ok}
use horizon_issuer.Api.{CertificateRequest, Issuer}
use horizon_issuer.Effects.Env.{Env}
use horizon_issuer.Horizon.Annotations.{finalizer_name}
use horizon_issuer.RequestController.Lifecycle.{stored_after, rounds}
use horizon_issuer.RequestController.Lifecycle.Guarded.{is_guarded}
use horizon_issuer.RequestController.Lifecycle.Finalizer.{rounds-guarded}
use horizon_issuer.Tests.Lifecycle.{live, start, name, submitted_request}
use horizon_issuer.Tests.Values.{ready_issuer, plain_spec, closed_horizon}

abbrev deleted_request : CertificateRequest
deleted_request = record submitted_request {
  metadata = record (submitted_request.metadata) {
    finalizers = finalizer_name ∷ [];
    deletion_timestamp = some 1000;
  };
}

abbrev revoking_issuer : Issuer
revoking_issuer = record ready_issuer { spec = record plain_spec { revoke_certificates = true } }

abbrev refusing : Env
refusing = record (live deleted_request) {
  horizon = closed_horizon;
  cluster = record ((live deleted_request).cluster) { get_issuer = λ _ _. ok revoking_issuer };
}

rounds-guarded_example :
    is_guarded refusing
      (stored_after deleted_request (rounds refusing "ns" name 2 (start deleted_request)).history)
    ≡ true
rounds-guarded_example =
    rounds-guarded refusing "ns" name deleted_request (λ h. refl)
      (λ fs f. ground (arith, eq_refl f)) (λ h client pem. (plain "refused", refl)) 2
      (start deleted_request) refl
