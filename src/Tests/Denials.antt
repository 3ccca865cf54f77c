-- ===== src/Tests/Denials.antt =====
-- A request for a ClusterIssuer that Horizon denies, on concrete values.
use horizon_issuer.Common.{true, some, [], ◌∷◌, ◌≡◌, refl}
use horizon_issuer.Common.Text.{trim_suffix}
use horizon_issuer.Errors.{plain, ok, err}
use horizon_issuer.Api.{CertificateRequest, ClusterIssuer, group}
use horizon_issuer.Sdk
use horizon_issuer.Effects.Env.{Env}
use horizon_issuer.Horizon.Annotations.{request_id}
use horizon_issuer.Horizon.ClientConfig.{client_from_issuer}
use horizon_issuer.IssuerUtil.{is_ready, get_ready_condition}
use horizon_issuer.RequestController.{is_settled}
use horizon_issuer.RequestController.Lifecycle.{stored_after, rounds}
use horizon_issuer.RequestController.Lifecycle.Served.{in_cluster}
use horizon_issuer.RequestController.Lifecycle.Awaits.{Reaches, Undecided}
use horizon_issuer.RequestController.Lifecycle.Denied.{is_refused, rounds-denied}
use horizon_issuer.Tests.Lifecycle.{name, storing, live, start, submitted_request}
use horizon_issuer.Tests.Values.{lib, open_horizon, ann, ready_issuer, login, issued}
use horizon_issuer.Tests.Library.{lib-RequestConditionLaws}

-- A request for a ClusterIssuer, which alone is there.
abbrev cluster_request : CertificateRequest
cluster_request = record submitted_request {
  issuer_ref = record { name = "horizon"; kind = "ClusterIssuer"; group = group };
}

abbrev cluster_wide : ClusterIssuer
cluster_wide = record {
  metadata = ready_issuer.metadata;
  spec = ready_issuer.spec;
  status = ready_issuer.status;
}

abbrev denying : Env
denying = record (live cluster_request) {
  cluster = record (storing cluster_request) {
    get_issuer = λ _ _. err (plain "no issuer");
    get_cluster_issuer = λ _ _. ok cluster_wide;
  };
  horizon = record open_horizon {
    request_get = λ _ _ _. ok (some (record { status = Sdk.denied; certificate = issued }));
  };
}

cluster-Reaches : Reaches denying "ns" cluster_request
unfolding is_settled is_ready get_ready_condition client_from_issuer trim_suffix
cluster-Reaches = record {
  found = in_cluster cluster_wide;
  secret = login;
  client = ann;
  annotations = (request_id, "r1") ∷ [];
  owned = refl;
  served = (refl, λ h. refl);
  healthy = refl;
  login = λ h. refl;
  configured = refl;
  unchecked = refl;
  not_deleted = refl;
  annotated = refl;
  is_map = (refl, tt);
  open_request = refl;
}

cluster-Undecided : Undecided denying cluster_request
cluster-Undecided = record { not_denied = refl; not_approved = refl }

rounds-denied_example :
    (lib.request_is_denied
        (stored_after cluster_request
          (rounds denying "ns" name 1 (start cluster_request)).history).conditions
      ≡ true)
    × (is_refused denying (
          stored_after cluster_request (rounds denying "ns" name 2 (start cluster_request)).history)
        ≡ true)
unfolding cluster-Reaches
rounds-denied_example =
    rounds-denied denying "ns" name cluster_request (λ h. refl) lib-RequestConditionLaws
      (start cluster_request) cluster-Reaches cluster-Undecided "r1"
      (record { status = Sdk.denied; certificate = issued }) refl (λ h. refl) refl
