-- ===== src/Tests/Returns.antt =====
-- The reconciler of requests with and without the pointers that it dereferences.
use horizon_issuer.Common.{true, false, none, [], ◌≡◌, refl, subst}
use horizon_issuer.Errors.{ok}
use horizon_issuer.Api.{CertificateRequest, Certificate}
use horizon_issuer.Effects.Env.{Env, Cluster}
use horizon_issuer.Common.Text.{trim_suffix}
use horizon_issuer.Horizon.ClientConfig.{client_from_issuer}
use horizon_issuer.IssuerUtil.{is_ready, get_ready_condition}
use horizon_issuer.RequestController.{is_settled, reconcile}
use horizon_issuer.RequestController.Lifecycle.Served.{in_namespace}
use horizon_issuer.RequestController.Lifecycle.Awaits.{Reaches}
use horizon_issuer.RequestController.Lifecycle.Panics.{reconcile-is_returned}
use horizon_issuer.RequestController.Returns.{is_returned, IsSound, Answered}
use horizon_issuer.RequestController.Returns.Reconcile.{reconcile-returns}
use horizon_issuer.Tests.Lifecycle.{start, name, new_request, storing, live}
use horizon_issuer.Tests.Values.{meta, parent, ready_issuer, login, open_horizon, ann, env}

abbrev usual : Env
usual = env open_horizon new_request (parent "")

usual-IsSound : IsSound usual new_request
usual-IsSound = (λ e. cc, refl)

got_request : (cr : CertificateRequest) → ok new_request ≡ ok cr → new_request ≡ cr
got_request cr e = cc

-- Whatever the API server answers.
open-Answered : (c : Cluster) → Answered (record usual { cluster = c })
open-Answered c = record {
  template = λ h client question. λ e. cc;
  submission = λ h client body. λ e. cc;
  request = λ h client id. λ e. cc;
  email = λ j. λ e. cc;
  owner = λ j. λ e. cc;
  team = λ j. λ e. cc;
}

reconcile-returns_example : is_returned (reconcile usual "ns" name (start new_request)).0 ≡ true
reconcile-returns_example =
    reconcile-returns usual "ns" name (open-Answered usual.cluster) (λ h full got. λ e. cc)
      (λ h cr found.
        subst (IsSound usual) {x = new_request} {y = cr} (got_request cr found) usual-IsSound)
      (start new_request)

-- A Certificate that is not being issued.
abbrev idle_parent : Certificate
idle_parent = record { metadata = meta none; conditions = [] }

-- The stored request with it, and otherwise the usual world.
abbrev stranded : Env
stranded = record (live new_request) {
  cluster = record (storing new_request) { get_certificate = λ _ _. (idle_parent, none) };
}

stranded-Reaches : Reaches stranded "ns" new_request
unfolding is_settled is_ready get_ready_condition client_from_issuer trim_suffix
stranded-Reaches = record {
  found = in_namespace ready_issuer;
  secret = login;
  client = ann;
  annotations = [];
  owned = refl;
  served = (refl, λ h. refl);
  healthy = refl;
  login = λ h. refl;
  configured = refl;
  unchecked = refl;
  not_deleted = refl;
  annotated = refl;
  is_map = tt;
  open_request = refl;
}

-- The Certificate is got and is not being issued: the reconciliation panics.
reconcile-is_returned_example :
    is_returned (reconcile stranded "ns" name (start new_request)).0 ≡ false
unfolding stranded-Reaches
reconcile-is_returned_example =
    reconcile-is_returned stranded (open-Answered stranded.cluster) "ns" name new_request
      (λ h. refl) new_request stranded-Reaches (start new_request) refl
