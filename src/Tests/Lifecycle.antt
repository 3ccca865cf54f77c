-- ===== src/Tests/Lifecycle.antt =====
-- The reconciler of requests over several reconciliations, on an API server that stores them.
use horizon_issuer.Common.{true, ◌≡◌, ◌≤◌, some, none, [], ◌∷◌, refl}
use horizon_issuer.Errors.{ok}
use horizon_issuer.Api.{NamespacedName, CertificateRequest}
use horizon_issuer.Effects.{State, update_request, update_request_status}
use horizon_issuer.Effects.Env.{Env, Cluster}
use horizon_issuer.Horizon.Requests.{Memory}
use horizon_issuer.RequestController.Orders.{orders}
use horizon_issuer.Sdk
use horizon_issuer.Common.Text.{trim_suffix}
use horizon_issuer.Horizon.Annotations.{request_id}
use horizon_issuer.Horizon.ClientConfig.{client_from_issuer}
use horizon_issuer.Horizon.TrustChain.{build_pem_trustchain}
use horizon_issuer.IssuerUtil.{is_ready, get_ready_condition}
use horizon_issuer.RequestController.{is_settled, reconcile}
use horizon_issuer.RequestController.Lifecycle.Served.{in_namespace}
use horizon_issuer.RequestController.Lifecycle.Awaits.{Undecided, Awaits, Reaches, Completes}
use horizon_issuer.RequestController.Lifecycle.Submits.{Accepts}
use horizon_issuer.RequestController.Lifecycle.Issuance.{rounds-issued}
use horizon_issuer.RequestController.Lifecycle.Delivered.{is_delivered, rounds-delivered}
use horizon_issuer.RequestController.Lifecycle.{stored_after, rounds}
use horizon_issuer.RequestController.Lifecycle.Once.{rounds-at_most_one_order}
use horizon_issuer.Tests.Values.{
  template, ann, request, parent, open_horizon, ready_issuer, login, leaf, root, issued, cluster,
  env,
}
use horizon_issuer.Tests.Library.{lib-RequestConditionLaws}

abbrev pub name : NamespacedName
name = record { namespace = "web"; name = "shop" }

-- The cluster of the tests, but with the request stored as it is sent.
abbrev pub storing : CertificateRequest → Cluster
storing init = record (cluster init (parent "")) {
  get_request = λ h _. ok (stored_after init h);
  update_request = λ h cr. (stored_after init (update_request cr ∷ h), none);
  update_request_status = λ h cr. (stored_after init (update_request_status cr ∷ h), none);
}

abbrev pub live : CertificateRequest → Env
live init = record (env open_horizon init (parent "")) { cluster = storing init }

abbrev pub start : CertificateRequest → State Memory
start init = record { memory = record { request = init; client = none }; history = [] }

abbrev pub new_request : CertificateRequest
new_request = request (some []) []

abbrev pub submitted_request : CertificateRequest
submitted_request = request (some ((request_id, "r1") ∷ [])) []

rounds-at_most_one_order_example :
    orders (rounds (live new_request) "ns" name 3 (start new_request)) ≤ 1
rounds-at_most_one_order_example =
    rounds-at_most_one_order (live new_request) "ns" name new_request (λ h. refl)
      lib-RequestConditionLaws (λ h client body. cc) 3 (start new_request) refl

submitted-Awaits : Awaits (live submitted_request) "ns" submitted_request
unfolding is_settled is_ready get_ready_condition client_from_issuer trim_suffix
    build_pem_trustchain
submitted-Awaits = record {
  reaches = record {
    found = in_namespace ready_issuer;
    secret = login;
    client = ann;
    annotations = (request_id, "r1") ∷ [];
    owned = refl;
    served = (refl, λ h. refl);
    healthy = refl;
    login = λ h. refl;
    configured = refl;
    unchecked = refl;
    not_deleted = refl;
    annotated = refl;
    is_map = (refl, tt);
    open_request = refl;
  };
  undecided = record { not_denied = refl; not_approved = refl };
  id = "r1";
  submitted = refl;
  completes = record {
    answer = record { status = Sdk.completed; certificate = issued };
    certs = leaf ∷ (root ∷ []);
    answered = λ h. refl;
    is_completed = refl;
    chain = λ h. refl;
    full = refl;
  };
}

rounds-delivered_example :
    ((stored_after submitted_request
        (reconcile
          (live submitted_request)
          "ns"
          name
          (start submitted_request)).1.history).certificate
      ≡ "")
    × (is_delivered (live submitted_request) (build_pem_trustchain (leaf ∷ (root ∷ []))).0 "c1" (
          stored_after submitted_request
            (rounds (live submitted_request) "ns" name 2 (start submitted_request)).history)
        ≡ true)
unfolding submitted-Awaits
rounds-delivered_example =
    rounds-delivered (live submitted_request) "ns" name submitted_request (λ h. refl)
      lib-RequestConditionLaws (start submitted_request) submitted-Awaits refl 0

new-Reaches : Reaches (live new_request) "ns" new_request
unfolding is_settled is_ready get_ready_condition client_from_issuer trim_suffix
new-Reaches = record {
  found = in_namespace ready_issuer;
  secret = login;
  client = ann;
  annotations = [];
  owned = refl;
  served = (refl, λ h. refl);
  healthy = refl;
  login = λ h. refl;
  configured = refl;
  unchecked = refl;
  not_deleted = refl;
  annotated = refl;
  is_map = tt;
  open_request = refl;
}

new-Undecided : Undecided (live new_request) new_request
new-Undecided = record { not_denied = refl; not_approved = refl }

new-Accepts : Accepts (live new_request) ann new_request
new-Accepts = record {
  id = "r1";
  certificate = parent "";
  condition = record { kind = "Issuing"; reason = "" };
  template = template;
  email = record { value = none; rest = "{}" };
  owner = record { value = none; rest = "{}" };
  team = record { value = none; rest = "{}" };
  parent = λ h. refl;
  issuing = refl;
  templated = λ h question. refl;
  has_email = refl;
  has_owner = refl;
  has_team = refl;
  taken = λ h body. refl;
}

new-Completes : Completes (live new_request) ann "r1"
unfolding build_pem_trustchain
new-Completes = record {
  answer = record { status = Sdk.completed; certificate = issued };
  certs = leaf ∷ (root ∷ []);
  answered = λ h. refl;
  is_completed = refl;
  chain = λ h. refl;
  full = refl;
}

rounds-issued_example :
    (is_delivered (live new_request) (build_pem_trustchain (leaf ∷ (root ∷ []))).0 "c1" (
        stored_after new_request
          (rounds (live new_request) "ns" name 3 (start new_request)).history)
      ≡ true)
    × (orders (rounds (live new_request) "ns" name 3 (start new_request)) ≡ 1)
unfolding new-Reaches new-Accepts new-Completes
rounds-issued_example =
    rounds-issued (live new_request) "ns" name new_request (λ h. refl) lib-RequestConditionLaws
      (start new_request) new-Reaches new-Undecided new-Accepts new-Completes refl refl 0
