-- ===== src/Tests/Requests.antt =====
-- The reconciler of requests on concrete requests.
use horizon_issuer.Common.{suc, ◌≤◌, some, [], ◌∷◌, ◌≡◌, refl}
use horizon_issuer.Errors.{Error, plain}
use horizon_issuer.Sdk
use horizon_issuer.Api.{NamespacedName, CertificateRequest, IssuerSpec}
use horizon_issuer.Effects.{State, returned, fail, done}
use horizon_issuer.Effects.Count.{count, is_horizon}
use horizon_issuer.Horizon.Requests.{Memory}
use horizon_issuer.Horizon.TrustChain.{build_pem_trustchain}
use horizon_issuer.Horizon.Polling.{approval, handle_completed_request}
use horizon_issuer.Horizon.Polling.Issued.{Issued, handle_completed_request-Issued}
use horizon_issuer.RequestController.{is_settled, reconcile, reconcile_unsettled}
use horizon_issuer.RequestController.Orders.{orders, reconcile-at_most_one_order}
use horizon_issuer.RequestController.Fresh.{reconcile-stale}
use horizon_issuer.RequestController.Stuck.{calls, reconcile-approved}
use horizon_issuer.RequestController.Lost.{StoresApproved, reconcile-lost}
use horizon_issuer.RequestController.Settles.{StoresSettled, reconcile-refused}
use horizon_issuer.RequestController.Deletion.Laws.{Deletion, handle_deletion-Deletion}
use horizon_issuer.RequestController.Process.{process}
use horizon_issuer.RequestController.Process.Dns.{process-unresolved}
use horizon_issuer.Tests.Values.{
  request, parent, open_horizon, closed_horizon, env, ann, plain_spec, leaf, root, issued,
}
use horizon_issuer.Tests.Library.{lib-RequestConditionLaws}

abbrev name : NamespacedName
name = record { namespace = "web"; name = "shop" }

abbrev start : CertificateRequest → State Memory
start cr = record { memory = record { request = cr; client = some ann }; history = [] }

-- A new request, one that was submitted, and one that was approved.
abbrev new_request : CertificateRequest
new_request = request (some []) []

abbrev submitted_request : CertificateRequest
submitted_request = request (some (("horizon.evertrust.io/request-id", "r1") ∷ [])) []

abbrev approved_request : CertificateRequest
approved_request = request (some []) (approval ∷ [])

abbrev finalized_request : CertificateRequest
finalized_request = record new_request {
  metadata = record (new_request.metadata) { finalizers = "horizon.evertrust.io/finalizer" ∷ [] };
}

abbrev checked_spec : IssuerSpec
checked_spec = record plain_spec { dns_checker = some (record { server = "10.0.0.1" }) }

reconcile-at_most_one_order_example :
    orders (reconcile (env open_horizon new_request (parent "")) "ns" name (start new_request)).1
    ≤ suc (orders (start new_request))
reconcile-at_most_one_order_example =
    reconcile-at_most_one_order (env open_horizon new_request (parent "")) "ns" name
      (start new_request)

reconcile-stale_example :
    orders
      (reconcile (env open_horizon submitted_request (parent "")) "ns" name (start new_request)).1
    ≡ 0
unfolding is_settled
reconcile-stale_example =
    reconcile-stale (env open_horizon submitted_request (parent "")) "ns" name submitted_request
      (start new_request) refl refl

reconcile-approved_example :
    calls
      (reconcile (env open_horizon approved_request (parent "")) "ns" name (start new_request)).1
    ≡ 0
reconcile-approved_example =
    reconcile-approved (env open_horizon approved_request (parent "")) "ns" name approved_request
      (start new_request) refl (refl, refl)

reconcile-lost_example :
    StoresApproved
      (env closed_horizon submitted_request (parent ""))
      (start submitted_request)
      (reconcile_unsettled
        (env closed_horizon submitted_request (parent ""))
        "ns"
        plain_spec
        (start submitted_request)).1
unfolding is_settled
reconcile-lost_example =
    reconcile-lost (env closed_horizon submitted_request (parent "")) "ns" plain_spec
      (start submitted_request) lib-RequestConditionLaws (λ h cr. refl)
      (record {
        client = ann;
        answer = record { status = Sdk.completed; certificate = issued };
        error = plain "no chain";
        open_request = refl;
        not_denied = refl;
        not_approved = refl;
        unchecked = refl;
        submitted = refl;
        no_id = refl;
        is_map = (refl, tt);
        connected = refl;
        fetched = refl;
        issued = refl;
        no_chain = refl;
      })

reconcile-refused_example :
    StoresSettled
      (env closed_horizon new_request (parent "Expired"))
      "ns"
      (reconcile_unsettled
        (env closed_horizon new_request (parent "Expired"))
        "ns"
        plain_spec
        (start new_request)).1
unfolding is_settled
reconcile-refused_example =
    reconcile-refused (env closed_horizon new_request (parent "Expired")) "ns" plain_spec
      (start new_request) lib-RequestConditionLaws (λ h cr. refl)
      (record {
        client = ann;
        certificate = parent "Expired";
        condition = record { kind = "Issuing"; reason = "Expired" };
        last_id = "c0";
        error = plain "refused";
        open_request = refl;
        not_denied = refl;
        not_approved = refl;
        unchecked = refl;
        new_request = refl;
        no_id = refl;
        is_map = tt;
        connected = refl;
        parent = refl;
        issuing = refl;
        renewal = refl;
        annotated = refl;
        last = refl;
        refused = refl;
      })

handle_deletion-Deletion_example :
    Deletion (env open_horizon finalized_request (parent "")) (start finalized_request) ann
handle_deletion-Deletion_example =
    handle_deletion-Deletion (env open_horizon finalized_request (parent ""))
      (start finalized_request) ann refl refl (λ e. cc)

process-unresolved_example :
    (e : Error) × (((process
          (env open_horizon new_request (parent ""))
          checked_spec
          (start new_request)).0
        ≡ returned (fail e))
      × (count is_horizon
            (process
              (env open_horizon new_request (parent ""))
              checked_spec
              (start new_request)).1.history
          ≡ 0))
process-unresolved_example =
    process-unresolved (env open_horizon new_request (parent "")) (start new_request) checked_spec
      (record { server = "10.0.0.1" }) (record { common_name = "csr"; dns_names = [] }) refl refl
      refl (λ all. cc (all.0))

handle_completed_request-Issued_example :
    ((handle_completed_request
        (env open_horizon submitted_request (parent ""))
        (record { status = Sdk.completed; certificate = issued })
        (start submitted_request)).0
      ≡ returned done)
    × Issued
        (env open_horizon submitted_request (parent ""))
        (start submitted_request)
        (record { status = Sdk.completed; certificate = issued })
        (leaf ∷ (root ∷ []))
        (handle_completed_request
          (env open_horizon submitted_request (parent ""))
          (record { status = Sdk.completed; certificate = issued })
          (start submitted_request)).1
unfolding build_pem_trustchain
handle_completed_request-Issued_example =
    handle_completed_request-Issued (env open_horizon submitted_request (parent ""))
      (start submitted_request) (record { status = Sdk.completed; certificate = issued }) ann
      (("horizon.evertrust.io/request-id", "r1") ∷ []) refl refl (leaf ∷ (root ∷ [])) refl refl
