-- ===== src/RequestController.antt =====
-- internal/controller/certificaterequest_controller.go: the reconciler of CertificateRequests.
pub mod Lookup
pub mod Metadata
pub mod Deletion
pub mod Finish
pub mod Process
pub mod Orders
pub mod Fresh
pub mod Stuck
pub mod Lost
pub mod Settles
pub mod Returns
pub mod Unready
pub mod Lifecycle
use horizon_issuer.Common.{
  ℕ, zero, suc, String, Bool, true, false, Option, none, some, List, [], ◌∷◌, not, ◌||◌,
  if◌then◌else◌,
}
use horizon_issuer.Common.Text.{◌<>◌, ◌==◌}
use horizon_issuer.Errors.{Error, plain, text, Result, ok, err}
use horizon_issuer.Api.{
  NamespacedName, CertificateRequest, RequestCondition, ready, is_true, is_false, IssuerSpec,
  ClientObject, issuer, cluster_issuer, other, group, Secret,
}
use horizon_issuer.Effects.{
  get_request, get_secret, for_request, M, pure, ask, gets, ◌>>=◌, ◌>>◌, modify, when, Return, done,
  fail, with_defer,
}
use horizon_issuer.Effects.Env.{Env}
use horizon_issuer.Horizon.Annotations.{finalizer_name}
use horizon_issuer.Horizon.ClientConfig.{client_from_issuer, trim_url}
use horizon_issuer.Horizon.Requests.{Memory, set_condition}
use horizon_issuer.IssuerController.{secret_error}
use horizon_issuer.IssuerUtil.{get_spec_and_status, is_ready}
use horizon_issuer.RequestController.Lookup.{issuer_from_request}
use horizon_issuer.RequestController.Deletion.{handle_deletion, record_event}
use horizon_issuer.RequestController.Finish.{finish, set_not_ready}
use horizon_issuer.RequestController.Process.{process, rewrap}

-- `DeletionTimestamp.IsZero()`: nil, or the zero time.
abbrev pub is_zero_time : Option ℕ → Bool
is_zero_time none = true
is_zero_time (some zero) = true
is_zero_time (some (suc _)) = false

module _ (env : Env) (cluster_resource_namespace : String) where
  -- The namespace of the secret; no other object comes this far.
  abbrev pub secret_namespace : CertificateRequest → ClientObject → Option String
  secret_namespace cr (issuer i) = some cr.metadata.namespace
  secret_namespace cr (cluster_issuer i) = some cluster_resource_namespace
  secret_namespace cr other = none

  unfoldable pub add_finalizer : M Memory (Unit {0})
  add_finalizer = do
    finalizers ← gets (λ w. w.request.metadata.finalizers)
    when (not (env.lib.contains_finalizer finalizers finalizer_name)) (
        modify (λ w. record w {
          request = record (w.request) {
            metadata = record (w.request.metadata) {
              finalizers = env.lib.add_finalizer finalizers finalizer_name;
            };
          };
        }))

  -- Ready, Failed or Denied already: the three early returns.
  unfoldable pub is_settled : List RequestCondition → Bool
  is_settled cs =
      env.lib.request_has_condition cs ready is_true ""
      || (env.lib.request_has_condition cs ready is_false "Failed"
          || env.lib.request_has_condition cs ready is_false "Denied")

  -- From the early returns to the end.
  unfoldable pub reconcile_unsettled : IssuerSpec → M Memory Return
  reconcile_unsettled spec = do
    cr ← gets (λ w. w.request)
    if is_settled cr.conditions
        then pure done
        else with_defer (finish env cr.metadata.annotations) (process env spec)

  -- From the finalizer on, with the client set.
  unfoldable pub reconcile_with_client : IssuerSpec → M Memory Return
  reconcile_with_client spec = do
    cr ← gets (λ w. w.request)
    if spec.revoke_certificates
        then if is_zero_time cr.metadata.deletion_timestamp
          then (do add_finalizer; reconcile_unsettled spec)
          else (do
            failure ← handle_deletion env
            elim failure [ some e ↦ pure (fail e) | none ↦ pure done ])
        else reconcile_unsettled spec

  -- From the secret on.
  unfoldable pub reconcile_with_secret : IssuerSpec → String → M Memory Return
  reconcile_with_secret spec namespace = do
    let name : NamespacedName = record { name = spec.auth_secret_name; namespace = namespace }
    answer ← ask (get_secret name) (λ h. env.cluster.get_secret h name)
    elim answer [
      | err e ↦ pure (fail (secret_error env.lib name e))
      | ok secret ↦ elim (client_from_issuer env.lib spec secret) [
        | err e ↦ pure (fail (plain ("Unable to instantiate an Horizon client: " <> text e)))
        | ok client ↦ do
          modify (λ w. record w { client = some client })
          reconcile_with_client (trim_url env.lib spec)
      ]
    ]

  -- A request of this issuer's group.
  unfoldable pub reconcile_owned : CertificateRequest → M Memory Return
  reconcile_owned cr = do
    found ← issuer_from_request env cr
    elim found [
      | err e ↦ pure (fail (rewrap e))
      | ok o ↦ elim (secret_namespace cr o) [
        | none ↦ pure done
        | some namespace ↦ elim (get_spec_and_status o) [
          | err e ↦ do
            set_not_ready env "Failed" (text e)
            now ← gets (λ w. w.request)
            record_event (for_request now) "Warning" "Error" (text e)
            pure done
          | ok (spec, status) ↦
              if is_ready env.lib (some status)
              then reconcile_with_secret spec namespace
              else pure done
        ]
      ]
    ]

  unfoldable pub reconcile : NamespacedName → M Memory Return
  reconcile name = do
    answer ← ask (get_request name) (λ h. env.cluster.get_request h name)
    elim answer [
      | err e ↦ elim (env.lib.ignore_not_found e) [
        | some e' ↦ pure (fail (plain ("unexpected get error: " <> text e')))
        | none ↦ pure done
      ]
      | ok cr ↦ do
        modify (λ w. record w { request = cr })
        if cr.issuer_ref.group == group then reconcile_owned cr else pure done
    ]
