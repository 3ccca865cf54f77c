-- ===== src/RequestController/Deletion.antt =====
-- internal/controller/certificaterequest_controller.go: handleDeletion.
pub mod Laws
use horizon_issuer.Common.{String, Option, none, some, if◌then◌else◌}
use horizon_issuer.Common.Text.{◌<>◌}
use horizon_issuer.Errors.{Error, Result, ok, err}
use horizon_issuer.Api.{CertificateRequest}
use horizon_issuer.Effects.{
  EventTarget, for_request, for_issuer, event, update_request, M, pure, ask, gets, ◌>>=◌, ◌>>◌,
  modify, when,
}
use horizon_issuer.Effects.Env.{Env}
use horizon_issuer.Horizon.Annotations.{finalizer_name}
use horizon_issuer.Horizon.Requests.{Memory, revoke_certificate}
use horizon_issuer.RequestController.Lookup.{issuer_from_request}

-- `r.Recorder.Event(…)`
unfoldable pub record_event :
    EventTarget → (event_type reason message : String) → M Memory (Unit {0})
record_event target event_type reason message =
    ask (event target event_type reason message) (λ _. tt)

module _ (env : Env) where
  -- `r.Update(ctx, certificateRequest)`
  unfoldable pub save_request : M Memory (Option Error)
  save_request = do
    cr ← gets (λ w. w.request)
    answer ← ask (update_request cr) (λ h. env.cluster.update_request h cr)
    modify (λ w. record w { request = answer.0 })
    pure answer.1

  -- The event on the issuer, if the issuer can be fetched.
  unfoldable pub record_revocation : M Memory (Unit {0})
  record_revocation = do
    cr ← gets (λ w. w.request)
    found ← issuer_from_request env cr
    elim found [
      | err _ ↦ pure tt
      | ok o ↦
          record_event (for_issuer o) "Normal" "RevokedCertificate"
            ("Revoked certificate request " <> (cr.metadata.name <> " on Horizon"))
    ]

  unfoldable pub drop_finalizer : M Memory (Unit {0})
  drop_finalizer = modify (λ w. record w {
    request = record (w.request) {
      metadata = record (w.request.metadata) {
        finalizers = env.lib.remove_finalizer w.request.metadata.finalizers finalizer_name;
      };
    };
  })

  -- The error of the update is not returned.
  unfoldable pub handle_deletion : M Memory (Option Error)
  handle_deletion = do
    cr ← gets (λ w. w.request)
    if env.lib.contains_finalizer cr.metadata.finalizers finalizer_name
        then (do
          failure ← revoke_certificate env
          elim failure [
            | some e ↦ pure (some e)
            | none ↦ do record_revocation; drop_finalizer; save_request; pure none
          ])
        else pure none
