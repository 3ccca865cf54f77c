-- ===== src/RequestController/Lifecycle.antt =====
-- internal/controller/certificaterequest_controller.go: the life of one CertificateRequest, over
-- any number of reconciliations, on an API server that takes every update.
pub mod Panics
pub mod Keeps
pub mod Annotations
pub mod Settles
pub mod Stored
pub mod Lift
pub mod Kept
pub mod Overlay
pub mod Once
pub mod Served
pub mod Awaits
pub mod Issues
pub mod Delivered
pub mod Submits
pub mod Issuance
pub mod Status
pub mod Denied
pub mod Phases
pub mod SameId
pub mod Full
pub mod Signed
pub mod Guarded
pub mod Finalizer
use horizon_issuer.Common.{
  ℕ, zero, suc, String, Bool, true, false, ◌||◌, ◌&&◌, not, Option, none, some, List, [], ◌∷◌, ◌≡◌,
  is_some, if◌then◌else◌,
}
use horizon_issuer.Common.Dict.{Dict, lookup}
use horizon_issuer.Errors.{ok}
use horizon_issuer.Api.{NamespacedName, CertificateRequest, ready, is_false, get_annotation}
use horizon_issuer.Sdk.{Client, Submission}
use horizon_issuer.Effects.{Call, History, State, update_request, update_request_status}
use horizon_issuer.Effects.Env.{Env}
use horizon_issuer.Horizon.Annotations.{request_id}
use horizon_issuer.Horizon.Requests.{Memory}
use horizon_issuer.RequestController.{reconcile}

-- `Update` writes the metadata and the spec, and keeps the status that is stored.
abbrev pub with_status : CertificateRequest → CertificateRequest → CertificateRequest
with_status cr stored = record cr {
  conditions = stored.conditions;
  certificate = stored.certificate;
  ca = stored.ca;
  failure_time = stored.failure_time;
}

-- The request that the API server holds after the calls so far: `Update` writes all but the status,
-- `Status().Update` the status alone.
abbrev pub stored_after : CertificateRequest → History → CertificateRequest
stored_after init [] = init
stored_after init (update_request cr ∷ h) = with_status cr (stored_after init h)
stored_after init (update_request_status cr ∷ h) = with_status (stored_after init h) cr
stored_after init (_ ∷ h) = stored_after init h

-- The API server holds the request under its name, nobody else writes it, and every update of it is
-- taken, whatever is answered.
abbrev pub Holds : Env → NamespacedName → CertificateRequest → Type 0
Holds env name init = (h : History) → env.cluster.get_request h name ≡ ok (stored_after init h)

-- The state after a number of reconciliations.
unfoldable pub rounds : Env → String → NamespacedName → ℕ → State Memory → State Memory
rounds env ns name zero s = s
rounds env ns name (suc n) s = rounds env ns name n (reconcile env ns name s).1

-- A test on annotations that are there.
abbrev pub on : (Dict → Bool) → Option Dict → Bool
on p none = false
on p (some m) = p m

abbrev pub has_id : Option Dict → Bool
has_id m = is_some (get_annotation request_id m)

-- Submitted, or failed for good.
abbrev pub is_handled : Env → CertificateRequest → Bool
is_handled env cr =
    has_id cr.metadata.annotations
    || env.lib.request_has_condition cr.conditions ready is_false "Failed"
