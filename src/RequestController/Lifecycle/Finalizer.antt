-- ===== src/RequestController/Lifecycle/Finalizer.antt =====
-- internal/controller/certificaterequest_controller.go: the finalizer of a request, over several
-- reconciliations.
use horizon_issuer.Common.{
  ℕ, zero, suc, String, Bool, true, ◌&&◌, Option, List, ◌≡◌, arith, inl, inr, Option-cases,
}
use horizon_issuer.Common.Dict.{Dict}
use horizon_issuer.Errors.{Error, err}
use horizon_issuer.Api.{CertificateRequest, IssuerSpec, NamespacedName}
use horizon_issuer.Sdk.{Client, revoke}
use horizon_issuer.Effects.{State, Return, named_results, History}
use horizon_issuer.Effects.Env.{Env, Libraries}
use horizon_issuer.Horizon.Annotations.{finalizer_name}
use horizon_issuer.Horizon.Requests.{Memory, set_condition, revoke_certificate}
use horizon_issuer.RequestController.{
  add_finalizer, reconcile_unsettled, reconcile_with_client, reconcile_with_secret, reconcile_owned,
  reconcile,
}
use horizon_issuer.RequestController.Lookup.{issuer_from_request}
use horizon_issuer.RequestController.Process.{process}
use horizon_issuer.RequestController.Deletion.{record_event, handle_deletion}
use horizon_issuer.RequestController.Finish.{set_not_ready, finish}
use horizon_issuer.RequestController.Lifecycle.{Holds, stored_after, rounds}
use horizon_issuer.RequestController.Lifecycle.Keeps.{stored, process-stored}
use horizon_issuer.RequestController.Lifecycle.Stored.{finish-stored}
use horizon_issuer.RequestController.Lifecycle.Guarded.{is_guarded, process-finalizers}

-- controller-runtime's AddFinalizer, as documented: what was added is contained.
abbrev pub FinalizerLaw : Libraries → Type 0
FinalizerLaw lib =
    (fs : List String) (f : String) → lib.contains_finalizer (lib.add_finalizer fs f) f ≡ true

-- Horizon refuses every revocation.
abbrev pub RefusesRevocations : Env → Type 0
RefusesRevocations env =
    (h : History) (client : Client) (pem : String)
    → (e : Error) × (env.horizon.request_submit h client (revoke pem) ≡ err e)

module _ (env : Env) (ns : String) (init : CertificateRequest) (law : FinalizerLaw env.lib)
    (refuses : RefusesRevocations env) where
  -- Stored and in memory.
  abbrev guarded : State Memory → Bool
  guarded s = is_guarded env (stored env init s) && is_guarded env s.memory.request

  abbrev still : State Memory → Bool
  still s = is_guarded env (stored env init s)

  finish-guarded :
      (before : Option Dict) (r : Return) (s : State Memory)
      → guarded s ≡ true
      → still (finish env before r s).1 ≡ true
  finish-guarded before r s h = elim (Option-cases r.err) [
    | inl e ↦ ground (arith, finish-stored env init before r s)
    | inr (x, e) ↦ ground (arith, finish-stored env init before r s)
  ]

  unsettled-guarded :
      (spec : IssuerSpec) (s : State Memory)
      → guarded s ≡ true
      → still (reconcile_unsettled env ns spec s).1 ≡ true
  unfolding reconcile_unsettled
  unsettled-guarded spec s h =
      let (o, t) = process env spec s in
      grind (
        arith,
        process-stored env init spec s,
        process-finalizers env spec s,
        finish-guarded s.memory.request.metadata.annotations (named_results o) t,
      )

  handle_deletion-guarded :
      (s : State Memory) → guarded s ≡ true → still (handle_deletion env s).1 ≡ true
  unfolding handle_deletion revoke_certificate
  handle_deletion-guarded s h = elim (Option-cases s.memory.client) [
    | inl unset ↦ ground arith
    | inr (client, set) ↦
        let (e, refused) = refuses s.history client s.memory.request.certificate in
        ground (arith, set, refused)
  ]

  add_finalizer-guarded :
      (s : State Memory) → guarded s ≡ true → guarded (add_finalizer env ns s).1 ≡ true
  unfolding add_finalizer
  add_finalizer-guarded s h =
      ground (arith, law s.memory.request.metadata.finalizers finalizer_name)

  reconcile_with_client-guarded :
      (spec : IssuerSpec) (s : State Memory)
      → guarded s ≡ true
      → still (reconcile_with_client env ns spec s).1 ≡ true
  unfolding reconcile_with_client add_finalizer
  reconcile_with_client-guarded spec s h = grind (
    arith,
    add_finalizer-guarded s h,
    unsettled-guarded spec s h,
    unsettled-guarded spec (add_finalizer env ns s).1,
    handle_deletion-guarded s h,
  )

  reconcile_with_secret-guarded :
      (spec : IssuerSpec) (namespace : String) (s : State Memory)
      → guarded s ≡ true
      → still (reconcile_with_secret env ns spec namespace s).1 ≡ true
  unfolding reconcile_with_secret
  reconcile_with_secret-guarded spec namespace s h = grind (arith, reconcile_with_client-guarded)

  reconcile_owned-guarded :
      (cr : CertificateRequest) (s : State Memory)
      → guarded s ≡ true
      → still (reconcile_owned env ns cr s).1 ≡ true
  unfolding reconcile_owned issuer_from_request set_not_ready set_condition record_event
  reconcile_owned-guarded cr s h = grind (arith, reconcile_with_secret-guarded)

  reconcile-guarded :
      (name : NamespacedName)
      → Holds env name init
      → (s : State Memory) → still s ≡ true
      → still (reconcile env ns name s).1 ≡ true
  unfolding reconcile
  reconcile-guarded name holds s h = grind (arith, holds s.history, reconcile_owned-guarded)

-- While Horizon refuses every revocation, a request that has the finalizer keeps it over every
-- reconciliation, so that it is not removed before its certificate is revoked. The API server takes
-- every update, and nobody else writes the request; controller-runtime's AddFinalizer is as
-- documented.
pub rounds-guarded :
    (env : Env) (ns : String) (name : NamespacedName) (init : CertificateRequest)
    → Holds env name init
    → FinalizerLaw env.lib
    → RefusesRevocations env
    → (n : ℕ) (s : State Memory) → is_guarded env (stored_after init s.history) ≡ true
    → is_guarded env (stored_after init (rounds env ns name n s).history) ≡ true
unfolding rounds
rounds-guarded env ns name init holds law refuses zero s h = h
rounds-guarded env ns name init holds law refuses (suc n) s h =
    rounds-guarded env ns name init holds law refuses n (reconcile env ns name s).1
      (reconcile-guarded env ns init law refuses name holds s h)
