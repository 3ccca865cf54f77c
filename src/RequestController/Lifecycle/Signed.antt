-- ===== src/RequestController/Lifecycle/Signed.antt =====
-- internal/controller/certificaterequest_controller.go: the Ready condition and the certificate of
-- a request, over several reconciliations.
use horizon_issuer.Common.{
  ℕ, zero, suc, String, true, false, Option, ◌≡◌, refl, arith, inl, inr, Option-cases,
}
use horizon_issuer.Common.Dict.{Dict}
use horizon_issuer.Api.{CertificateRequest, IssuerSpec, NamespacedName}
use horizon_issuer.Effects.{State, Return, named_results}
use horizon_issuer.Effects.Env.{Env}
use horizon_issuer.Horizon.Requests.{Memory, set_condition}
use horizon_issuer.RequestController.{is_settled, reconcile_unsettled, reconcile}
use horizon_issuer.RequestController.Process.{process}
use horizon_issuer.RequestController.Finish.{finish}
use horizon_issuer.RequestController.Finish.Laws.{RequestConditionLaws}
use horizon_issuer.RequestController.Finish.Failure.{failure_condition, is_refused}
use horizon_issuer.RequestController.Orders.{orders}
use horizon_issuer.RequestController.Lifecycle.{Holds, stored_after, rounds}
use horizon_issuer.RequestController.Lifecycle.Keeps.{stored, process-stored}
use horizon_issuer.RequestController.Lifecycle.Lift.{reconcile-test}
use horizon_issuer.RequestController.Lifecycle.Stored.{finish-stored}
use horizon_issuer.RequestController.Lifecycle.Full.{
  is_signed_or_open, full, set-full, process-full,
}

module _ (env : Env) (laws : RequestConditionLaws env.lib) where
  module _ (ns : String) (name : NamespacedName) (init : CertificateRequest)
      (holds : Holds env name init) where
    finish-full :
        (before : Option Dict) (r : Return) (s : State Memory)
        → is_signed_or_open env (stored env init s) ≡ true
        → full env laws s ≡ true
        → is_signed_or_open env (stored env init (finish env before r s).1) ≡ true
    unfolding set_condition
    finish-full before r s h f = elim (Option-cases r.err) [
      | inl e ↦ ground (arith, finish-stored env init before r s)
      | inr (x, e) ↦ ground (
        arith,
        finish-stored env init before r s,
        set-full env laws (failure_condition (is_refused env x s) x) s refl f,
      )
    ]

    open-full :
        (s : State Memory)
        → is_settled env ns s.memory.request.conditions ≡ false
        → full env laws s ≡ true
    unfolding is_settled
    open-full s h = ground arith

    unsettled-full :
        (spec : IssuerSpec) (s : State Memory)
        → is_signed_or_open env (stored env init s) ≡ true
        → is_signed_or_open env (stored env init (reconcile_unsettled env ns spec s).1) ≡ true
    unfolding reconcile_unsettled
    unsettled-full spec s h =
        let (o, t) = process env spec s in
        grind (
          arith,
          open-full s,
          process-stored env init spec s,
          process-full env laws spec s,
          finish-full s.memory.request.metadata.annotations (named_results o) t,
        )

    reconcile-full :
        (s : State Memory)
        → is_signed_or_open env (stored env init s) ≡ true
        → is_signed_or_open env (stored env init (reconcile env ns name s).1) ≡ true
    reconcile-full s h =
        reconcile-test env ns name init holds (stored env init s).metadata.annotations
          (stored env init s).conditions (stored env init s).certificate (orders s)
          (λ t. is_signed_or_open env (stored env init t)) (λ t q. ground (arith, q, h))
          (λ spec t q g. unsettled-full spec t (ground (arith, q, h))) s
          (refl, (refl, (refl, refl)))

-- A request that the API server holds as Ready has a certificate: this stays so over every
-- reconciliation, whatever Horizon answers, panics included. The API server takes every update, and
-- nobody else writes the request; cert-manager's condition functions are as documented.
pub rounds-signed :
    (env : Env) (ns : String) (name : NamespacedName) (init : CertificateRequest)
    → Holds env name init
    → RequestConditionLaws env.lib
    → (n : ℕ) (s : State Memory) → is_signed_or_open env (stored_after init s.history) ≡ true
    → is_signed_or_open env (stored_after init (rounds env ns name n s).history) ≡ true
unfolding rounds
rounds-signed env ns name init holds laws zero s h = h
rounds-signed env ns name init holds laws (suc n) s h =
    rounds-signed env ns name init holds laws n (reconcile env ns name s).1
      (reconcile-full env laws ns name init holds s h)
