-- ===== src/RequestController/Lifecycle/Phases/Refines.antt =====
-- internal/controller/certificaterequest_controller.go: reconciliations as steps and runs of the
-- machine of Phases.
use horizon_issuer.Common.{
  ℕ, zero, suc, String, Bool, true, false, some, ◌≡◌, refl, arith, inl, inr, Option-cases,
  Bool-cases,
}
use horizon_issuer.Common.Dict.{Dict, lookup, is_map}
use horizon_issuer.Api.{CertificateRequest, IssuerSpec, NamespacedName}
use horizon_issuer.Effects.{State}
use horizon_issuer.Effects.Env.{Env}
use horizon_issuer.Horizon.Annotations.{request_id}
use horizon_issuer.Horizon.Requests.{Memory}
use horizon_issuer.RequestController.{is_settled, reconcile_unsettled, reconcile}
use horizon_issuer.RequestController.Finish.Laws.{RequestConditionLaws}
use horizon_issuer.RequestController.Orders.{orders}
use horizon_issuer.RequestController.Lifecycle.{Holds, stored_after, on, rounds}
use horizon_issuer.RequestController.Lifecycle.Keeps.{stored}
use horizon_issuer.RequestController.Lifecycle.Settles.{AnswersWithId}
use horizon_issuer.RequestController.Lifecycle.Lift.{reconcile-test}
use horizon_issuer.RequestController.Lifecycle.Kept.{is_map-insert, reconcile-kept}
use horizon_issuer.RequestController.Lifecycle.Phases.{
  Run, stop, go, moves-Step, moves_refl, phase_of, machine,
}
use horizon_issuer.RequestController.Lifecycle.Phases.Follows.{
  follows, after, Open, fresh-follows, waiting-follows, granted-follows, refused-follows,
}

module _ (env : Env) (ns : String) (init : CertificateRequest)
    (laws : RequestConditionLaws env.lib) where
  module _ (m : Dict) (map : is_map m ≡ true) (spec : IssuerSpec) (s : State Memory)
      (annotated : s.memory.request.metadata.annotations ≡ some m) where
    open-follows :
        AnswersWithId env
        → s.memory.request.conditions ≡ (stored env init s).conditions
        → s.memory.request.metadata.annotations ≡ (stored env init s).metadata.annotations
        → is_settled env ns (stored env init s).conditions ≡ false
        → follows env ns init laws
            (phase_of env ns (stored env init s))
            (orders s)
            (after env ns init laws m map spec s annotated)
          ≡ true
    open-follows answers cs kept open_request =
        let d = env.lib.request_is_denied (stored env init s).conditions in
        let a = env.lib.request_is_approved (stored env init s).conditions in
        let known : (x y : Bool) → d ≡ x → a ≡ y → Open env ns init laws s x y = λ x y h g. record {
          same_annotations = kept;
          same_conditions = cs;
          is_open = open_request;
          denied = h;
          approved = g;
        } in
        elim (Bool-cases d) [
          | inl h ↦ ground (
            arith,
            h,
            open_request,
            refused-follows env ns init laws m map spec s annotated a (known true a h refl),
          )
          | inr h ↦ elim (Bool-cases a) [
            | inl g ↦ ground (
              arith,
              h,
              g,
              open_request,
              granted-follows env ns init laws m map spec s annotated (known false true h g),
            )
            | inr g ↦ elim (Option-cases (lookup request_id m)) [
              | inl no_id ↦ ground (
                arith,
                h,
                g,
                open_request,
                kept,
                annotated,
                fresh-follows env ns init laws m map spec s annotated answers
                    (known false false h g) no_id,
              )
              | inr (id, has) ↦ ground (
                arith,
                h,
                g,
                open_request,
                kept,
                annotated,
                has,
                waiting-follows env ns init laws m map spec s annotated id (known false false h g)
                    has,
              )
            ]
          ]
        ]

    unsettled-after :
        is_settled env ns s.memory.request.conditions ≡ false
        → (reconcile_unsettled env ns spec s).1 ≡ after env ns init laws m map spec s annotated
    unfolding reconcile_unsettled
    unsettled-after h = ground (arith, h, annotated)

  unsettled-same :
      (spec : IssuerSpec) (s : State Memory)
      → is_settled env ns s.memory.request.conditions ≡ true
      → (reconcile_unsettled env ns spec s).1 ≡ s
  unfolding reconcile_unsettled
  unsettled-same spec s h = ground (arith, h)

  module _ (name : NamespacedName) (holds : Holds env name init) (answers : AnswersWithId env) where
    reconcile-follows :
        (m : Dict) (s : State Memory)
        → is_map m ≡ true
        → (stored env init s).metadata.annotations ≡ some m
        → follows env ns init laws
            (phase_of env ns (stored env init s))
            (orders s)
            (reconcile env ns name s).1
          ≡ true
    reconcile-follows m s map h =
        let p = phase_of env ns (stored env init s) in
        reconcile-test env ns name init holds (some m) (stored env init s).conditions
          (stored env init s).certificate (orders s) (follows env ns init laws p (orders s))
          (λ t q. ground (arith, moves_refl p (orders s), q, h))
          (λ spec t q g. elim (Bool-cases (is_settled env ns t.memory.request.conditions)) [
            | inl e ↦ ground (arith, unsettled-same spec t e, moves_refl p (orders s), q, h)
            | inr e ↦ ground (
              arith,
              unsettled-after m map spec t g.0 e,
              open-follows m map spec t g.0 answers,
              g,
              q,
              h,
              e,
            )
          ])
          s (h, (refl, (refl, refl)))

    rounds-runs :
        (n : ℕ) (s : State Memory)
        → on is_map (stored env init s).metadata.annotations ≡ true
        → Run (machine env ns init s) (machine env ns init (rounds env ns name n s))
    unfolding rounds
    rounds-runs zero s map = stop
    rounds-runs (suc n) s map = elim (Option-cases (stored env init s).metadata.annotations) [
      | inl e ↦ ground (arith, e)
      | inr (m, e) ↦
          let t = (reconcile env ns name s).1 in
          go
            (moves-Step (phase_of env ns (stored env init s)) (phase_of env ns (stored env init t))
              (orders s) (orders t) (reconcile-follows m s (ground (arith, e)) e))
            (rounds-runs n t (reconcile-kept env ns name init holds is_map is_map-insert s map))
    ]

-- Any number of reconciliations is a run of the machine of Phases: a new request is ordered once,
-- and then waits, or fails; only a request that waits is approved or denied, an approved, denied or
-- waiting one is never ordered again, and one that is Ready, Failed or Denied stays so. The API
-- server takes every update, and nobody else writes the request, whose annotations are not nil;
-- cert-manager's condition functions are as documented, and a submission that Horizon takes is
-- answered with an id.
pub rounds-Run :
    (env : Env) (ns : String) (name : NamespacedName) (init : CertificateRequest)
    → Holds env name init
    → RequestConditionLaws env.lib
    → AnswersWithId env
    → (n : ℕ) (s : State Memory)
    → on is_map (stored_after init s.history).metadata.annotations ≡ true
    → Run (machine env ns init s) (machine env ns init (rounds env ns name n s))
rounds-Run env ns name init holds laws answers n s map =
    rounds-runs env ns init laws name holds answers n s map
