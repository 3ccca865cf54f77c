-- ===== src/RequestController/Lifecycle/Kept.antt =====
-- internal/controller/certificaterequest_controller.go: what the API server holds of a request that
-- was submitted or that failed stays so, over every reconciliation.
use horizon_issuer.Common.{
  String, Bool, true, is_some, Option, [], ◌∷◌, ◌≡◌, refl, arith, inl, inr, Option-cases,
}
use horizon_issuer.Common.Dict.{Dict, IsMap, lookup, insert, lookup-insert, is_map}
use horizon_issuer.Common.Text.{eq_iff}
use horizon_issuer.Api.{CertificateRequest, IssuerSpec, NamespacedName, ready, is_false}
use horizon_issuer.Effects.{State, Outcome, returned, panicked, Return, named_results}
use horizon_issuer.Effects.Env.{Env}
use horizon_issuer.Horizon.Annotations.{request_id}
use horizon_issuer.Horizon.Requests.{Memory}
use horizon_issuer.RequestController.{is_settled, reconcile_unsettled, reconcile}
use horizon_issuer.RequestController.Process.{process}
use horizon_issuer.RequestController.Finish.{finish}
use horizon_issuer.RequestController.Finish.Laws.{RequestConditionLaws}
use horizon_issuer.RequestController.Finish.Failure.{failure_condition}
use horizon_issuer.RequestController.Orders.{orders}
use horizon_issuer.RequestController.Lifecycle.{Holds, on, is_handled}
use horizon_issuer.RequestController.Lifecycle.Keeps.{stored, process-stored}
use horizon_issuer.RequestController.Lifecycle.Annotations.{process-kept}
use horizon_issuer.RequestController.Lifecycle.Settles.{settles}
use horizon_issuer.RequestController.Lifecycle.Stored.{finish-stored}
use horizon_issuer.RequestController.Lifecycle.Lift.{reconcile-test}

-- A key that is listed stays so, and a map stays one.
abbrev pub has_key : String → Dict → Bool
has_key k m = is_some (lookup k m)

pub has_key-insert :
    (j k v : String) (m : Dict) → has_key j m ≡ true → has_key j (insert k v m) ≡ true
has_key-insert j k v m h = ground (arith, lookup-insert k j v m)

pub is_map-insert : (k v : String) (m : Dict) → is_map m ≡ true → is_map (insert k v m) ≡ true
is_map-insert k v [] h = refl
is_map-insert k v ((i, w) ∷ m) h =
    ground (arith, eq_iff i k, eq_iff k i, is_map-insert k v m, lookup-insert k i v m)

pub is_map-IsMap : (m : Dict) → is_map m ≡ true → IsMap m
is_map-IsMap [] h = tt
is_map-IsMap ((k, v) ∷ m) h = elim (Option-cases (lookup k m)) [
  | inl e ↦ (e, is_map-IsMap m (ground arith))
  | inr (x, e) ↦ ground arith
]

module _ (env : Env) (init : CertificateRequest) where
  pub finish-kept :
      (p : Dict → Bool) (before : Option Dict) (r : Return) (s : State Memory)
      → on p (stored env init s).metadata.annotations ≡ true
      → on p s.memory.request.metadata.annotations ≡ true
      → on p (stored env init (finish env before r s).1).metadata.annotations ≡ true
  finish-kept p before r s h g = elim (Option-cases r.err) [
    | inl e ↦ ground (arith, finish-stored env init before r s)
    | inr (x, e) ↦ ground (arith, finish-stored env init before r s)
  ]

  pub finish-handled :
      (laws : RequestConditionLaws env.lib) (before : Option Dict) (o : Outcome Return)
      (s : State Memory)
      → settles env before (o, s) ≡ true
      → is_handled env (stored env init (finish env before (named_results o) s).1) ≡ true
  finish-handled laws before panicked s h =
      ground (arith, finish-stored env init before (named_results panicked) s)
  finish-handled laws before (returned r) s h = elim (Option-cases r.err) [
    | inl e ↦ ground (arith, finish-stored env init before r s)
    | inr (x, e) ↦ ground (
      arith,
      finish-stored env init before r s,
      laws.has-set s.memory.request.conditions (failure_condition true x),
    )
  ]

module _ (env : Env) (ns : String) (name : NamespacedName) (init : CertificateRequest)
    (holds : Holds env name init) where
  -- A test on the annotations that are stored.
  abbrev stored_test : (Dict → Bool) → State Memory → Bool
  stored_test p s = on p (stored env init s).metadata.annotations

  unsettled-kept :
      (p : Dict → Bool) (closed : (k v : String) (m : Dict) → p m ≡ true → p (insert k v m) ≡ true)
      (spec : IssuerSpec) (s : State Memory)
      → stored_test p s ≡ true
      → on p s.memory.request.metadata.annotations ≡ true
      → stored_test p (reconcile_unsettled env ns spec s).1 ≡ true
  unfolding reconcile_unsettled
  unsettled-kept p closed spec s h g =
      let before = s.memory.request.metadata.annotations in
      let (o, t) = process env spec s in
      grind (
        arith,
        process-stored env init spec s,
        process-kept env p closed spec s g,
        finish-kept env init p before (named_results o) t,
      )

  -- A reconciliation keeps such a test true.
  pub reconcile-kept :
      (p : Dict → Bool) (closed : (k v : String) (m : Dict) → p m ≡ true → p (insert k v m) ≡ true)
      (s : State Memory)
      → stored_test p s ≡ true
      → stored_test p (reconcile env ns name s).1 ≡ true
  reconcile-kept p closed s h =
      reconcile-test env ns name init holds (stored env init s).metadata.annotations
        (stored env init s).conditions (stored env init s).certificate (orders s) (stored_test p)
        (λ t q. ground (arith, q.0, h))
        (λ spec t q g.
          unsettled-kept p closed spec t (ground (arith, q.0, h)) (ground (arith, g.0, h)))
        s (refl, (refl, (refl, refl)))

  abbrev has_failed : State Memory → Bool
  has_failed s =
      env.lib.request_has_condition (stored env init s).conditions ready is_false "Failed"

  unsettled-failed :
      (spec : IssuerSpec) (s : State Memory)
      → env.lib.request_has_condition s.memory.request.conditions ready is_false "Failed" ≡ true
      → (reconcile_unsettled env ns spec s).1 ≡ s
  unfolding reconcile_unsettled is_settled
  unsettled-failed spec s h = ground (arith, h)

  -- A failed request stays so.
  reconcile-failed :
      (s : State Memory) → has_failed s ≡ true → has_failed (reconcile env ns name s).1 ≡ true
  reconcile-failed s h =
      reconcile-test env ns name init holds (stored env init s).metadata.annotations
        (stored env init s).conditions (stored env init s).certificate (orders s) has_failed
        (λ t q. ground (arith, q.1.0, h))
        (λ spec t q g. ground (arith, unsettled-failed spec t, g.1, q.1.0, h)) s
        (refl, (refl, (refl, refl)))

  pub reconcile-handled :
      (s : State Memory)
      → is_handled env (stored env init s) ≡ true
      → is_handled env (stored env init (reconcile env ns name s).1) ≡ true
  reconcile-handled s h = elim (Option-cases (stored env init s).metadata.annotations) [
    | inl e ↦ ground (arith, reconcile-failed s)
    | inr (m, e) ↦ ground (
      arith,
      reconcile-failed s,
      reconcile-kept (has_key request_id) (has_key-insert request_id) s,
    )
  ]
