-- ===== src/RequestController/Lifecycle/Once.antt =====
-- internal/controller/certificaterequest_controller.go: one certificate is ordered over the life of a
-- request, however often it is reconciled (the comment on RunOnce in issuer.go).
use horizon_issuer.Common.{
  ℕ, zero, suc, String, Bool, true, false, ◌||◌, none, some, ◌≡◌, ◌≤◌, ◌∙◌, ◌⊎◌, refl, arith, inl,
  inr, Option-cases, Bool-cases, nat_eq,
}
use horizon_issuer.Common.Dict.{Dict, lookup, is_map}
use horizon_issuer.Api.{CertificateRequest, IssuerSpec, NamespacedName}
use horizon_issuer.Effects.{State, named_results}
use horizon_issuer.Effects.Env.{Env}
use horizon_issuer.Horizon.Annotations.{request_id}
use horizon_issuer.Horizon.Requests.{Memory}
use horizon_issuer.RequestController.{is_settled, reconcile_unsettled, reconcile}
use horizon_issuer.RequestController.Process.{process}
use horizon_issuer.RequestController.Finish.Laws.{RequestConditionLaws, deep_equal_refl}
use horizon_issuer.RequestController.Orders.{reconcile-at_most_one_order, orders, finish-orders}
use horizon_issuer.RequestController.Lifecycle.{Holds, stored_after, on, is_handled, rounds}
use horizon_issuer.RequestController.Lifecycle.Keeps.{stored}
use horizon_issuer.RequestController.Lifecycle.Settles.{AnswersWithId, process-Settled}
use horizon_issuer.RequestController.Fresh.{reconcile-stale, is_stale}
use horizon_issuer.RequestController.Lifecycle.Lift.{reconcile-test}
use horizon_issuer.RequestController.Lifecycle.Kept.{
  is_map-insert, is_map-IsMap, finish-handled, reconcile-kept, reconcile-handled,
}

module _ (env : Env) (ns : String) (name : NamespacedName) (init : CertificateRequest)
    (holds : Holds env name init) where
  handled-stale : (cr : CertificateRequest) → is_handled env cr ≡ true → is_stale env ns cr ≡ true
  unfolding is_settled
  handled-stale cr h = ground (arith, h)

  -- A handled request is not ordered again.
  pub rounds-handled :
      (n : ℕ) (s : State Memory)
      → is_handled env (stored env init s) ≡ true
      → orders (rounds env ns name n s) ≡ orders s
  unfolding rounds
  rounds-handled zero s h = refl
  rounds-handled (suc n) s h =
      rounds-handled n (reconcile env ns name s).1 (reconcile-handled env ns name init holds s h)
      ∙ reconcile-stale env ns name (stored env init s) s (holds s.history)
          (handled-stale (stored env init s) h)

  module _ (laws : RequestConditionLaws env.lib) (answers : AnswersWithId env) where
    -- No certificate was ordered since then, or the request that is stored is handled.
    abbrev is_settled_since : ℕ → State Memory → Bool
    is_settled_since n s = nat_eq (orders s) n || is_handled env (stored env init s)

    unsettled-settled :
        (m : Dict) (spec : IssuerSpec) (s : State Memory)
        → is_map m ≡ true
        → lookup request_id m ≡ none
        → s.memory.request.metadata.annotations ≡ some m
        → is_settled_since (orders s) (reconcile_unsettled env ns spec s).1 ≡ true
    unfolding reconcile_unsettled
    unsettled-settled m spec s map fresh h =
        let (o, t) = process env spec s in
        let same = deep_equal_refl (some m) (is_map-IsMap m map) in
        elim (process-Settled env laws answers m fresh same spec s h) [
          | inl e ↦ ground (arith, e, finish-orders env (some m) (named_results o) t)
          | inr e ↦ ground (arith, finish-handled env init laws (some m) o t e)
        ]

    reconcile-settled :
        (m : Dict) (s : State Memory)
        → is_map m ≡ true
        → lookup request_id m ≡ none
        → (stored env init s).metadata.annotations ≡ some m
        → is_settled_since (orders s) (reconcile env ns name s).1 ≡ true
    reconcile-settled m s map fresh h =
        reconcile-test env ns name init holds (some m) (stored env init s).conditions
          (stored env init s).certificate (orders s) (is_settled_since (orders s))
          (λ t q. ground (arith, q.1.1.0))
          (λ spec t q g. ground (arith, unsettled-settled m spec t map fresh g.0, q.1.1.0)) s
          (h, (refl, (refl, refl)))

    -- An open request is ordered now and handled then, or still not ordered after this round.
    rounds-open :
        (n : ℕ) (s : State Memory)
        → on is_map (stored env init s).metadata.annotations ≡ true
        → is_handled env (stored env init s) ≡ false
        → (orders (reconcile env ns name s).1 ≡ orders s)
          ⊎ (orders (rounds env ns name (suc n) s) ≤ suc (orders s))
    unfolding rounds
    rounds-open n s map open_request =
        let t = (reconcile env ns name s).1 in
        elim (Option-cases (stored env init s).metadata.annotations) [
          | inl none_stored ↦ ground (arith, none_stored)
          | inr (m, e) ↦
              let settled =
                reconcile-settled m s (ground (arith, e)) (ground (arith, e, open_request)) e in
              elim (Bool-cases (is_handled env (stored env init t))) [
                | inl h ↦ inr (
                    ground (arith, rounds-handled n t h, reconcile-at_most_one_order env ns name s))
                | inr h ↦ inl (ground (arith, settled, h))
              ]
        ]

    rounds-orders :
        (n : ℕ) (s : State Memory)
        → on is_map (stored env init s).metadata.annotations ≡ true
        → orders (rounds env ns name n s) ≤ suc (orders s)
    unfolding rounds
    rounds-orders zero s map = ground arith
    rounds-orders (suc n) s map =
        let t = (reconcile env ns name s).1 in
        elim (Bool-cases (is_handled env (stored env init s))) [
          | inl h ↦ ground (arith, rounds-handled (suc n) s h)
          | inr h ↦ elim (rounds-open n s map h) [
            | inl e ↦ ground (
              arith,
              e,
              rounds-orders n t (reconcile-kept env ns name init holds is_map is_map-insert s map),
            )
            | inr le ↦ le
          ]
        ]

-- However often a request is reconciled, at most one certificate is ordered from Horizon. The API
-- server takes every update, and nobody else writes the request, whose annotations are not nil;
-- cert-manager's condition functions are as documented, and a submission that Horizon takes is
-- answered with an id.
pub rounds-at_most_one_order :
    (env : Env) (ns : String) (name : NamespacedName) (init : CertificateRequest)
    → Holds env name init
    → RequestConditionLaws env.lib
    → AnswersWithId env
    → (n : ℕ) (s : State Memory)
    → on is_map (stored_after init s.history).metadata.annotations ≡ true
    → orders (rounds env ns name n s) ≤ suc (orders s)
rounds-at_most_one_order env ns name init holds laws answers n s map =
    rounds-orders env ns name init holds laws answers n s map
