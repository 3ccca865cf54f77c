-- ===== src/RequestController/Lifecycle/SameId.antt =====
-- internal/controller/certificaterequest_controller.go: the request id of a request, over several
-- reconciliations.
use horizon_issuer.Common.{
  ℕ, zero, suc, String, Bool, true, false, some, Option, [], ◌∷◌, ◌≡◌, refl, arith, inl, inr,
  Option-cases,
}
use horizon_issuer.Common.Dict.{Dict, lookup-insert}
use horizon_issuer.Common.Text.{◌<>◌, ◌==◌, strip_prefix, eq_iff, eq_refl}
use horizon_issuer.Api.{CertificateRequest, IssuerSpec, NamespacedName, get_annotation}
use horizon_issuer.Sdk.{RequestOnGet}
use horizon_issuer.Effects.{State, named_results, Return}
use horizon_issuer.Effects.Env.{Env}
use horizon_issuer.Horizon.Annotations.{request_id, label_annotation}
use horizon_issuer.Horizon.Requests.{Memory, annotate, annotate_all, set_condition}
use horizon_issuer.Horizon.Polling.{
  update_request, store_ca, store_issued, store_certificate, handle_completed_request,
  handle_denied_request, handle_pending_request, dispatch,
}
use horizon_issuer.Horizon.Polling.Issued.{label_differs}
use horizon_issuer.RequestController.{reconcile_unsettled, reconcile}
use horizon_issuer.RequestController.Process.{mark_denied, process}
use horizon_issuer.RequestController.Finish.{set_not_ready, finish, found_is}
use horizon_issuer.RequestController.Orders.{orders}
use horizon_issuer.RequestController.Lifecycle.{Holds, stored_after, rounds}
use horizon_issuer.RequestController.Lifecycle.Annotations.{check_dns-memory}
use horizon_issuer.RequestController.Lifecycle.Keeps.{stored, process-stored}
use horizon_issuer.RequestController.Lifecycle.Lift.{reconcile-test}
use horizon_issuer.RequestController.Lifecycle.Stored.{finish-stored}

-- The request id in memory.
abbrev id_of : State Memory → Option String
id_of s = get_annotation request_id s.memory.request.metadata.annotations

annotate-id :
    (k v : String) (s : State Memory) → k == request_id ≡ false → id_of (annotate k v s).1 ≡ id_of s
unfolding annotate
annotate-id k v s h = grind (arith, lookup-insert)

annotate_all-id : (m : Dict) (s : State Memory) → id_of (annotate_all m s).1 ≡ id_of s
unfolding annotate_all strip_prefix
annotate_all-id [] s = refl
annotate_all-id ((k, v) ∷ m) s = ground (
  arith,
  annotate-id (label_annotation <> ("." <> k)) v s (label_differs request_id k refl),
  annotate_all-id m (annotate (label_annotation <> ("." <> k)) v s).1,
)

module _ (env : Env) where
  store_certificate-id :
      (answer : RequestOnGet) (pem : String) (s : State Memory)
      → id_of (store_certificate env answer pem s).1 ≡ id_of s
  unfolding store_certificate set_condition
  store_certificate-id answer pem s = grind (arith, annotate-id, annotate_all-id)

  store_issued-id :
      (answer : RequestOnGet) (chain : String × String) (s : State Memory)
      → id_of (store_issued env answer chain s).1 ≡ id_of s
  unfolding store_issued store_ca
  store_issued-id answer (certificate, ca) s =
      ground (arith, store_certificate-id answer certificate (store_ca env ca s).1)

  handle_completed_request-id :
      (answer : RequestOnGet) (s : State Memory)
      → id_of (handle_completed_request env answer s).1 ≡ id_of s
  unfolding handle_completed_request set_condition
  handle_completed_request-id answer s = grind (arith, store_issued-id)

  update_request-id : (s : State Memory) → id_of (update_request env s).1 ≡ id_of s
  unfolding update_request dispatch handle_pending_request handle_denied_request set_condition
  update_request-id s = grind (arith, handle_completed_request-id)

  process-id :
      (id : String) (spec : IssuerSpec) (s : State Memory)
      → id_of s ≡ some id
      → id_of (process env spec s).1 ≡ some id
  unfolding process mark_denied set_not_ready set_condition
  process-id id spec s h = grind (arith, check_dns-memory, update_request-id)

-- The request has the id, as a test.
abbrev has_this_id : String → CertificateRequest → Bool
has_this_id id cr = found_is (get_annotation request_id cr.metadata.annotations) id

has_this_id_sound :
    (id : String) (cr : CertificateRequest)
    → has_this_id id cr ≡ true
    → get_annotation request_id cr.metadata.annotations ≡ some id
has_this_id_sound id cr h =
    elim (Option-cases (get_annotation request_id cr.metadata.annotations)) [
      | inl e ↦ ground (arith, e)
      | inr (x, e) ↦ ground (arith, e, eq_iff x id)
    ]

module _ (env : Env) (ns : String) (name : NamespacedName) (init : CertificateRequest)
    (holds : Holds env name init) (id : String) where
  finish-id :
      (before : Option Dict) (r : Return) (s : State Memory)
      → has_this_id id (stored env init s) ≡ true
      → id_of s ≡ some id
      → has_this_id id (stored env init (finish env before r s).1) ≡ true
  finish-id before r s h g = elim (Option-cases r.err) [
    | inl e ↦ ground (arith, finish-stored env init before r s, eq_refl id)
    | inr (x, e) ↦ ground (arith, finish-stored env init before r s, eq_refl id)
  ]

  unsettled-id :
      (spec : IssuerSpec) (s : State Memory)
      → has_this_id id (stored env init s) ≡ true
      → id_of s ≡ some id
      → has_this_id id (stored env init (reconcile_unsettled env ns spec s).1) ≡ true
  unfolding reconcile_unsettled
  unsettled-id spec s h g =
      let (o, t) = process env spec s in
      grind (
        arith,
        process-stored env init spec s,
        process-id env id spec s g,
        finish-id s.memory.request.metadata.annotations (named_results o) t,
      )

  reconcile-id :
      (s : State Memory)
      → get_annotation request_id (stored env init s).metadata.annotations ≡ some id
      → get_annotation request_id (stored env init (reconcile env ns name s).1).metadata.annotations
        ≡ some id
  reconcile-id s h = has_this_id_sound id (stored env init (reconcile env ns name s).1) (
      reconcile-test env ns name init holds (stored env init s).metadata.annotations
        (stored env init s).conditions (stored env init s).certificate (orders s)
        (λ t. has_this_id id (stored env init t)) (λ t q. ground (arith, q.0, h, eq_refl id))
        (λ spec t q g.
          unsettled-id spec t (ground (arith, q.0, h, eq_refl id)) (ground (arith, g.0, h)))
        s (refl, (refl, (refl, refl))))

-- Once a request has a request id it keeps that id over every reconciliation, whatever Horizon
-- answers and whatever labels it sends. The API server takes every update, and nobody else writes
-- the request.
pub rounds-same_id :
    (env : Env) (ns : String) (name : NamespacedName) (init : CertificateRequest)
    → Holds env name init
    → (id : String) (n : ℕ) (s : State Memory)
    → get_annotation request_id (stored_after init s.history).metadata.annotations ≡ some id
    → get_annotation request_id
        (stored_after init (rounds env ns name n s).history).metadata.annotations
      ≡ some id
unfolding rounds
rounds-same_id env ns name init holds id zero s h = h
rounds-same_id env ns name init holds id (suc n) s h =
    rounds-same_id env ns name init holds id n (reconcile env ns name s).1
      (reconcile-id env ns name init holds id s h)
