-- ===== src/RequestController/Returns/Reconcile.antt =====
-- internal/controller/certificaterequest_controller.go: panics of a reconciliation.
use horizon_issuer.Common.{
  String, true, Option, ◌≡◌, ◌∷◌, ◌≢◌, arith, is_some, inl, inr, Option-cases,
}
use horizon_issuer.Common.Dict.{Dict}
use horizon_issuer.Errors.{ok, Result-cases}
use horizon_issuer.Api.{CertificateRequest, IssuerSpec, NamespacedName}
use horizon_issuer.Effects.{get_request, State, Return, History}
use horizon_issuer.Effects.Env.{Env, not_an_object}
use horizon_issuer.Horizon.Requests.{Memory, set_condition, revoke_certificate}
use horizon_issuer.IssuerUtil.{certificate_from_request}
use horizon_issuer.RequestController.{
  add_finalizer, reconcile_unsettled, reconcile_with_client, reconcile_with_secret, reconcile_owned,
  reconcile,
}
use horizon_issuer.RequestController.Deletion.{
  record_event, save_request, record_revocation, drop_finalizer, handle_deletion,
}
use horizon_issuer.RequestController.Lookup.{issuer_from_request}
use horizon_issuer.RequestController.Finish.{
  set_not_ready, record_failure, write_request, update_parent, record_outcome, store, finish,
}
use horizon_issuer.RequestController.Returns.{is_returned, Answered, IssuingCertificates, IsSound}
use horizon_issuer.RequestController.Returns.Process.{
  is_usable, process-usable, issuer_from_request-usable,
}

module _ (env : Env) where
  pub finish-returns :
      (before : Option Dict) (r : Return) (s : State Memory)
      → is_returned (finish env before r s).0 ≡ true
  unfolding finish record_outcome record_failure set_not_ready set_condition record_event store
      write_request save_request update_parent certificate_from_request
  finish-returns before r s = elim (Option-cases r.err) [
    | inl e ↦ rw e (ground arith)
    | inr (x, e) ↦ rw e (ground arith)
  ]

  -- The kind of the issuer in memory is one of an object.
  abbrev pub HasObject : State Memory → Type 0
  HasObject s = env.lib.new_object s.memory.request.issuer_ref.kind ≢ ok not_an_object

  handle_deletion-returns :
      (s : State Memory)
      → HasObject s
      → is_usable s ≡ true
      → is_returned (handle_deletion env s).0 ≡ true
  unfolding handle_deletion revoke_certificate record_revocation record_event drop_finalizer
      save_request
  handle_deletion-returns s k h = grind (arith, issuer_from_request-usable)

  module _ (answered : Answered env) (issuing : IssuingCertificates env) (ns : String) where
    reconcile_unsettled-returns :
        (spec : IssuerSpec) (s : State Memory)
        → HasObject s
        → is_usable s ≡ true
        → is_returned (reconcile_unsettled env ns spec s).0 ≡ true
    unfolding reconcile_unsettled
    reconcile_unsettled-returns spec s k h =
        grind (arith, process-usable env answered issuing spec s k h, finish-returns)

    reconcile_with_client-returns :
        (spec : IssuerSpec) (s : State Memory)
        → HasObject s
        → is_usable s ≡ true
        → is_returned (reconcile_with_client env ns spec s).0 ≡ true
    unfolding reconcile_with_client add_finalizer
    reconcile_with_client-returns spec s k h =
        grind (arith, handle_deletion-returns, reconcile_unsettled-returns)

    reconcile_with_secret-returns :
        (spec : IssuerSpec) (namespace : String) (s : State Memory)
        → HasObject s
        → is_some s.memory.request.metadata.annotations ≡ true
        → is_returned (reconcile_with_secret env ns spec namespace s).0 ≡ true
    unfolding reconcile_with_secret
    reconcile_with_secret-returns spec namespace s k h =
        grind (arith, reconcile_with_client-returns)

    reconcile_owned-returns :
        (cr : CertificateRequest) (s : State Memory)
        → HasObject s
        → IsSound env cr
        → is_some s.memory.request.metadata.annotations ≡ true
        → is_returned (reconcile_owned env ns cr s).0 ≡ true
    unfolding reconcile_owned issuer_from_request set_not_ready set_condition record_event
    reconcile_owned-returns cr s k c h = grind (arith, reconcile_with_secret-returns)

-- A reconciliation returns and does not panic, whatever the API server, Horizon and DNS answer
-- otherwise, where the kind of the request's issuer is one of an object and its annotations are not
-- nil, a Certificate that is got has an Issuing condition, and Horizon answers with the enrolment
-- variant and its templates have an owner, a team and a contact email.
pub reconcile-returns :
    (env : Env) (ns : String) (name : NamespacedName)
    → Answered env
    → IssuingCertificates env
    → ((h : History) (cr : CertificateRequest)
        → env.cluster.get_request h name ≡ ok cr
        → IsSound env cr)
    → (s : State Memory) → is_returned (reconcile env ns name s).0 ≡ true
unfolding reconcile
reconcile-returns env ns name answered issuing sound s =
    elim (Result-cases (env.cluster.get_request s.history name)) [
      | inl (cr, found) ↦
          let t : State Memory = record {
            memory = record (s.memory) { request = cr };
            history = get_request name ∷ s.history;
          } in
          let (kind, annotated) = sound s.history cr found in
          ground (
            arith,
            found,
            reconcile_owned-returns env answered issuing ns cr t kind (kind, annotated) annotated,
          )
      | inr (e, failed) ↦ ground arith
    ]
