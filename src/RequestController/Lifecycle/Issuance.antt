-- ===== src/RequestController/Lifecycle/Issuance.antt =====
-- internal/controller/certificaterequest_controller.go: the whole issuance of a new request.
use horizon_issuer.Common.{
  ℕ, suc, String, true, Option, none, some, ◌≡◌, refl, ◌∙◌, ap, arith, if◌then◌else◌,
}
use horizon_issuer.Common.Dict.{Dict, lookup, insert, lookup-insert, insert-IsMap}
use horizon_issuer.Common.Text.{eq_refl}
use horizon_issuer.Api.{NamespacedName, CertificateRequest, IssuerSpec}
use horizon_issuer.Effects.{State, Outcome, Return, done, named_results, ◌>>=◌}
use horizon_issuer.Effects.Env.{Env}
use horizon_issuer.Horizon.Annotations.{request_id, certificate_id}
use horizon_issuer.Horizon.ClientConfig.{trim_url}
use horizon_issuer.Horizon.Requests.{Memory}
use horizon_issuer.Horizon.TrustChain.{build_pem_trustchain}
use horizon_issuer.RequestController.{reconcile_unsettled, reconcile}
use horizon_issuer.RequestController.Process.{process}
use horizon_issuer.RequestController.Finish.{deep_equal, finish}
use horizon_issuer.RequestController.Finish.Laws.{RequestConditionLaws}
use horizon_issuer.RequestController.Lifecycle.{
  is_handled, Holds, stored_after, with_status, rounds,
}
use horizon_issuer.RequestController.Lifecycle.Keeps.{stored, process-stored}
use horizon_issuer.RequestController.Lifecycle.Settles.{deep_equal-insert}
use horizon_issuer.RequestController.Lifecycle.Stored.{finish-stored}
use horizon_issuer.RequestController.Lifecycle.Served.{spec_of, served-HasObject}
use horizon_issuer.RequestController.Lifecycle.Awaits.{
  prepared-stored, prepared-orders, Undecided, Reaches, Completes, Awaits, reaches_with, with_meta,
  finalizers_after, prepared, reconcile-prepared,
}
use horizon_issuer.RequestController.Orders.{orders, finish-orders}
use horizon_issuer.RequestController.Lifecycle.Once.{rounds-handled}
use horizon_issuer.RequestController.Lifecycle.Submits.{Accepts, Submitted, process-Submitted}
use horizon_issuer.RequestController.Lifecycle.Delivered.{is_delivered, later-delivered}

module _ (env : Env) (ns : String) (name : NamespacedName) (init : CertificateRequest)
    (holds : Holds env name init) (s : State Memory) (cr : CertificateRequest)
    (held : stored env init s ≡ cr) (c : Reaches env ns cr) (a : Accepts env c.client cr)
    (u : Undecided env cr) (new : lookup request_id c.annotations ≡ none) where
  abbrev ready_state : State Memory
  ready_state = prepared env ns name init holds cr c s

  abbrev spec : IssuerSpec
  spec = trim_url env.lib (spec_of c.found)

  abbrev result : Outcome Return × State Memory
  result = process env spec ready_state

  result-Submitted :
      Submitted env a.id c.annotations (orders ready_state) ready_state.memory.request result
  unfolding trim_url
  result-Submitted =
      process-Submitted env c.client cr a c.annotations spec ready_state refl c.annotated
        (served-HasObject env cr.issuer_ref cr.metadata.namespace c.found c.served)
        (a.parent ready_state.history) c.unchecked u.not_denied u.not_approved new

  unsettled-finish :
      (reconcile_unsettled env ns spec ready_state).1
      ≡ (finish env cr.metadata.annotations done result.1).1
  unfolding reconcile_unsettled
  unsettled-finish =
      rw (c.open_request, ◌>>=◌)
        (ap
          (λ (o : Outcome Return).
            (finish env cr.metadata.annotations (named_results o) result.1).1)
          result-Submitted.0)

  -- The request with its id, as it is stored.
  abbrev pub with_id : CertificateRequest
  with_id =
      with_meta (insert request_id a.id c.annotations)
        (finalizers_after env ns name init holds (spec_of c.found).revoke_certificates cr) cr

  abbrev written : Option Dict → CertificateRequest → CertificateRequest → CertificateRequest
  written before sent stored_before =
      if deep_equal before sent.metadata.annotations
      then with_status stored_before sent
      else with_status sent stored_before

  -- The request in memory after the submission.
  abbrev sent : CertificateRequest
  sent = record (ready_state.memory.request) {
    metadata = record (ready_state.memory.request.metadata) {
      annotations = some (insert request_id a.id c.annotations);
    };
    conditions = result.1.memory.request.conditions;
  }

  submission-written :
      stored env init (reconcile env ns name s).1
      ≡ written cr.metadata.annotations result.1.memory.request (stored env init result.1)
  submission-written =
      ap (λ (q : Outcome Return × State Memory). stored env init q.1)
        (reconcile-prepared env ns name init holds cr c s held)
      ∙ (ap (stored env init) unsettled-finish
          ∙ finish-stored env init cr.metadata.annotations done result.1)

  -- The submission's reconciliation stores the id, and no other change of the status.
  submission-stored : stored env init (reconcile env ns name s).1 ≡ with_id
  submission-stored =
      submission-written
      ∙ (ap (λ b. written b result.1.memory.request (stored env init result.1)) c.annotated
          ∙ (ap (λ q. written (some c.annotations) q (stored env init result.1))
                result-Submitted.1.0
              ∙ (ap (written (some c.annotations) sent) (
                    process-stored env init spec ready_state
                    ∙ (prepared-stored env ns name init holds cr c s ∙ held))
                  ∙ ap (λ b. if b then with_status cr sent else with_status sent cr)
                      (deep_equal-insert request_id a.id c.annotations new))))

  -- It orders one certificate.
  submission-orders : orders (reconcile env ns name s).1 ≡ suc (orders s)
  submission-orders =
      ap (λ (q : Outcome Return × State Memory). orders q.1)
        (reconcile-prepared env ns name init holds cr c s held)
      ∙ (ap orders unsettled-finish
          ∙ (finish-orders env cr.metadata.annotations done result.1
              ∙ (result-Submitted.1.1 ∙ ap suc (prepared-orders env ns name init holds cr c s))))

  with_id-handled : is_handled env (stored env init (reconcile env ns name s).1) ≡ true
  with_id-handled =
      rw submission-stored
        (ground (arith, lookup-insert request_id request_id a.id c.annotations, eq_refl request_id))

  -- No later reconciliation orders another one.
  later-orders : (n : ℕ) → orders (rounds env ns name (suc n) s) ≡ suc (orders s)
  unfolding rounds
  later-orders n =
      rounds-handled env ns name init holds n (reconcile env ns name s).1 with_id-handled
      ∙ submission-orders

  with_id-Awaits : Completes env c.client a.id → Awaits env ns with_id
  unfolding reaches_with
  with_id-Awaits d = record {
    reaches =
        reaches_with env ns cr (insert request_id a.id c.annotations)
          (finalizers_after env ns name init holds (spec_of c.found).revoke_certificates cr)
          (insert-IsMap request_id a.id c.annotations c.is_map) c;
    undecided = record { not_denied = u.not_denied; not_approved = u.not_approved };
    id = a.id;
    submitted = ground (arith, lookup-insert request_id request_id a.id c.annotations);
    completes = d;
  }

  module _ (laws : RequestConditionLaws env.lib) (d : Completes env c.client a.id)
      (no_id : lookup certificate_id c.annotations ≡ none) where
    -- From the third reconciliation on, the certificate is there.
    third-delivered :
        (n : ℕ)
        → is_delivered env
            (build_pem_trustchain d.certs).0
            d.answer.certificate.id
            (stored env init (rounds env ns name (suc (suc (suc n))) s))
          ≡ true
    unfolding rounds with_id-Awaits reaches_with
    third-delivered n =
        later-delivered env ns name init holds laws (reconcile env ns name s).1 with_id
          (with_id-Awaits d) submission-stored
          (ground (arith, lookup-insert request_id certificate_id a.id c.annotations, no_id)) n

-- A new open request that Horizon takes and completes has its certificate after three
-- reconciliations, and keeps it over all later ones: it is Ready, with the joined chain, and with
-- Horizon's id of the certificate among its annotations; over all of them exactly one certificate is
-- ordered. The request is neither denied nor approved, is not to be deleted, and has neither a
-- request id nor a certificate id; whether it is enrolled or renewed, and whether its metadata can
-- be had, makes no difference. Throughout, the API server takes every update and nobody else writes
-- the request, its Certificate is being issued, its issuer, of either kind, is ready and needs no
-- DNS check, and Horizon's answers stay, with a template of the three fields.
pub rounds-issued :
    (env : Env) (ns : String) (name : NamespacedName) (init : CertificateRequest)
    → Holds env name init
    → RequestConditionLaws env.lib
    → (s : State Memory) (c : Reaches env ns (stored_after init s.history))
      (u : Undecided env (stored_after init s.history))
      (a : Accepts env c.client (stored_after init s.history)) (d : Completes env c.client a.id)
    → lookup request_id c.annotations ≡ none
    → lookup certificate_id c.annotations ≡ none
    → (n : ℕ)
    → (is_delivered env
          (build_pem_trustchain d.certs).0
          d.answer.certificate.id
          (stored_after init (rounds env ns name (suc (suc (suc n))) s).history)
        ≡ true)
      × (orders (rounds env ns name (suc (suc (suc n))) s) ≡ suc (orders s))
rounds-issued env ns name init holds laws s c u a d new no_id n = (
  third-delivered env ns name init holds s (stored env init s) refl c a u new laws d no_id n,
  later-orders env ns name init holds s (stored env init s) refl c a u new (suc (suc n)),
)
