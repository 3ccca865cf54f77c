-- ===== src/RequestController/Lifecycle/Issues.antt =====
-- internal/controller/certificaterequest_controller.go: what the reconciliations of a request that
-- Horizon has completed store.
use horizon_issuer.Common.{
  String, Option, none, some, ◌∷◌, ◌≡◌, refl, ◌∙◌, ap, arith, if◌then◌else◌,
}
use horizon_issuer.Common.Dict.{Dict, lookup}
use horizon_issuer.Common.Text.{is_empty}
use horizon_issuer.Api.{NamespacedName, CertificateRequest}
use horizon_issuer.Effects.{
  request_get, State, Outcome, returned, Return, done, with_defer-returned, ◌>>=◌,
}
use horizon_issuer.Effects.Env.{Env}
use horizon_issuer.Horizon.Annotations.{certificate_id}
use horizon_issuer.Horizon.ClientConfig.{trim_url}
use horizon_issuer.Horizon.Requests.{Memory}
use horizon_issuer.Horizon.TrustChain.{build_pem_trustchain}
use horizon_issuer.Horizon.Polling.{
  approval, signed, update_request, dispatch, handle_completed_request,
}
use horizon_issuer.Horizon.Polling.Issued.{
  issued_annotations, issued_state, asked, with_ca, reaches_store, store_issued_lem,
  issued-request_id,
}
use horizon_issuer.RequestController.{reconcile_unsettled, reconcile}
use horizon_issuer.RequestController.Process.{process, check_dns}
use horizon_issuer.RequestController.Finish.{deep_equal, finish}
use horizon_issuer.RequestController.Lifecycle.{Holds, with_status, rounds}
use horizon_issuer.RequestController.Lifecycle.Keeps.{stored}
use horizon_issuer.RequestController.Lifecycle.Overlay.{
  deep_equal-first, deep_equal-issued, issued-IsMap,
}
use horizon_issuer.RequestController.Lifecycle.Stored.{finish-stored}
use horizon_issuer.RequestController.Lifecycle.Served.{spec_of}
use horizon_issuer.RequestController.Lifecycle.Awaits.{
  prepared-stored, reaches_with, Awaits, finalizers_after, prepared, reconcile-prepared,
}

module _ (env : Env) (ns : String) (name : NamespacedName) (init : CertificateRequest)
    (holds : Holds env name init) where
  module _ (cr : CertificateRequest) (c : Awaits env ns cr) (s : State Memory) where
    abbrev chain_text : String × String
    chain_text = build_pem_trustchain c.completes.certs

    -- The state below the `defer`.
    abbrev polled : State Memory
    polled = record (prepared env ns name init holds cr c.reaches s) {
      history =
          request_get c.reaches.client c.id
          ∷ (prepared env ns name init holds cr c.reaches s).history;
    }

    abbrev issued_here : State Memory
    issued_here =
        issued_state env
          (with_ca chain_text.1
            (asked env polled c.reaches.client c.completes.answer.certificate.certificate))
          c.completes.answer c.reaches.annotations chain_text.0

    completed-issued :
        handle_completed_request env c.completes.answer polled ≡ (returned done, issued_here)
    completed-issued =
        reaches_store env polled c.completes.answer c.reaches.client c.reaches.annotations refl
          c.reaches.annotated c.completes.certs (c.completes.chain polled.history)
        ∙ store_issued_lem env c.completes.answer chain_text
            (asked env polled c.reaches.client c.completes.answer.certificate.certificate)
            c.reaches.annotations c.reaches.annotated c.completes.full

    process-issued :
        process env
          (trim_url env.lib (spec_of c.reaches.found))
          (prepared env ns name init holds cr c.reaches s)
        ≡ (returned done, issued_here)
    unfolding process check_dns update_request dispatch trim_url
    process-issued = ground (
      arith,
      c.undecided.not_denied,
      c.reaches.unchecked,
      c.undecided.not_approved,
      c.reaches.annotated,
      c.submitted,
      c.completes.answered (prepared env ns name init holds cr c.reaches s).history,
      c.completes.is_completed,
      completed-issued,
    )

    -- The request with its certificate.
    abbrev pub issued_request : CertificateRequest
    issued_request = record cr {
      metadata = record (cr.metadata) {
        annotations =
            some (issued_annotations c.completes.answer.certificate c.reaches.annotations);
        finalizers =
            finalizers_after env ns name init holds (spec_of c.reaches.found).revoke_certificates
              cr;
      };
      certificate = chain_text.0;
      ca = if is_empty chain_text.1 then cr.ca else chain_text.1;
      conditions =
          env.lib.set_request_condition (env.lib.set_request_condition cr.conditions approval)
            signed;
    }

    unsettled-finish :
        (reconcile_unsettled env ns
          (trim_url env.lib (spec_of c.reaches.found))
          (prepared env ns name init holds cr c.reaches s)).1
        ≡ (finish env cr.metadata.annotations done issued_here).1
    unfolding reconcile_unsettled
    unsettled-finish =
        rw (c.reaches.open_request, ◌>>=◌)
          (with_defer-returned (finish env cr.metadata.annotations)
            (process env (trim_url env.lib (spec_of c.reaches.found))) process-issued)

    -- The request that is stored, by the annotations before and what was stored.
    abbrev written : Option Dict → CertificateRequest → CertificateRequest
    written before held =
        if deep_equal before issued_request.metadata.annotations
        then with_status held issued_request
        else with_status issued_request held

    -- What is stored after one reconciliation.
    pub reconcile-written :
        stored env init s ≡ cr
        → stored env init (reconcile env ns name s).1 ≡ written (some c.reaches.annotations) cr
    reconcile-written h =
        ap (λ (q : Outcome Return × State Memory). stored env init q.1)
          (reconcile-prepared env ns name init holds cr c.reaches s h)
        ∙ (ap (stored env init) unsettled-finish
            ∙ (finish-stored env init cr.metadata.annotations done issued_here
                ∙ (ap (λ b. written b (stored env init issued_here)) c.reaches.annotated
                    ∙ ap (written (some c.reaches.annotations))
                        (prepared-stored env ns name init holds cr c.reaches s ∙ h))))

  -- A request whose annotations were stored still awaits its certificate.
  unfoldable pub next :
      (cr : CertificateRequest) (c : Awaits env ns cr)
      → (s : State Memory) → Awaits env ns (with_status (issued_request cr c s) cr)
  unfolding reaches_with
  next cr c s = record {
    reaches =
        reaches_with env ns cr
          (issued_annotations c.completes.answer.certificate c.reaches.annotations)
          (finalizers_after env ns name init holds (spec_of c.reaches.found).revoke_certificates cr)
          (issued-IsMap c.completes.answer.certificate c.reaches.annotations c.reaches.is_map)
          c.reaches;
    undecided = record {
      not_denied = c.undecided.not_denied;
      not_approved = c.undecided.not_approved;
    };
    id = c.id;
    submitted =
        issued-request_id c.completes.answer.certificate c.reaches.annotations ∙ c.submitted;
    completes = c.completes;
  }

  module _ (cr : CertificateRequest) (c : Awaits env ns cr) (s : State Memory)
      (held : stored env init s ≡ cr) where
    -- The first reconciliation stores the annotations.
    pub first-stored :
        lookup certificate_id c.reaches.annotations ≡ none
        → stored env init (reconcile env ns name s).1 ≡ with_status (issued_request cr c s) cr
    first-stored no_id =
        reconcile-written cr c s held
        ∙ ap
            (λ b.
              if b
              then with_status cr (issued_request cr c s)
              else with_status (issued_request cr c s) cr)
            (deep_equal-first c.completes.answer.certificate c.reaches.annotations no_id)

    -- The second one stores the status.
    pub second-stored :
        lookup certificate_id c.reaches.annotations ≡ none
        → stored env init (rounds env ns name 2 s)
          ≡ with_status
              (with_status (issued_request cr c s) cr)
              (issued_request (with_status (issued_request cr c s) cr) (next cr c s) s)
    unfolding rounds next reaches_with
    second-stored no_id =
        let cr' = with_status (issued_request cr c s) cr in
        let c' = next cr c s in
        reconcile-written cr' c' (reconcile env ns name s).1 (first-stored no_id)
        ∙ ap
            (λ b.
              if b
              then with_status cr' (issued_request cr' c' s)
              else with_status (issued_request cr' c' s) cr')
            (deep_equal-issued c.completes.answer.certificate c.reaches.annotations
              c.reaches.is_map)
