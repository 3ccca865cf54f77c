-- ===== src/RequestController/Process/Renewal.antt =====
-- internal/controller/certificaterequest_controller.go: the certificate's id, from the deferred
-- function to the renewal.
use horizon_issuer.Common.{String, true, false, Option, none, some, ◌∷◌, ◌≡◌, arith, is_some}
use horizon_issuer.Common.Dict.{Dict, lookup-insert}
use horizon_issuer.Common.Text.{is_empty}
use horizon_issuer.Api.{Certificate, CertificateCondition, IssuerSpec, entries, get_annotation}
use horizon_issuer.Sdk.{Client, renew}
use horizon_issuer.Effects.{get_certificate, update_certificate, request_submit, State}
use horizon_issuer.Effects.Env.{Env, Libraries}
use horizon_issuer.Horizon.Annotations.{certificate_id, last_certificate_id}
use horizon_issuer.Horizon.Requests.{
  Memory, submit, submitted, handle_failed_request, submit_renew_request, annotate, set_condition,
}
use horizon_issuer.IssuerUtil.{certificate_name, certificate_from_request}
use horizon_issuer.RequestController.Finish.{with_last_id, update_parent}
use horizon_issuer.RequestController.Process.{is_renewal, submit_first}

-- apimachinery's `HasAnnotation`, as documented.
abbrev pub HasAnnotationLaw : Libraries → Type 0
HasAnnotationLaw lib =
    (m : Option Dict) (k : String) → lib.has_annotation m k ≡ is_some (get_annotation k m)

module _ (env : Env) where
  update_parent-history :
      (s : State Memory) (id : String)
      → get_annotation certificate_id s.memory.request.metadata.annotations ≡ some id
      → is_empty id ≡ false
      → (update_parent env s).1.history
        ≡ update_certificate (
            with_last_id env id
              (env.cluster.get_certificate s.history (certificate_name s.memory.request)).0)
          ∷ (get_certificate (certificate_name s.memory.request) ∷ s.history)
  unfolding update_parent certificate_from_request
  update_parent-history s id h full = ground (arith, h, full)

  submit-history :
      (client : Client) (id message : String) (s : State Memory)
      → (submit env client (renew id s.memory.request.request) message s).1.history
        ≡ request_submit client (renew id s.memory.request.request) ∷ s.history
  unfolding submit submitted handle_failed_request annotate set_condition
  submit-history client id message s = ground arith

  submit_first-renews :
      (spec : IssuerSpec) (t : State Memory) (client : Client) (certificate : Certificate)
      (condition : CertificateCondition) (id : String)
      → HasAnnotationLaw env.lib
      → t.memory.client ≡ some client
      → env.cluster.get_certificate t.history (certificate_name t.memory.request)
        ≡ (certificate, none)
      → get_annotation last_certificate_id certificate.metadata.annotations ≡ some id
      → env.lib.get_certificate_condition certificate.conditions "Issuing" ≡ some condition
      → is_renewal condition.reason ≡ true
      → (submit_first env spec t).1.history
        ≡ request_submit client (renew id t.memory.request.request)
          ∷ (get_certificate (certificate_name t.memory.request) ∷ t.history)
  unfolding submit_first certificate_from_request submit_renew_request
  submit_first-renews spec t client certificate condition id law connected got last issuing
        renewal =
      let fetched = record t {
        history = get_certificate (certificate_name t.memory.request) ∷ t.history;
      } in
      ground (
        arith,
        connected,
        got,
        last,
        issuing,
        renewal,
        law certificate.metadata.annotations last_certificate_id,
        submit-history client id "Submitted renewal request to Horizon" fetched,
      )

-- The id that the deferred function stores in the parent Certificate is the one that is renewed: its
-- last call updates the parent that it got with the request's certificate id, and where the API
-- server later answers with the annotations of this update, and the Certificate is being issued for a
-- reason of renewal, the one thing that is submitted to Horizon is the renewal of that id.
pub submit_first-update_parent :
    (env : Env) (s : State Memory) (id : String)
    → HasAnnotationLaw env.lib
    → get_annotation certificate_id s.memory.request.metadata.annotations ≡ some id
    → is_empty id ≡ false
    → (stored : Certificate)
    → with_last_id env id
        (env.cluster.get_certificate s.history (certificate_name s.memory.request)).0
      ≡ stored
    → (spec : IssuerSpec) (t : State Memory) (client : Client) (certificate : Certificate)
      (condition : CertificateCondition)
    → t.memory.client ≡ some client
    → env.cluster.get_certificate t.history (certificate_name t.memory.request)
      ≡ (certificate, none)
    → certificate.metadata.annotations ≡ stored.metadata.annotations
    → env.lib.get_certificate_condition certificate.conditions "Issuing" ≡ some condition
    → is_renewal condition.reason ≡ true
    → ((update_parent env s).1.history
        ≡ update_certificate stored
          ∷ (get_certificate (certificate_name s.memory.request) ∷ s.history))
      × ((submit_first env spec t).1.history
          ≡ request_submit client (renew id t.memory.request.request)
            ∷ (get_certificate (certificate_name t.memory.request) ∷ t.history))
submit_first-update_parent env s id law h full stored same spec t client certificate condition
      connected got kept issuing renewal =
    let parent = (env.cluster.get_certificate s.history (certificate_name s.memory.request)).0 in
    let last : get_annotation last_certificate_id certificate.metadata.annotations ≡ some id =
      rw (kept) (
        rw⁻¹ same (
          ground (
            arith,
            lookup-insert last_certificate_id last_certificate_id id
                (entries parent.metadata.annotations),
          ))) in
    (
      rw⁻¹ same (update_parent-history env s id h full),
      submit_first-renews env spec t client certificate condition id law connected got last issuing
          renewal,
    )
