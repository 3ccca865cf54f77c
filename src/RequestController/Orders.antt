-- ===== src/RequestController/Orders.antt =====
-- internal/controller/certificaterequest_controller.go: what a reconciliation orders from Horizon.
use horizon_issuer.Common.{
  ℕ, suc, ◌≤◌, String, Option, none, some, List, [], ◌∷◌, ◌≡◌, refl, arith, inl, inr, Option-cases,
}
use horizon_issuer.Common.Dict.{Dict}
use horizon_issuer.Common.Text.{◌<>◌}
use horizon_issuer.Errors.{Error, text, Result-cases}
use horizon_issuer.Api.{CertificateRequest, IssuerSpec, IssuerDnsChecker, NamespacedName}
use horizon_issuer.Sdk.{RequestOnGet, LabelElement}
use horizon_issuer.Effects.{tc_pem, lookup_host, Return, State, Outcome-cases}
use horizon_issuer.Effects.Count.{count, is_order}
use horizon_issuer.Effects.Env.{Env}
use horizon_issuer.Horizon.Annotations.{label_annotation}
use horizon_issuer.Horizon.Requests.{
  Memory, annotate, annotate_all, set_condition, submit_enroll_request, submit_renew_request,
  revoke_certificate,
}
use horizon_issuer.Horizon.Polling.{
  update_request, store_ca, store_issued, store_certificate, handle_completed_request,
  handle_denied_request, handle_pending_request, dispatch, approval,
}
use horizon_issuer.Horizon.TrustChain.{build_pem_trustchain}
use horizon_issuer.IssuerUtil.{certificate_from_request}
use horizon_issuer.RequestController.Lookup.{issuer_from_request, ingress_from_certificate}
use horizon_issuer.RequestController.Metadata.{certificate_metadata}
use horizon_issuer.RequestController.Process.{
  mark_denied, check_names, check_dns, enroll, submit_first, process,
}
use horizon_issuer.RequestController.Finish.{
  set_not_ready, record_failure, write_request, update_parent, record_outcome, store, finish,
}
use horizon_issuer.RequestController.{
  reconcile_unsettled, reconcile_with_client, reconcile_with_secret, reconcile_owned, reconcile,
  add_finalizer,
}
use horizon_issuer.RequestController.Deletion.{
  record_event, save_request, record_revocation, drop_finalizer, handle_deletion,
}

-- The number of orders for a certificate so far.
abbrev pub orders : State Memory → ℕ
orders s = count is_order s.history

pub annotate-history : (k v : String) (s : State Memory) → (annotate k v s).1.history ≡ s.history
unfolding annotate
annotate-history k v s = ground arith

pub annotate_all-history : (m : Dict) (s : State Memory) → (annotate_all m s).1.history ≡ s.history
unfolding annotate_all
annotate_all-history [] s = refl
annotate_all-history ((k, v) ∷ m) s = ground (
  arith,
  annotate-history (label_annotation <> ("." <> k)) v s,
  annotate_all-history m (annotate (label_annotation <> ("." <> k)) v s).1,
)

module _ (env : Env) where
  submit_enroll_request-orders :
      (spec : IssuerSpec) (labels : List LabelElement) (owner team email : Option String)
      (s : State Memory)
      → orders (submit_enroll_request env spec labels owner team email s).1 ≤ suc (orders s)
  unfolding submit_enroll_request
  submit_enroll_request-orders spec labels owner team email s = ground arith

  submit_renew_request-orders :
      (id : String) (s : State Memory) → orders (submit_renew_request env id s).1 ≤ suc (orders s)
  unfolding submit_renew_request
  submit_renew_request-orders id s = ground arith

  pub certificate_metadata-orders :
      (cr : CertificateRequest) (s : State Memory)
      → orders (certificate_metadata env cr s).1 ≡ orders s
  unfolding certificate_metadata certificate_from_request issuer_from_request
      ingress_from_certificate
  certificate_metadata-orders cr s = ground arith

  pub check_names-orders :
      (server : String) (names : List String) (s : State Memory)
      → orders (check_names env server names s).1 ≡ orders s
  unfolding check_names
  check_names-orders server [] s = refl
  check_names-orders server (name ∷ names) s = ground (
    arith,
    check_names-orders server names (record s { history = lookup_host server name ∷ s.history }),
  )

  pub check_dns-orders :
      (checker : Option IssuerDnsChecker) (s : State Memory)
      → orders (check_dns env checker s).1 ≡ orders s
  unfolding check_dns
  check_dns-orders none s = refl
  check_dns-orders (some checker) s = grind (arith, check_names-orders)

  store_certificate-history :
      (answer : RequestOnGet) (pem : String) (s : State Memory)
      → (store_certificate env answer pem s).1.history ≡ s.history
  unfolding store_certificate set_condition
  store_certificate-history answer pem s = grind (arith, annotate-history, annotate_all-history)

  pub store_issued-history :
      (answer : RequestOnGet) (chain : String × String) (s : State Memory)
      → (store_issued env answer chain s).1.history ≡ s.history
  unfolding store_issued store_ca
  store_issued-history answer (certificate, ca) s =
      ground (arith, store_certificate-history answer certificate (store_ca env ca s).1)

  handle_completed_request-orders :
      (answer : RequestOnGet) (s : State Memory)
      → orders (handle_completed_request env answer s).1 ≡ orders s
  unfolding handle_completed_request set_condition
  handle_completed_request-orders answer s = elim (Option-cases s.memory.client) [
    | inl unset ↦ ground arith
    | inr (client, set) ↦
        elim (Result-cases (env.horizon.tc_pem s.history client answer.certificate.certificate)) [
          | inr (e, failed) ↦ ground arith
          | inl (certs, got) ↦ ground (
            arith,
            store_issued-history answer (build_pem_trustchain certs) (record s {
              memory = (set_condition env approval s).1.memory;
              history = tc_pem client answer.certificate.certificate ∷ s.history;
            }),
          )
        ]
  ]

  pub update_request-orders : (s : State Memory) → orders (update_request env s).1 ≡ orders s
  unfolding update_request dispatch handle_pending_request handle_denied_request set_condition
  update_request-orders s = grind (arith, handle_completed_request-orders)

  enroll-orders :
      (spec : IssuerSpec) (s : State Memory) → orders (enroll env spec s).1 ≤ suc (orders s)
  unfolding enroll set_not_ready set_condition
  enroll-orders spec s =
      let kept = certificate_metadata-orders s.memory.request s in
      elim (Outcome-cases (certificate_metadata env s.memory.request s).0) [
        | inr down ↦ ground arith
        | inl ((d, failure), got) ↦ elim (Option-cases failure) [
          | inl e ↦ ground (
            arith,
            submit_enroll_request-orders spec d.labels d.owner d.team d.contact_email
                (certificate_metadata env s.memory.request s).1,
          )
          | inr (x, e) ↦ ground (
            arith,
            submit_enroll_request-orders spec d.labels d.owner d.team d.contact_email
                (set_not_ready env "Pending" (text x)
                  (certificate_metadata env s.memory.request s).1).1,
          )
        ]
      ]

  submit_first-orders :
      (spec : IssuerSpec) (s : State Memory) → orders (submit_first env spec s).1 ≤ suc (orders s)
  unfolding submit_first certificate_from_request
  submit_first-orders spec s = grind (arith, enroll-orders, submit_renew_request-orders)

  process-orders :
      (spec : IssuerSpec) (s : State Memory) → orders (process env spec s).1 ≤ suc (orders s)
  unfolding process mark_denied set_not_ready set_condition
  process-orders spec s =
      grind (arith, check_dns-orders, update_request-orders, submit_first-orders)

  record_failure-orders :
      (e : Error) (s : State Memory) → orders (record_failure env e s).1 ≡ orders s
  unfolding record_failure set_not_ready set_condition record_event
  record_failure-orders e s = ground arith

  write_request-orders :
      (before : Option Dict) (s : State Memory) → orders (write_request env before s).1 ≡ orders s
  unfolding write_request save_request
  write_request-orders before s = ground arith

  update_parent-orders : (s : State Memory) → orders (update_parent env s).1 ≡ orders s
  unfolding update_parent certificate_from_request
  update_parent-orders s = ground arith

  pub finish-orders :
      (before : Option Dict) (r : Return) (s : State Memory)
      → orders (finish env before r s).1 ≡ orders s
  unfolding finish record_outcome store
  finish-orders before r s = elim (Option-cases r.err) [
    | inl e ↦ rw (e) (grind (arith, write_request-orders, update_parent-orders))
    | inr (x, e) ↦
        rw (e) (grind (arith, record_failure-orders, write_request-orders, update_parent-orders))
  ]

  record_revocation-orders : (s : State Memory) → orders (record_revocation env s).1 ≡ orders s
  unfolding record_revocation issuer_from_request record_event
  record_revocation-orders s = ground arith

  pub handle_deletion-orders : (s : State Memory) → orders (handle_deletion env s).1 ≡ orders s
  unfolding handle_deletion revoke_certificate drop_finalizer save_request
  handle_deletion-orders s = grind (arith, record_revocation-orders)

  module _ (ns : String) where
    reconcile_unsettled-orders :
        (spec : IssuerSpec) (s : State Memory)
        → orders (reconcile_unsettled env ns spec s).1 ≤ suc (orders s)
    unfolding reconcile_unsettled
    reconcile_unsettled-orders spec s = grind (arith, process-orders, finish-orders)

    reconcile_with_client-orders :
        (spec : IssuerSpec) (s : State Memory)
        → orders (reconcile_with_client env ns spec s).1 ≤ suc (orders s)
    unfolding reconcile_with_client add_finalizer
    reconcile_with_client-orders spec s =
        grind (arith, reconcile_unsettled-orders, handle_deletion-orders)

    reconcile_with_secret-orders :
        (spec : IssuerSpec) (namespace : String) (s : State Memory)
        → orders (reconcile_with_secret env ns spec namespace s).1 ≤ suc (orders s)
    unfolding reconcile_with_secret
    reconcile_with_secret-orders spec namespace s = grind (arith, reconcile_with_client-orders)

    reconcile_owned-orders :
        (cr : CertificateRequest) (s : State Memory)
        → orders (reconcile_owned env ns cr s).1 ≤ suc (orders s)
    unfolding reconcile_owned issuer_from_request set_not_ready set_condition record_event
    reconcile_owned-orders cr s = grind (arith, reconcile_with_secret-orders)

-- One reconciliation of a CertificateRequest submits at most one enrolment or renewal to Horizon,
-- whatever the API server and Horizon answer.
pub reconcile-at_most_one_order :
    (env : Env) (ns : String) (name : NamespacedName) (s : State Memory)
    → orders (reconcile env ns name s).1 ≤ suc (orders s)
unfolding reconcile
reconcile-at_most_one_order env ns name s = grind (arith, reconcile_owned-orders)
