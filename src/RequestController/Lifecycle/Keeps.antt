-- ===== src/RequestController/Lifecycle/Keeps.antt =====
-- internal/controller/certificaterequest_controller.go: what a reconciliation keeps of the request
-- that the API server holds.
use horizon_issuer.Common.{
  String, Option, none, some, List, [], ◌∷◌, ◌≡◌, refl, arith, inl, inr, Option-cases, ap,
}
use horizon_issuer.Errors.{Result-cases}
use horizon_issuer.Api.{CertificateRequest, IssuerSpec, IssuerDnsChecker}
use horizon_issuer.Sdk.{RequestOnGet, LabelElement}
use horizon_issuer.Effects.{tc_pem, lookup_host, State}
use horizon_issuer.Effects.Env.{Env}
use horizon_issuer.Horizon.Requests.{
  Memory, set_condition, submit_enroll_request, submit_renew_request,
}
use horizon_issuer.Horizon.Polling.{
  update_request, store_issued, handle_completed_request, handle_denied_request,
  handle_pending_request, dispatch, approval,
}
use horizon_issuer.Horizon.TrustChain.{build_pem_trustchain}
use horizon_issuer.IssuerUtil.{certificate_from_request}
use horizon_issuer.RequestController.Lookup.{issuer_from_request, ingress_from_certificate}
use horizon_issuer.RequestController.Metadata.{certificate_metadata}
use horizon_issuer.RequestController.Process.{
  mark_denied, check_names, check_dns, enroll, submit_first, process,
}
use horizon_issuer.RequestController.Finish.{set_not_ready}
use horizon_issuer.RequestController.Orders.{store_issued-history}
use horizon_issuer.RequestController.Lifecycle.{stored_after}

module _ (env : Env) (init : CertificateRequest) where
  abbrev pub stored : State Memory → CertificateRequest
  stored s = stored_after init s.history

  submit_enroll_request-stored :
      (spec : IssuerSpec) (labels : List LabelElement) (owner team email : Option String)
      (s : State Memory)
      → stored (submit_enroll_request env spec labels owner team email s).1 ≡ stored s
  unfolding submit_enroll_request
  submit_enroll_request-stored spec labels owner team email s = ground arith

  submit_renew_request-stored :
      (id : String) (s : State Memory) → stored (submit_renew_request env id s).1 ≡ stored s
  unfolding submit_renew_request
  submit_renew_request-stored id s = ground arith

  certificate_metadata-stored :
      (cr : CertificateRequest) (s : State Memory)
      → stored (certificate_metadata env cr s).1 ≡ stored s
  unfolding certificate_metadata certificate_from_request issuer_from_request
      ingress_from_certificate
  certificate_metadata-stored cr s = ground arith

  check_names-stored :
      (server : String) (names : List String) (s : State Memory)
      → stored (check_names env server names s).1 ≡ stored s
  unfolding check_names
  check_names-stored server [] s = refl
  check_names-stored server (name ∷ names) s = ground (
    arith,
    check_names-stored server names (record s { history = lookup_host server name ∷ s.history }),
  )

  check_dns-stored :
      (checker : Option IssuerDnsChecker) (s : State Memory)
      → stored (check_dns env checker s).1 ≡ stored s
  unfolding check_dns
  check_dns-stored none s = refl
  check_dns-stored (some checker) s = grind (arith, check_names-stored)

  store_issued-stored :
      (answer : RequestOnGet) (chain : String × String) (s : State Memory)
      → stored (store_issued env answer chain s).1 ≡ stored s
  store_issued-stored answer chain s =
      ap (stored_after init) (store_issued-history env answer chain s)

  handle_completed_request-stored :
      (answer : RequestOnGet) (s : State Memory)
      → stored (handle_completed_request env answer s).1 ≡ stored s
  unfolding handle_completed_request set_condition
  handle_completed_request-stored answer s = elim (Option-cases s.memory.client) [
    | inl unset ↦ ground arith
    | inr (client, set) ↦
        elim (Result-cases (env.horizon.tc_pem s.history client answer.certificate.certificate)) [
          | inr (e, failed) ↦ ground arith
          | inl (certs, got) ↦ ground (
            arith,
            store_issued-stored answer (build_pem_trustchain certs) (record s {
              memory = (set_condition env approval s).1.memory;
              history = tc_pem client answer.certificate.certificate ∷ s.history;
            }),
          )
        ]
  ]

  update_request-stored : (s : State Memory) → stored (update_request env s).1 ≡ stored s
  unfolding update_request dispatch handle_pending_request handle_denied_request set_condition
  update_request-stored s = grind (arith, handle_completed_request-stored)

  enroll-stored : (spec : IssuerSpec) (s : State Memory) → stored (enroll env spec s).1 ≡ stored s
  unfolding enroll set_not_ready set_condition
  enroll-stored spec s = grind (arith, certificate_metadata-stored, submit_enroll_request-stored)

  submit_first-stored :
      (spec : IssuerSpec) (s : State Memory) → stored (submit_first env spec s).1 ≡ stored s
  unfolding submit_first certificate_from_request
  submit_first-stored spec s = grind (arith, enroll-stored, submit_renew_request-stored)

  -- What stands below the `defer` writes no request.
  pub process-stored :
      (spec : IssuerSpec) (s : State Memory) → stored (process env spec s).1 ≡ stored s
  unfolding process mark_denied set_not_ready set_condition
  process-stored spec s =
      grind (arith, check_dns-stored, update_request-stored, submit_first-stored)
