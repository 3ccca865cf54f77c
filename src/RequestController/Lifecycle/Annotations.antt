-- ===== src/RequestController/Lifecycle/Annotations.antt =====
-- internal/controller/certificaterequest_controller.go: what the part below the `defer` keeps of the
-- annotations in memory. It only sets keys.
use horizon_issuer.Common.{
  String, Bool, true, Option, none, some, List, [], ◌∷◌, ◌≡◌, refl, arith, inl, inr,
}
use horizon_issuer.Common.Dict.{Dict, insert}
use horizon_issuer.Common.Text.{◌<>◌}
use horizon_issuer.Errors.{Result-cases}
use horizon_issuer.Api.{CertificateRequest, IssuerSpec, IssuerDnsChecker}
use horizon_issuer.Sdk.{RequestOnGet, LabelElement}
use horizon_issuer.Effects.{lookup_host, State}
use horizon_issuer.Effects.Env.{Env}
use horizon_issuer.Horizon.Annotations.{label_annotation}
use horizon_issuer.Horizon.Requests.{
  Memory, annotate, annotate_all, set_condition, submit_enroll_request, submit_renew_request,
}
use horizon_issuer.Horizon.Polling.{
  update_request, store_ca, store_issued, store_certificate, handle_completed_request,
  handle_denied_request, handle_pending_request, dispatch,
}
use horizon_issuer.IssuerUtil.{certificate_from_request}
use horizon_issuer.RequestController.Lookup.{issuer_from_request, ingress_from_certificate}
use horizon_issuer.RequestController.Metadata.{certificate_metadata}
use horizon_issuer.RequestController.Process.{
  mark_denied, check_names, check_dns, enroll, submit_first, process,
}
use horizon_issuer.RequestController.Finish.{set_not_ready}
use horizon_issuer.RequestController.Lifecycle.{on}

module _ (env : Env) where
  pub certificate_metadata-memory :
      (cr : CertificateRequest) (s : State Memory)
      → (certificate_metadata env cr s).1.memory ≡ s.memory
  unfolding certificate_metadata certificate_from_request issuer_from_request
      ingress_from_certificate
  certificate_metadata-memory cr s = ground arith

  check_names-memory :
      (server : String) (names : List String) (s : State Memory)
      → (check_names env server names s).1.memory ≡ s.memory
  unfolding check_names
  check_names-memory server [] s = refl
  check_names-memory server (name ∷ names) s = ground (
    arith,
    check_names-memory server names (record s { history = lookup_host server name ∷ s.history }),
  )

  pub check_dns-memory :
      (checker : Option IssuerDnsChecker) (s : State Memory)
      → (check_dns env checker s).1.memory ≡ s.memory
  unfolding check_dns
  check_dns-memory none s = refl
  check_dns-memory (some checker) s =
      elim (Result-cases (env.lib.decode_csr s.memory.request.request)) [
        | inl (csr, decoded) ↦
            ground (arith, check_names-memory checker.server (csr.common_name ∷ csr.dns_names) s)
        | inr (e, failed) ↦ ground arith
      ]

-- A test on annotations that setting a key does not turn false.
module _ (env : Env) (p : Dict → Bool)
    (closed : (k v : String) (m : Dict) → p m ≡ true → p (insert k v m) ≡ true) where
  abbrev pub kept : State Memory → Bool
  kept s = on p s.memory.request.metadata.annotations

  annotate-kept : (k v : String) (s : State Memory) → kept s ≡ true → kept (annotate k v s).1 ≡ true
  unfolding annotate
  annotate-kept k v s h = grind (arith, closed)

  annotate_all-kept :
      (m : Dict) (s : State Memory) → kept s ≡ true → kept (annotate_all m s).1 ≡ true
  unfolding annotate_all
  annotate_all-kept [] s h = h
  annotate_all-kept ((k, v) ∷ m) s h = ground (
    arith,
    annotate-kept (label_annotation <> ("." <> k)) v s h,
    annotate_all-kept m (annotate (label_annotation <> ("." <> k)) v s).1,
  )

  submit_enroll_request-kept :
      (spec : IssuerSpec) (labels : List LabelElement) (owner team email : Option String)
      (s : State Memory)
      → kept s ≡ true
      → kept (submit_enroll_request env spec labels owner team email s).1 ≡ true
  unfolding submit_enroll_request
  submit_enroll_request-kept spec labels owner team email s h = grind (arith, closed)

  submit_renew_request-kept :
      (id : String) (s : State Memory)
      → kept s ≡ true
      → kept (submit_renew_request env id s).1 ≡ true
  unfolding submit_renew_request
  submit_renew_request-kept id s h = grind (arith, closed)

  store_certificate-kept :
      (answer : RequestOnGet) (pem : String) (s : State Memory)
      → kept s ≡ true
      → kept (store_certificate env answer pem s).1 ≡ true
  unfolding store_certificate set_condition
  store_certificate-kept answer pem s h = grind (arith, annotate-kept, annotate_all-kept)

  store_issued-kept :
      (answer : RequestOnGet) (chain : String × String) (s : State Memory)
      → kept s ≡ true
      → kept (store_issued env answer chain s).1 ≡ true
  unfolding store_issued store_ca
  store_issued-kept answer (certificate, ca) s h =
      ground (arith, store_certificate-kept answer certificate (store_ca env ca s).1)

  handle_completed_request-kept :
      (answer : RequestOnGet) (s : State Memory)
      → kept s ≡ true
      → kept (handle_completed_request env answer s).1 ≡ true
  unfolding handle_completed_request set_condition
  handle_completed_request-kept answer s h = grind (arith, store_issued-kept)

  update_request-kept : (s : State Memory) → kept s ≡ true → kept (update_request env s).1 ≡ true
  unfolding update_request dispatch handle_pending_request handle_denied_request set_condition
  update_request-kept s h = grind (arith, handle_completed_request-kept)

  enroll-kept :
      (spec : IssuerSpec) (s : State Memory) → kept s ≡ true → kept (enroll env spec s).1 ≡ true
  unfolding enroll set_not_ready set_condition
  enroll-kept spec s h = grind (arith, certificate_metadata-memory, submit_enroll_request-kept)

  submit_first-kept :
      (spec : IssuerSpec) (s : State Memory)
      → kept s ≡ true
      → kept (submit_first env spec s).1 ≡ true
  unfolding submit_first certificate_from_request
  submit_first-kept spec s h = grind (arith, enroll-kept, submit_renew_request-kept)

  -- What stands below the `defer` keeps such a test true.
  pub process-kept :
      (spec : IssuerSpec) (s : State Memory) → kept s ≡ true → kept (process env spec s).1 ≡ true
  unfolding process mark_denied set_not_ready set_condition
  process-kept spec s h = grind (arith, check_dns-memory, update_request-kept, submit_first-kept)
