-- ===== src/RequestController/Lifecycle/Guarded.antt =====
-- internal/controller/certificaterequest_controller.go: the finalizer in memory, below the
-- `defer`.
use horizon_issuer.Common.{String, Bool, true, Option, List, [], ◌∷◌, ◌≡◌, arith}
use horizon_issuer.Common.Dict.{Dict}
use horizon_issuer.Common.Text.{◌<>◌}
use horizon_issuer.Api.{CertificateRequest, IssuerSpec}
use horizon_issuer.Sdk.{RequestOnGet, LabelElement}
use horizon_issuer.Effects.{State}
use horizon_issuer.Effects.Env.{Env}
use horizon_issuer.Horizon.Annotations.{label_annotation, finalizer_name}
use horizon_issuer.Horizon.Requests.{
  Memory, annotate, annotate_all, set_condition, submit_enroll_request, submit_renew_request,
}
use horizon_issuer.Horizon.Polling.{
  update_request, store_ca, store_issued, store_certificate, handle_completed_request,
  handle_denied_request, handle_pending_request, dispatch,
}
use horizon_issuer.IssuerUtil.{certificate_from_request}
use horizon_issuer.RequestController.Process.{mark_denied, enroll, submit_first, process}
use horizon_issuer.RequestController.Finish.{set_not_ready}
use horizon_issuer.RequestController.Lifecycle.Annotations.{
  certificate_metadata-memory, check_dns-memory,
}

-- The request has the finalizer.
abbrev pub is_guarded : Env → CertificateRequest → Bool
is_guarded env cr = env.lib.contains_finalizer cr.metadata.finalizers finalizer_name

module _ (env : Env) where
  -- The request in memory has it.
  abbrev holds_it : State Memory → Bool
  holds_it s = is_guarded env s.memory.request

  annotate-finalizers :
      (k v : String) (s : State Memory) → holds_it s ≡ true → holds_it (annotate k v s).1 ≡ true
  unfolding annotate
  annotate-finalizers k v s h = ground arith

  annotate_all-finalizers :
      (m : Dict) (s : State Memory) → holds_it s ≡ true → holds_it (annotate_all m s).1 ≡ true
  unfolding annotate_all
  annotate_all-finalizers [] s h = h
  annotate_all-finalizers ((k, v) ∷ m) s h = ground (
    arith,
    annotate-finalizers (label_annotation <> ("." <> k)) v s h,
    annotate_all-finalizers m (annotate (label_annotation <> ("." <> k)) v s).1,
  )

  store_certificate-finalizers :
      (answer : RequestOnGet) (pem : String) (s : State Memory)
      → holds_it s ≡ true
      → holds_it (store_certificate env answer pem s).1 ≡ true
  unfolding store_certificate set_condition
  store_certificate-finalizers answer pem s h =
      grind (arith, annotate-finalizers, annotate_all-finalizers)

  store_issued-finalizers :
      (answer : RequestOnGet) (chain : String × String) (s : State Memory)
      → holds_it s ≡ true
      → holds_it (store_issued env answer chain s).1 ≡ true
  unfolding store_issued store_ca
  store_issued-finalizers answer (certificate, ca) s h =
      ground (arith, store_certificate-finalizers answer certificate (store_ca env ca s).1)

  handle_completed_request-finalizers :
      (answer : RequestOnGet) (s : State Memory)
      → holds_it s ≡ true
      → holds_it (handle_completed_request env answer s).1 ≡ true
  unfolding handle_completed_request set_condition
  handle_completed_request-finalizers answer s h = grind (arith, store_issued-finalizers)

  update_request-finalizers :
      (s : State Memory) → holds_it s ≡ true → holds_it (update_request env s).1 ≡ true
  unfolding update_request dispatch handle_pending_request handle_denied_request set_condition
  update_request-finalizers s h = grind (arith, handle_completed_request-finalizers)

  submit_enroll_request-finalizers :
      (spec : IssuerSpec) (labels : List LabelElement) (owner team email : Option String)
      (s : State Memory)
      → holds_it s ≡ true
      → holds_it (submit_enroll_request env spec labels owner team email s).1 ≡ true
  unfolding submit_enroll_request
  submit_enroll_request-finalizers spec labels owner team email s h = grind arith

  submit_renew_request-finalizers :
      (id : String) (s : State Memory)
      → holds_it s ≡ true
      → holds_it (submit_renew_request env id s).1 ≡ true
  unfolding submit_renew_request
  submit_renew_request-finalizers id s h = grind arith

  enroll-finalizers :
      (spec : IssuerSpec) (s : State Memory)
      → holds_it s ≡ true
      → holds_it (enroll env spec s).1 ≡ true
  unfolding enroll set_not_ready set_condition
  enroll-finalizers spec s h =
      grind (arith, certificate_metadata-memory, submit_enroll_request-finalizers)

  submit_first-finalizers :
      (spec : IssuerSpec) (s : State Memory)
      → holds_it s ≡ true
      → holds_it (submit_first env spec s).1 ≡ true
  unfolding submit_first certificate_from_request
  submit_first-finalizers spec s h =
      grind (arith, enroll-finalizers, submit_renew_request-finalizers)

  pub process-finalizers :
      (spec : IssuerSpec) (s : State Memory)
      → holds_it s ≡ true
      → holds_it (process env spec s).1 ≡ true
  unfolding process mark_denied set_not_ready set_condition
  process-finalizers spec s h =
      grind (arith, check_dns-memory, update_request-finalizers, submit_first-finalizers)
