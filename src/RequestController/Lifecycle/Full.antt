-- ===== src/RequestController/Lifecycle/Full.antt =====
-- internal/controller/certificaterequest_controller.go: the Ready condition and the certificate of a
-- request in memory, below the `defer`.
use horizon_issuer.Common.{
  String, Bool, true, false, not, ◌||◌, Option, List, [], ◌∷◌, ◌≡◌, ◌≢◌, ◌⊎◌, refl, sym, subst,
  arith, inl, inr,
}
use horizon_issuer.Common.Dict.{Dict}
use horizon_issuer.Common.Text.{◌<>◌, is_empty}
use horizon_issuer.Api.{
  CertificateRequest, IssuerSpec, RequestCondition, RequestConditionKind, ready, invalid_request,
  approved, denied, ConditionStatus, is_true, is_false, is_unknown,
}
use horizon_issuer.Sdk.{RequestOnGet, LabelElement, Client, Submission}
use horizon_issuer.Effects.{State}
use horizon_issuer.Effects.Env.{Env}
use horizon_issuer.Horizon.Annotations.{label_annotation}
use horizon_issuer.Horizon.Requests.{
  Memory, annotate, annotate_all, set_condition, submit, submitted, handle_failed_request,
  submit_enroll_request, submit_renew_request,
}
use horizon_issuer.Horizon.Polling.{
  update_request, store_ca, store_issued, store_certificate, handle_completed_request,
  handle_denied_request, handle_pending_request, dispatch,
}
use horizon_issuer.IssuerUtil.{certificate_from_request}
use horizon_issuer.RequestController.Process.{mark_denied, enroll, submit_first, process}
use horizon_issuer.RequestController.Finish.{set_not_ready}
use horizon_issuer.RequestController.Finish.Laws.{RequestConditionLaws}
use horizon_issuer.RequestController.Lifecycle.Annotations.{
  certificate_metadata-memory, check_dns-memory,
}

-- Ready only with a certificate, as a test.
abbrev pub is_signed_or_open : Env → CertificateRequest → Bool
is_signed_or_open env cr =
    not (env.lib.request_has_condition cr.conditions ready is_true "")
    || not (is_empty cr.certificate)

-- Any condition but Ready true.
abbrev is_unready : RequestConditionKind → ConditionStatus → Bool
is_unready ready is_true = false
is_unready ready is_false = true
is_unready ready is_unknown = true
is_unready _ _ = true

module _ (env : Env) (laws : RequestConditionLaws env.lib) where
  -- What is known of the request in memory.
  abbrev pub full : State Memory → Bool
  full s = is_signed_or_open env s.memory.request

  has_ready : List RequestCondition → Bool
  has_ready cs = env.lib.request_has_condition cs ready is_true ""

  kind-cases :
      (k : RequestConditionKind) (s : ConditionStatus)
      → is_unready k s ≡ true
      → ((ready ≡ k) × (is_true ≢ s)) ⊎ (ready ≢ k)
  kind-cases ready is_true h = ground arith
  kind-cases ready is_false h = inl (refl, λ e. cc)
  kind-cases ready is_unknown h = inl (refl, λ e. cc)
  kind-cases invalid_request s h = inr (λ e. cc)
  kind-cases approved s h = inr (λ e. cc)
  kind-cases denied s h = inr (λ e. cc)

  has_ready-set :
      (cs : List RequestCondition) (c : RequestCondition)
      → is_unready c.kind c.status ≡ true
      → has_ready (env.lib.set_request_condition cs c) ≡ true
      → has_ready cs ≡ true
  unfolding has_ready
  has_ready-set cs c h set = elim (kind-cases c.kind c.status h) [
    | inl (e, ne) ↦
        let has : RequestConditionKind → List RequestCondition → Bool =
          λ k cs'. env.lib.request_has_condition cs' k is_true "" in
        subst (λ k. has k cs ≡ true) (sym e)
          (laws.has-set_status cs c is_true "" ne
            (subst (λ k. has k (env.lib.set_request_condition cs c) ≡ true) e set))
    | inr ne ↦ ground (arith, laws.has-set_other cs c ready is_true "" ne)
  ]

  -- Setting another condition keeps it so.
  pub set-full :
      (c : RequestCondition) (s : State Memory)
      → is_unready c.kind c.status ≡ true
      → full s ≡ true
      → full (set_condition env c s).1 ≡ true
  unfolding set_condition has_ready
  set-full c s h f = ground (arith, has_ready-set s.memory.request.conditions c h)

  annotate-full : (k v : String) (s : State Memory) → full s ≡ true → full (annotate k v s).1 ≡ true
  unfolding annotate
  annotate-full k v s f = ground arith

  annotate_all-full :
      (m : Dict) (s : State Memory) → full s ≡ true → full (annotate_all m s).1 ≡ true
  unfolding annotate_all
  annotate_all-full [] s f = f
  annotate_all-full ((k, v) ∷ m) s f = ground (
    arith,
    annotate-full (label_annotation <> ("." <> k)) v s f,
    annotate_all-full m (annotate (label_annotation <> ("." <> k)) v s).1,
  )

  store_certificate-full :
      (answer : RequestOnGet) (pem : String) (s : State Memory)
      → is_empty pem ≡ false
      → full s ≡ true
      → full (store_certificate env answer pem s).1 ≡ true
  unfolding store_certificate set_condition
  store_certificate-full answer pem s h f = grind (arith, annotate-full, annotate_all-full)

  store_issued-full :
      (answer : RequestOnGet) (chain : String × String) (s : State Memory)
      → full s ≡ true
      → full (store_issued env answer chain s).1 ≡ true
  unfolding store_issued store_ca
  store_issued-full answer (certificate, ca) s f =
      ground (arith, store_certificate-full answer certificate (store_ca env ca s).1)

  handle_completed_request-full :
      (answer : RequestOnGet) (s : State Memory)
      → full s ≡ true
      → full (handle_completed_request env answer s).1 ≡ true
  unfolding handle_completed_request
  handle_completed_request-full answer s f = grind (arith, set-full, store_issued-full)

  update_request-full : (s : State Memory) → full s ≡ true → full (update_request env s).1 ≡ true
  unfolding update_request dispatch handle_pending_request handle_denied_request
  update_request-full s f = grind (arith, set-full, handle_completed_request-full)

  submit-full :
      (client : Client) (body : Submission) (message : String) (s : State Memory)
      → full s ≡ true
      → full (submit env client body message s).1 ≡ true
  unfolding submit submitted handle_failed_request
  submit-full client body message s f = grind (arith, annotate-full, set-full)

  submit_enroll_request-full :
      (spec : IssuerSpec) (labels : List LabelElement) (owner team email : Option String)
      (s : State Memory)
      → full s ≡ true
      → full (submit_enroll_request env spec labels owner team email s).1 ≡ true
  unfolding submit_enroll_request handle_failed_request
  submit_enroll_request-full spec labels owner team email s f = grind (arith, set-full, submit-full)

  enroll-full :
      (spec : IssuerSpec) (s : State Memory) → full s ≡ true → full (enroll env spec s).1 ≡ true
  unfolding enroll set_not_ready
  enroll-full spec s f =
      grind (arith, certificate_metadata-memory, set-full, submit_enroll_request-full)

  submit_first-full :
      (spec : IssuerSpec) (s : State Memory)
      → full s ≡ true
      → full (submit_first env spec s).1 ≡ true
  unfolding submit_first certificate_from_request submit_renew_request
  submit_first-full spec s f = grind (arith, enroll-full, submit-full)

  pub process-full :
      (spec : IssuerSpec) (s : State Memory) → full s ≡ true → full (process env spec s).1 ≡ true
  unfolding process mark_denied set_not_ready
  process-full spec s f =
      grind (arith, check_dns-memory, set-full, update_request-full, submit_first-full)
