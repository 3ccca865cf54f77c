-- ===== src/RequestController/Lifecycle/Delivered.antt =====
-- internal/controller/certificaterequest_controller.go: the certificate of a request that Horizon has
-- completed is stored, and stays.
use horizon_issuer.Common.{ℕ, zero, suc, String, Bool, true, ◌&&◌, none, ◌≡◌, refl, ap, arith}
use horizon_issuer.Common.Dict.{lookup}
use horizon_issuer.Common.Text.{◌==◌, eq_refl}
use horizon_issuer.Api.{
  NamespacedName, CertificateRequest, IssuerSpec, ready, is_true, get_annotation,
}
use horizon_issuer.Effects.{State}
use horizon_issuer.Effects.Env.{Env}
use horizon_issuer.Horizon.Annotations.{certificate_id}
use horizon_issuer.Horizon.Requests.{Memory}
use horizon_issuer.Horizon.TrustChain.{build_pem_trustchain}
use horizon_issuer.Horizon.Polling.{approval, signed}
use horizon_issuer.Horizon.Polling.Issued.{issued-certificate_id}
use horizon_issuer.RequestController.{is_settled, reconcile_unsettled, reconcile}
use horizon_issuer.RequestController.Finish.{found_is}
use horizon_issuer.RequestController.Finish.Laws.{RequestConditionLaws}
use horizon_issuer.RequestController.Orders.{orders}
use horizon_issuer.RequestController.Lifecycle.{Holds, stored_after, rounds}
use horizon_issuer.RequestController.Lifecycle.Keeps.{stored}
use horizon_issuer.RequestController.Lifecycle.Lift.{reconcile-test}
use horizon_issuer.RequestController.Lifecycle.Awaits.{reaches_with, Awaits}
use horizon_issuer.RequestController.Lifecycle.Issues.{next, first-stored, second-stored}

-- Ready, with the certificate, and with Horizon's id of it among the annotations.
abbrev pub is_delivered : Env → (certificate id : String) → CertificateRequest → Bool
is_delivered env certificate id cr =
    env.lib.request_has_condition cr.conditions ready is_true ""
    && (cr.certificate == certificate
        && found_is (get_annotation certificate_id cr.metadata.annotations) id)

module _ (env : Env) (ns : String) (name : NamespacedName) (init : CertificateRequest)
    (holds : Holds env name init) (certificate id : String) where
  abbrev delivered : State Memory → Bool
  delivered s = is_delivered env certificate id (stored env init s)

  unsettled-ready :
      (spec : IssuerSpec) (s : State Memory)
      → env.lib.request_has_condition s.memory.request.conditions ready is_true "" ≡ true
      → (reconcile_unsettled env ns spec s).1 ≡ s
  unfolding reconcile_unsettled is_settled
  unsettled-ready spec s h = ground (arith, h)

  -- What was delivered stays.
  reconcile-delivered :
      (s : State Memory) → delivered s ≡ true → delivered (reconcile env ns name s).1 ≡ true
  reconcile-delivered s h =
      reconcile-test env ns name init holds (stored env init s).metadata.annotations
        (stored env init s).conditions (stored env init s).certificate (orders s) delivered
        (λ t q. ground (arith, q.0, q.1.0, q.1.1.1, h))
        (λ spec t q g. ground (arith, unsettled-ready spec t, g.1, q.0, q.1.0, q.1.1.1, h)) s
        (refl, (refl, (refl, refl)))

  rounds-stays :
      (n : ℕ) (s : State Memory) → delivered s ≡ true → delivered (rounds env ns name n s) ≡ true
  unfolding rounds
  rounds-stays zero s h = h
  rounds-stays (suc n) s h = rounds-stays n (reconcile env ns name s).1 (reconcile-delivered s h)

module _ (env : Env) (ns : String) (name : NamespacedName) (init : CertificateRequest)
    (holds : Holds env name init) (laws : RequestConditionLaws env.lib) (s : State Memory)
    (cr : CertificateRequest) (c : Awaits env ns cr) (held : stored env init s ≡ cr)
    (no_id : lookup certificate_id c.reaches.annotations ≡ none) where
  second-delivered :
      is_delivered env
        (build_pem_trustchain c.completes.certs).0
        c.completes.answer.certificate.id
        (stored env init (rounds env ns name 2 s))
      ≡ true
  unfolding next reaches_with
  second-delivered = rw (second-stored env ns name init holds cr c s held no_id) (
      ground (
        arith,
        laws.has_any-set (env.lib.set_request_condition cr.conditions approval) signed,
        eq_refl (build_pem_trustchain c.completes.certs).0,
        issued-certificate_id c.completes.answer.certificate c.reaches.annotations,
        eq_refl c.completes.answer.certificate.id,
      ))

  -- From the second reconciliation on, the certificate is there.
  pub later-delivered :
      (n : ℕ)
      → is_delivered env
          (build_pem_trustchain c.completes.certs).0
          c.completes.answer.certificate.id
          (stored env init (rounds env ns name (suc (suc n)) s))
        ≡ true
  unfolding rounds
  later-delivered n =
      rounds-stays env ns name init holds (build_pem_trustchain c.completes.certs).0
        c.completes.answer.certificate.id n (rounds env ns name 2 s) second-delivered

-- A request that was submitted and is open, and that Horizon has completed, has its certificate
-- after two reconciliations, and keeps it over all later ones: it is Ready, with the joined chain,
-- and with Horizon's id of the certificate among its annotations. The first reconciliation stores
-- the annotations alone, and leaves the certificate as it was. Throughout, the API server takes
-- every update and nobody else writes the request, its issuer, of either kind, is ready and needs no
-- DNS check, and Horizon's answers stay; the request is neither denied nor approved, is not to be
-- deleted, and had no certificate id.
pub rounds-delivered :
    (env : Env) (ns : String) (name : NamespacedName) (init : CertificateRequest)
    → Holds env name init
    → RequestConditionLaws env.lib
    → (s : State Memory) (c : Awaits env ns (stored_after init s.history))
    → lookup certificate_id c.reaches.annotations ≡ none
    → (n : ℕ)
    → ((stored_after init (reconcile env ns name s).1.history).certificate
        ≡ (stored_after init s.history).certificate)
      × (is_delivered env
            (build_pem_trustchain c.completes.certs).0
            c.completes.answer.certificate.id
            (stored_after init (rounds env ns name (suc (suc n)) s).history)
          ≡ true)
rounds-delivered env ns name init holds laws s c no_id n = (
  ap (λ (cr : CertificateRequest). cr.certificate)
      (first-stored env ns name init holds (stored env init s) c s refl no_id),
  later-delivered env ns name init holds laws s (stored env init s) c refl no_id n,
)
