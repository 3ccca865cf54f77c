-- ===== src/RequestController/Lifecycle/Status.antt =====
-- internal/controller/certificaterequest_controller.go: a reconciliation that changes the status alone.
use horizon_issuer.Common.{String, Option, some, ◌≡◌, ◌∙◌, ap, if◌then◌else◌}
use horizon_issuer.Common.Dict.{Dict}
use horizon_issuer.Api.{NamespacedName, CertificateRequest, IssuerSpec}
use horizon_issuer.Effects.{State, Outcome, returned, Return, done, with_defer-returned, ◌>>=◌}
use horizon_issuer.Effects.Env.{Env}
use horizon_issuer.Horizon.ClientConfig.{trim_url}
use horizon_issuer.Horizon.Requests.{Memory}
use horizon_issuer.RequestController.{reconcile_unsettled, reconcile}
use horizon_issuer.RequestController.Process.{process}
use horizon_issuer.RequestController.Finish.{deep_equal, finish}
use horizon_issuer.RequestController.Finish.Laws.{deep_equal_refl}
use horizon_issuer.RequestController.Lifecycle.{Holds, with_status}
use horizon_issuer.RequestController.Lifecycle.Keeps.{stored}
use horizon_issuer.RequestController.Lifecycle.Stored.{finish-stored}
use horizon_issuer.RequestController.Lifecycle.Served.{spec_of}
use horizon_issuer.RequestController.Lifecycle.Awaits.{Reaches, prepared, reconcile-prepared}

module _ (env : Env) (ns : String) (name : NamespacedName) (init : CertificateRequest)
    (holds : Holds env name init) where
  module _ (cr : CertificateRequest) (c : Reaches env ns cr) (s : State Memory)
      (held : stored env init s ≡ cr) where
    abbrev before : State Memory
    before = prepared env ns name init holds cr c s

    abbrev spec : IssuerSpec
    spec = trim_url env.lib (spec_of c.found)

    unsettled-finish :
        (t : State Memory)
        → process env spec before ≡ (returned done, t)
        → (reconcile_unsettled env ns spec before).1 ≡ (finish env cr.metadata.annotations done t).1
    unfolding reconcile_unsettled
    unsettled-finish t result =
        rw (c.open_request, ◌>>=◌)
          (with_defer-returned (finish env cr.metadata.annotations) (process env spec) result)

    -- Where `process` returns and leaves the annotations alone, the status is what is stored.
    pub status-stored :
        (t : State Memory)
        → process env spec before ≡ (returned done, t)
        → t.memory.request.metadata.annotations ≡ some c.annotations
        → stored env init t ≡ cr
        → stored env init (reconcile env ns name s).1 ≡ with_status cr t.memory.request
    status-stored t result kept same =
        ap (λ (q : Outcome Return × State Memory). stored env init q.1)
          (reconcile-prepared env ns name init holds cr c s held)
        ∙ (ap (stored env init) (unsettled-finish t result)
            ∙ (finish-stored env init cr.metadata.annotations done t
                ∙ (ap (λ b. choose b t.memory.request.metadata.annotations (stored env init t))
                      c.annotated
                    ∙ (ap (λ a. choose (some c.annotations) a (stored env init t)) kept
                        ∙ (ap (choose (some c.annotations) (some c.annotations)) same
                            ∙ ap
                                (λ b.
                                  if b
                                  then with_status cr t.memory.request
                                  else with_status t.memory.request cr)
                                (deep_equal_refl (some c.annotations) c.is_map))))))
      where
        choose : Option Dict → Option Dict → CertificateRequest → CertificateRequest
        choose b a cr' =
            if deep_equal b a
            then with_status cr' t.memory.request
            else with_status t.memory.request cr'
