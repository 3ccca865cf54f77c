-- ===== src/Tests/Issuers.antt =====
-- The reconciler of issuers on concrete issuers.
use horizon_issuer.Common.{none, [], ◌∷◌, ◌≡◌, ◌↔◌, refl}
use horizon_issuer.Common.Text.{trim_suffix}
use horizon_issuer.Errors.{Error}
use horizon_issuer.Api.{NamespacedName, issuer, other}
use horizon_issuer.Effects.{State, returned, fail}
use horizon_issuer.IssuerUtil.{get_ready_condition}
use horizon_issuer.IssuerController.{IssuerReconciler, IssuerMemory, reconcile}
use horizon_issuer.Horizon.ClientConfig.{client_from_issuer}
use horizon_issuer.IssuerController.Laws.{IsReadyAfter, IsHealthy, get_call, reconcile-ready_iff}
use horizon_issuer.IssuerController.Update.{
  UpdatesOnce, scheduled, reconcile-UpdatesOnce, reconcile-healthy_outcome,
  reconcile-unhealthy_outcome,
}
use horizon_issuer.Effects.Env.{Env}
use horizon_issuer.Tests.Values.{
  request, parent, open_horizon, closed_horizon, env, ann, login, ready_issuer,
}
use horizon_issuer.Tests.Library.{lib-StatusConditionLaws}

abbrev pub name : NamespacedName
name = record { namespace = "web"; name = "horizon" }

abbrev pub issuers : IssuerReconciler
issuers = record {
  kind = "Issuer";
  cluster_resource_namespace = "cert-manager";
  health_check_interval = 60000000000;
}

abbrev pub start : State IssuerMemory
start = record { memory = other; history = [] }

-- With a Horizon that answers, and with one that is down.
abbrev up : Env
up = env open_horizon (request none []) (parent "")

abbrev pub down : Env
down = env closed_horizon (request none []) (parent "")

reconcile-ready_iff_example :
    IsReadyAfter up issuers name (reconcile up issuers name start)
    ↔ IsHealthy up issuers name
        (issuer ready_issuer)
        (get_call up issuers name (issuer ready_issuer) ∷ [])
reconcile-ready_iff_example =
    reconcile-ready_iff up issuers name lib-StatusConditionLaws (issuer ready_issuer) start
      (refl, refl)

reconcile-UpdatesOnce_example : UpdatesOnce [] (reconcile down issuers name start).1
reconcile-UpdatesOnce_example =
    reconcile-UpdatesOnce down issuers name (issuer ready_issuer) start (refl, refl)

reconcile-healthy_outcome_example :
    (reconcile up issuers name start).0 ≡ returned (scheduled issuers)
unfolding get_ready_condition client_from_issuer trim_suffix
reconcile-healthy_outcome_example =
    reconcile-healthy_outcome up issuers name (λ h o. refl) (issuer ready_issuer) start (refl, refl)
      (record {
        secret = login;
        client = ann;
        seen = λ e. cc;
        found = refl;
        built = refl;
        answered = refl;
      })

reconcile-unhealthy_outcome_example :
    (e : Error) × ((reconcile down issuers name start).0 ≡ returned (fail e))
unfolding get_ready_condition
reconcile-unhealthy_outcome_example =
    reconcile-unhealthy_outcome down issuers name (λ h o. refl) (issuer ready_issuer) start
      (refl, refl) (λ e. cc) (λ healthy. cc (healthy.answered))
